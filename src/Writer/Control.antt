-- ===== src/Writer/Control.antt =====
-- msutil/writer.go: `ControlWriter`.
use mogusocket.Common.{ℕ, ◌+◌, Option, some, Bytes, length, take, ltb, if◌then◌else◌}
use mogusocket.Errors.{Error, control_overflow}
use mogusocket.Stream.{Sink}
use mogusocket.Frame.Header.{max_control_frame_payload_size}
use mogusocket.Writer.Result.{Result, ok, ◌>>=◌}
use mogusocket.Writer.Buffer.{
  Writer, header_size_of, plus_ℤ, new_writer_buffer, new_writer_size, size,
}
use mogusocket.Writer.Flush.{flush}
use mogusocket.Writer.Write.{write_bytes}

pub record ControlWriter : Type 0 where
  pub w : Writer
  pub limit : ℕ
  pub n : ℕ

unfoldable pub new_control_writer : (ℕ → ℕ) → Sink → ℕ → ℕ → Result ControlWriter
new_control_writer random dest state op = do
  w ← new_writer_size random dest state op max_control_frame_payload_size
  ok (record { w = w; limit = max_control_frame_payload_size; n = 0 })

unfoldable pub new_control_writer_buffer : (ℕ → ℕ) → Sink → ℕ → ℕ → Bytes → Result ControlWriter
new_control_writer_buffer random dest state op buf = do
  let max =
      plus_ℤ max_control_frame_payload_size (header_size_of state max_control_frame_payload_size)
  w ← new_writer_buffer random dest state op (if ltb max (length buf) then take max buf else buf)
  ok (record { w = w; limit = size w; n = 0 })

abbrev pub under : ControlWriter → ℕ × Option Error × Writer → ℕ × Option Error × ControlWriter
under c (n, e, v) = (n, e, record c { w = v })

-- `n` of a ControlWriter is read here and written nowhere.
unfoldable pub control_write : ℕ → Bytes → ControlWriter → Result (ℕ × Option Error × ControlWriter)
control_write fuel p c =
    let passed = write_bytes fuel p c.w >>= λ r. ok (under c r) in
    if ltb c.limit (c.n + length p) then ok (0, some control_overflow, c) else passed

unfoldable pub control_flush : ControlWriter → Result (Option Error × ControlWriter)
control_flush c = flush c.w >>= λ (e, v). ok (e, record c { w = v })
