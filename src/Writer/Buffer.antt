-- ===== src/Writer/Buffer.antt =====
-- msutil/writer.go: the state of a `Writer`, its constructors, `Reset`, and `Grow`.
use mogusocket.Common.{
  ℕ, zero, suc, ◌+◌, ◌-◌, ◌/◌, ◌^◌, bit_or, Bool, true, false, Option, none, List, [], Bytes,
  length, take, replicate, ltb, leb, ◌==◌, if◌then◌else◌,
}
use mogusocket.Common.Words.{ℤ, pos, negsuc}
use mogusocket.Cipher.{put_at}
use mogusocket.Errors.{Error}
use mogusocket.Stream.{Sink}
use mogusocket.Frame.Header.{Header, zero_header}
use mogusocket.Check.{client_side}
use mogusocket.Codec.Write.{header_size, len7, len16}
use mogusocket.Writer.Result.{Result, ok, panic, stuck, ◌>>=◌}

-- `SetBits` of an extension (extenstion.go).
abbrev pub SendExtension : Type 0
SendExtension = Header → Header × Option Error

-- `buf` is `raw[offset:]`. `draws` counts the numbers taken from rand.Uint32, which are `random`.
pub record Writer : Type 0 where
  pub dest : Sink
  pub op : ℕ
  pub state : ℕ
  pub extensions : List SendExtension
  pub no_flush : Bool
  pub raw : Bytes
  pub offset : ℕ
  pub n : ℕ
  pub dirty : Bool
  pub fseq : ℕ
  pub err : Option Error
  pub random : ℕ → ℕ
  pub draws : ℕ

abbrev pub default_write_buffer : ℕ
default_write_buffer = 4096

abbrev pub min_header_size : ℕ
min_header_size = 2

unfoldable pub reserve : ℕ → ℕ → ℕ
reserve state n =
    let mask : ℕ = if client_side state then 4 else 0 in
    if leb n (len7 + mask + 2)
    then mask + 2
    else if leb n (len16 + mask + 4)
    then mask + 4
    else mask + 10

-- `headerSize`
unfoldable pub header_size_of : ℕ → ℕ → ℤ
header_size_of s n = header_size (record zero_header { len = pos n; masked = client_side s })

abbrev pub plus_ℤ : ℕ → ℤ → ℕ
plus_ℤ n (pos k) = n + k
plus_ℤ n (negsuc k) = n - (k + 1)

unfoldable pub init_buf : Writer → Result Writer
init_buf w =
    let offset = reserve w.state (length w.raw) in
    if leb (length w.raw) offset then panic else ok (record w { offset = offset })

unfoldable pub new_writer_buffer : (ℕ → ℕ) → Sink → ℕ → ℕ → Bytes → Result Writer
unfolding init_buf
new_writer_buffer random dest state op buf = init_buf (record {
  dest = dest;
  op = op;
  state = state;
  extensions = [];
  no_flush = false;
  raw = buf;
  offset = 0;
  n = 0;
  dirty = false;
  fseq = 0;
  err = none;
  random = random;
  draws = 0;
})

unfoldable pub new_writer_buffer_size : (ℕ → ℕ) → Sink → ℕ → ℕ → ℕ → Result Writer
unfolding new_writer_buffer
new_writer_buffer_size random dest state op n =
    let size : ℕ = if leb n min_header_size then default_write_buffer else n in
    new_writer_buffer random dest state op (replicate size 0)

unfoldable pub new_writer_size : (ℕ → ℕ) → Sink → ℕ → ℕ → ℕ → Result Writer
unfolding new_writer_buffer_size header_size_of
new_writer_size random dest state op n =
    new_writer_buffer_size random dest state op
      (if ltb 0 n then plus_ℤ n (header_size_of state n) else n)

unfoldable pub new_writer : (ℕ → ℕ) → Sink → ℕ → ℕ → Result Writer
unfolding new_writer_buffer_size
new_writer random dest state op = new_writer_buffer_size random dest state op 0

-- `Reset` does not touch `err`.
unfoldable pub reset : Sink → ℕ → ℕ → Writer → Result Writer
unfolding init_buf
reset dest state op w = do
  v ← init_buf (record w { dest = dest; state = state; op = op })
  ok (record v { n = 0; dirty = false; fseq = 0; extensions = []; no_flush = false })

unfoldable pub reset_op : ℕ → Writer → Writer
reset_op op w = record w { op = op; n = 0; dirty = false; fseq = 0 }

unfoldable pub set_extensions : List SendExtension → Writer → Writer
set_extensions xs w = record w { extensions = xs }

unfoldable pub disable_flush : Writer → Writer
disable_flush w = record w { no_flush = true }

unfoldable pub size : Writer → ℕ
size w = length w.raw - w.offset

unfoldable pub available : Writer → ℕ
available w = length w.raw - w.offset - w.n

unfoldable pub buffered : Writer → ℕ
buffered w = w.n

-- The shifts of an int of 64 bits, on numbers that are not negative.
unfoldable pub ceil_power_of_two : ℕ → ℕ
ceil_power_of_two n =
    let a = bit_or n (n / 2 ^ 1) in
    let b = bit_or a (a / 2 ^ 2) in
    let c = bit_or b (b / 2 ^ 4) in
    let d = bit_or c (c / 2 ^ 8) in
    let e = bit_or d (d / 2 ^ 16) in let f = bit_or e (e / 2 ^ 32) in f + 1

-- The loop of `Grow` on `size` and `nextOffset`, with its rounds; `cap < n` without the subtraction.
unfoldable pub grow_loop : ℕ → ℕ → ℕ → ℕ → ℕ → ℕ → Result (ℕ × ℕ)
grow_loop zero state buffered n size next_offset = stuck
grow_loop (suc fuel) state buffered n size next_offset =
    let size' = ceil_power_of_two (next_offset + buffered + n) in
    let rest = grow_loop fuel state buffered n size' (reserve state size') in
    if ltb size (next_offset + buffered + n) then rest else ok (size, next_offset)

-- Behind the loop.
unfoldable pub regrown : Writer → ℕ × ℕ → Result Writer
regrown w (size, next_offset) =
    if ltb size (length w.raw)
    then panic
    else if size == length w.raw
    then ok w
    else if ltb next_offset w.offset
    then panic
    else ok (record w {
      raw = put_at (replicate size 0) (next_offset - w.offset) (take (w.offset + w.n) w.raw);
      offset = next_offset;
    })

-- Four rounds are enough: the offset grows at most twice.
unfoldable pub grow : ℕ → Writer → Result Writer
unfolding grow_loop regrown
grow n w = grow_loop 4 w.state w.n n (length w.raw) w.offset >>= regrown w
