-- ===== src/Lib.antt =====
-- A WebSocket library in Go (package mogusocket, with helpers in package msutil): frames and their
-- masking, protocol checks, the codec of frames, the validation of text, buffered reading and
-- writing of messages, and the lines of the HTTP handshake.
--
-- The parts, the files that model them and the code:
--   Cipher     cipher.go. `cipher` is Cipher with its loops; Cipher/Loops and Cipher/Equivalence
--              compare it with masking byte by byte.
--   Errors     the error values of check.go, read.go and msutil.
--   Stream     package io as the library uses it: a `Source` hands out its bytes in pieces and
--              ends with an error, a `Sink` records each Write and may fail at any of them.
--   Frame      frame.go (Header, Status, Build) and ParseCloseFrameData of read.go.
--   Check      check.go.
--   Codec      read.go (Read) and write.go (Write).
--   Utf8       msutil/utf8.go: the decoder's table, and the reader in Utf8/Reader.
--   Writer     msutil/writer.go: the buffer and its sizes (Buffer), the frames it sends (Flush),
--              Write, and the ControlWriter (Control). Fragments says which bytes are the frames of a
--              message; Progress, Rounds, Copy, Loop, Message and Session follow a server's writer
--              through one. ReadFrom is ReadFrom with GetWriter and PutWriter.
--   Reader     msutil/cipher.go (Ciphers), msutil/reader.go (Body, Messages), msutil/handler.go
--              (Handler) and msutil/helper.go: writing (Helpers), ReadMessage, and ReadData with
--              ControlFrameHandler (ReadData), over the loops of package io (Loops). Partway, Pieces, Payloads,
--              Whole and Collected follow the reads of one payload, Opening the NextFrame before it, Accepted the headers that it
--              lets through;
--              Receives, Exchange and DataExchange put them together, Passing, Fragmented, Assembly and
--              WriterExchange for messages in several frames.
--   Sessions   msutil/connecter.go and msutil/client.go: the loops of Connecter.Run and
--              ConnectClient; Client is about the latter, Reconnect is AutoConnectClient.
--   Text       util.go: numbers, splitting, trimming, header keys, and readLine (ReadLine).
--   Http       http.go: the lines of a handshake (Lines) and what is written (Requests, AnswerText).
--   Handshake  errors.go (Failure), nonce.go (Nonce), the selections of http.go and dialer.go
--              over httphead (Options), Upgrade of upgrader.go (Server) and of dialer.go
--              (Client). Seen, Steps, Sound, Headers, Selected, Answered, Total and Upgrades
--              are about the server's loop over the headers, Answers, Agreed, Dialed and Dials
--              about the client's.
--   Tests      runs at concrete inputs.
--
-- A Reader calls the codec, the protocol checks, the cipher and the UTF-8 reader; a Writer calls the
-- codec and the cipher; the control handler answers through a ControlWriter. The session loops run a
-- Reader, the control handler and a Writer over one connection.
--
-- Bytes, operation codes, states and status codes are natural numbers; their ranges are hypotheses
-- where they count. An int64 is a `ℤ`, and conversions to narrower types are written out. A slice
-- is a list; a function that writes through a slice returns what the slice holds afterwards. An
-- error is an `Option`, `none` for nil; a panic is `none` of the result, or `panic` of a `Result`.
-- Readers that share a connection are one record with one source.
-- Most loops are recursions on the bytes or on the rounds left. The loops of Write and Discard
-- take the number of rounds as fuel and end as `stuck` without it, and so do the loops of package
-- io and of the sessions; a message takes at most as many reads as the connection has bytes and
-- pieces, and one more. Grow has four rounds: an offset grows at most twice. readLine and the
-- loops over headers have one round for each byte still to come and one more, and each round reads
-- a byte.
-- Random masks, the buffers of the pool, utf8.ValidString, net/url, httphead, strconv, SHA-1 and
-- base64 are arguments, and so are the callbacks of an application, the ReadPump of a session and
-- what the pool and DialServer give. A bufio.Reader is the bytes still to come with the size of
-- its buffer. A bufio.Writer of a handshake passes on what it is given, by the end of its Flush, in
-- pieces that are an argument and depend on the size of its buffer; an error of one of them is the
-- error of the Flush. The goroutines of AutoConnectClient are steps of one action each, in any order.
-- Logging, sockets, contexts, other goroutines, TLS and the HTTPUpgrader over net/http are not
-- modelled. The write handler of a session is a function of its own, which the loops that read do
-- not call.
pub mod Common
pub mod Errors
pub mod Cipher
pub mod Stream
pub mod Frame
pub mod Check
pub mod Codec
pub mod Utf8
pub mod Writer
pub mod Reader
pub mod Text
pub mod Http
pub mod Handshake
pub mod Sessions
pub mod Tests
