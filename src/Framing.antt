-- ===== src/Framing.antt =====
-- internal/framing/framing.go: the 17-byte preamble of a proxy_v2 stream.
mod Tests
pub mod RoundTrip
use wgturn_core.Prelude.{
  ℕ, suc, zero, ◌+◌, ◌-◌, List, [], ◌∷◌, ◌++◌, Bytes, length, take, drop, get_or, Result, ok, err,
  ◌>>=◌, leb, ◌==◌, if◌then◌else◌,
}

abbrev pub session_id_size : ℕ
session_id_size = 16

abbrev pub handshake_size : ℕ
handshake_size = session_id_size + 1

-- The errors of this package; `write_failed` carries the writer's own error.
pub data FramingError {ℓ} (E : Type ℓ) : Type ℓ where
  bad_session_id : ℕ → FramingError E
  write_failed : E → FramingError E

-- The preamble as it stands in `buf`: the session id, then the stream id.
abbrev pub preamble : Bytes → ℕ → Bytes
preamble session_id stream_id = take session_id_size session_id ++ (stream_id ∷ [])

-- `WriteHandshake`: one call of the writer, which takes its state to the next one or fails.
unfoldable pub write_handshake {ℓ κ} :
    {W : Type ℓ} {E : Type κ} → (W → Bytes → Result E W) → W → Bytes → ℕ → Result (FramingError E) W
write_handshake write w session_id stream_id =
    if length session_id == session_id_size
    then elim (write w (preamble session_id stream_id)) [
      | ok w' ↦ ok w'
      | err e ↦ err (write_failed e)
    ]
    else err (bad_session_id (length session_id))

-- What `io.ReadFull` reports when the reader ends too early.
pub data ReadError : Type 0 where
  eof unexpected_eof : ReadError

-- What was read so far stands in front of what is read next.
abbrev pub behind : Bytes → Bytes × List Bytes → Result ReadError (Bytes × List Bytes)
behind piece (front, left) = ok (piece ++ front, left)

-- `io.ReadFull` on a reader that hands out the pieces in order and then ends. `got` bytes are in
-- the buffer, and `need` are missing. The bytes read, and the pieces that are left.
unfoldable pub read_full : ℕ → ℕ → List Bytes → Result ReadError (Bytes × List Bytes)
read_full got zero pieces = ok ([], pieces)
read_full got (suc need) [] = err (if got == 0 then eof else unexpected_eof)
read_full got (suc need) (piece ∷ pieces) =
    let rest = read_full (got + length piece) (suc need - length piece) pieces in
    if leb (length piece) (suc need)
    then (rest >>= behind piece)
    else ok (take (suc need) piece, drop (suc need) piece ∷ pieces)

-- `ReadHandshake`: the session id, the stream id, and what is left to read.
pub record Handshake : Type 0 where
  pub session_id : Bytes
  pub stream_id : ℕ
  pub unread : List Bytes

unfoldable pub read_handshake : List Bytes → Result ReadError Handshake
unfolding read_full
read_handshake pieces = do
  r ← read_full 0 handshake_size pieces
  ok (record {
    session_id = take session_id_size r.0;
    stream_id = get_or r.0 session_id_size 0;
    unread = r.1;
  })
