-- ===== src/Framing/Tests.antt =====
-- Runs of the preamble's functions, and the theorems about them at concrete inputs.
use wgturn_core.Prelude.{◌≡◌, refl, List, [], ◌∷◌, Bytes, codes, ok, err, arith}
use wgturn_core.Framing.{
  write_handshake, read_handshake, eof, unexpected_eof, bad_session_id, preamble,
}
use wgturn_core.Framing.RoundTrip.{
  carrier_write, stream_of, read_handshake-preamble, read_handshake_short,
  read_handshake-write_handshake,
}

abbrev sid : Bytes
sid = codes "0123456789abcdef"

abbrev packet : Bytes
packet = 1 ∷ 2 ∷ 3 ∷ []

-- The preamble in three pieces, the last one with payload behind it.
abbrev pieces : List Bytes
pieces = codes "01234" ∷ codes "56789abcde" ∷ (b'f' ∷ 7 ∷ 1 ∷ 2 ∷ []) ∷ (3 ∷ []) ∷ []

read_pieces :
    read_handshake pieces
    ≡ ok (record { session_id = sid; stream_id = 7; unread = (1 ∷ 2 ∷ []) ∷ (3 ∷ []) ∷ [] })
unfolding read_handshake
read_pieces = refl

read_nothing : read_handshake [] ≡ err eof
unfolding read_handshake
read_nothing = refl

write_short : write_handshake carrier_write [] packet 7 ≡ err (bad_session_id 3)
unfolding write_handshake
write_short = refl

write_sid : write_handshake carrier_write [] sid 7 ≡ ok (preamble sid 7 ∷ [])
unfolding write_handshake
write_sid = refl

read_handshake-preamble_example :
    stream_of (read_handshake-preamble pieces sid 7 packet refl refl).0 ≡ packet
read_handshake-preamble_example = (read_handshake-preamble pieces sid 7 packet refl refl).2

read_short_preamble : read_handshake (sid ∷ []) ≡ err unexpected_eof
read_short_preamble = read_handshake_short (sid ∷ []) (omega arith)

read_handshake-write_handshake_runs :
    stream_of (read_handshake-write_handshake sid 7 (preamble sid 7 ∷ []) (packet ∷ []) write_sid).0
    ≡ packet
read_handshake-write_handshake_runs =
    (read_handshake-write_handshake sid 7 (preamble sid 7 ∷ []) (packet ∷ []) write_sid).2
