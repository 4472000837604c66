-- ===== src/Framing/RoundTrip.antt =====
-- What `WriteHandshake` writes, `ReadHandshake` reads, however the carrier cuts it into pieces.
use wgturn_core.Prelude.{
  ℕ, suc, zero, ◌+◌, ◌-◌, ◌≤◌, ◌<◌, ◌≡◌, refl, ap, ◌∙◌, ◌≢◌, ==_iff, if◌then◌else◌, ◌==◌, List, [],
  ◌∷◌, ◌++◌, Bytes, length, take, drop, Result, ok, err, arith, ◌>>=◌, append-inj, length-take,
  take-length, get_or-append, take-append-drop, length-append, take-append, inl, inr, Bool-cases,
  leb, true,
}
use mathlib.Core.List.{append_assoc}
use wgturn_core.Framing.{
  write_handshake, behind, read_full, read_handshake, preamble, eof, unexpected_eof, ReadError,
  bad_session_id, handshake_size,
}

-- All the bytes that the reader still holds.
abbrev pub stream_of : List Bytes → Bytes
stream_of [] = []
stream_of (p ∷ ps) = p ++ stream_of ps

abbrev Reads : ℕ → List Bytes → Result ReadError (Bytes × List Bytes) → Type 0
Reads n ps (ok r) = (length r.0 ≡ n) × (r.0 ++ stream_of r.1 ≡ stream_of ps)
Reads n ps (err _) = length (stream_of ps) < n

-- A piece that fits is taken whole, and the rest is read behind it.
Reads-cons :
    (p : Bytes) (ps : List Bytes) (n : ℕ) (r : Result ReadError (Bytes × List Bytes))
    → length p ≤ n
    → Reads (n - length p) ps r
    → Reads n (p ∷ ps) (r >>= behind p)
Reads-cons p ps n (ok (front, left)) h reads = (
  omega (arith, length-append p front),
  rw (append_assoc p front (stream_of left)) (ap (◌++◌ p) reads.1),
)
Reads-cons p ps n (err e) h reads = omega (arith, length-append p (stream_of ps))

-- A longer piece is cut.
Reads-cut :
    (p : Bytes) (ps : List Bytes) (n : ℕ)
    → n ≤ length p
    → Reads n (p ∷ ps) (ok (take n p, drop n p ∷ ps))
Reads-cut p ps n h = (
  length-take n p h,
  rw (← append_assoc (take n p) (drop n p) (stream_of ps)) (rw (take-append-drop n p)),
)

-- `io.ReadFull` splits the stream after exactly `n` bytes, and fails only if there are fewer.
pub read_full-Reads : (ps : List Bytes) (got n : ℕ) → Reads n ps (read_full got n ps)
unfolding read_full
read_full-Reads ps got zero = (refl, refl)
read_full-Reads [] got (suc n) = omega arith
read_full-Reads (p ∷ ps) got (suc n) = elim (Bool-cases (leb (length p) (suc n))) [
  | inl fits ↦ rw fits (
      Reads-cons p ps (suc n) _ (ground arith)
        (read_full-Reads ps (got + length p) (suc n - length p)))
  | inr longer ↦ rw longer (Reads-cut p ps (suc n) (ground arith))
]

-- The outcome of `io.ReadFull` is settled by the stream alone: with enough bytes it succeeds.
Reads-ok :
    (ps : List Bytes) (n : ℕ) (r : Result ReadError (Bytes × List Bytes)) (front rest : Bytes)
    → Reads n ps r
    → stream_of ps ≡ front ++ rest
    → length front ≡ n
    → (left : List Bytes) × (r ≡ ok (front, left)) × (stream_of left ≡ rest)
Reads-ok ps n (ok (b, left)) front rest reads e l =
    let parts = append-inj b front (stream_of left) rest (omega arith) (reads.1 ∙ e) in
    (left, cc parts.0, parts.1)
Reads-ok ps n (err _) front rest reads e l =
    absurd (omega (arith, ap length e, length-append front rest))

preamble-eq :
    (session_id : Bytes) (stream_id : ℕ)
    → length session_id ≡ 16
    → preamble session_id stream_id ≡ session_id ++ (stream_id ∷ [])
preamble-eq session_id stream_id l = rw (take-length 16 session_id l)

preamble-length :
    (session_id : Bytes) (stream_id : ℕ)
    → length session_id ≡ 16
    → length (preamble session_id stream_id) ≡ 17
preamble-length session_id stream_id l =
    rw (preamble-eq session_id stream_id l)
      (omega (arith, length-append session_id (stream_id ∷ [])))

decoded :
    (pieces left : List Bytes) (session_id : Bytes) (stream_id : ℕ)
    → length session_id ≡ 16
    → read_full 0 handshake_size pieces ≡ ok (preamble session_id stream_id, left)
    → read_handshake pieces
      ≡ ok (record { session_id = session_id; stream_id = stream_id; unread = left })
unfolding read_handshake
decoded pieces left session_id stream_id l reads =
    rw (reads, read_handshake)
      (rw (
        preamble-eq session_id stream_id l,
        take-append session_id (stream_id ∷ []) 16 l,
        get_or-append session_id stream_id 0 16 l,
      ))

-- A stream that begins with the preamble, in whatever pieces it arrives: `ReadHandshake` returns
-- the session id and the stream id, and exactly the bytes behind the preamble are left to read.
pub read_handshake-preamble :
    (pieces : List Bytes) (session_id : Bytes) (stream_id : ℕ) (payload : Bytes)
    → length session_id ≡ 16
    → stream_of pieces ≡ preamble session_id stream_id ++ payload
    → (left : List Bytes) × (read_handshake pieces
        ≡ ok (record { session_id = session_id; stream_id = stream_id; unread = left }))
      × (stream_of left ≡ payload)
read_handshake-preamble pieces session_id stream_id payload l e =
    let (left, reads, rest) =
      Reads-ok pieces handshake_size _ (preamble session_id stream_id) payload
        (read_full-Reads pieces 0 handshake_size) e (preamble-length session_id stream_id l) in
    (left, decoded pieces left session_id stream_id l reads, rest)

-- A writer that appends each write to the carrier as one piece.
abbrev pub carrier_write : List Bytes → Bytes → Result (Unit {0}) (List Bytes)
carrier_write sent b = ok (sent ++ (b ∷ []))

read_full_short :
    (ps : List Bytes) (got n : ℕ)
    → length (stream_of ps) < n
    → read_full got n ps ≡ err (if got + length (stream_of ps) == 0 then eof else unexpected_eof)
unfolding read_full
read_full_short ps got zero h = absurd (omega arith)
read_full_short [] got (suc n) h = ground arith
read_full_short (p ∷ ps) got (suc n) h =
    let total = length-append p (stream_of ps) in
    let fits : leb (length p) (suc n) ≡ true = ground (arith, total) in
    let same : got + length p + length (stream_of ps) ≡ got + length (p ++ stream_of ps) =
      omega (arith, total) in
    rw fits (
      rw (read_full_short ps (got + length p) (suc n - length p) (omega (arith, total)), same) refl)

-- A stream that ends within the preamble is refused: as `eof` where it is empty, and otherwise as
-- `unexpected_eof`.
pub read_handshake_short :
    (pieces : List Bytes)
    → length (stream_of pieces) < 17
    → read_handshake pieces ≡ err (if length (stream_of pieces) == 0 then eof else unexpected_eof)
unfolding read_handshake
read_handshake_short pieces h = rw (read_full_short pieces 0 17 h, read_handshake) (ground arith)

-- A successful `WriteHandshake` hands the writer, in one call, the 16 bytes of the session id and
-- the stream id; the writer accepted them, and its state is the result.
pub write_handshake_once {ℓ κ} :
    {W : Type ℓ} {E : Type κ} (write : W → Bytes → Result E W) (w w' : W) (session_id : Bytes)
    (stream_id : ℕ)
    → write_handshake write w session_id stream_id ≡ ok w'
    → (length session_id ≡ 16) × (write w (session_id ++ (stream_id ∷ [])) ≡ ok w')
unfolding write_handshake
write_handshake_once write w w' session_id stream_id h =
    elim (Bool-cases (length session_id == 16)) [
      | inl e ↦
          let l : length session_id ≡ 16 = (==_iff _ _).0 e in
          (l, ground (arith, preamble-eq session_id stream_id l))
      | inr e ↦ absurd (ground arith)
    ]

-- A session id of another length is refused before anything is written.
write_handshake_refuses {ℓ κ} :
    {W : Type ℓ} {E : Type κ} (write : W → Bytes → Result E W) (w : W) (session_id : Bytes)
    (stream_id : ℕ)
    → length session_id ≢ 16
    → write_handshake write w session_id stream_id ≡ err (bad_session_id (length session_id))
unfolding write_handshake
write_handshake_refuses write w session_id stream_id h = ground arith

-- The two sides together: what `WriteHandshake` puts on a carrier that keeps writes as pieces, with
-- any pieces sent behind it, `ReadHandshake` reads as the same session id and stream id.
pub read_handshake-write_handshake :
    (session_id : Bytes) (stream_id : ℕ) (sent later : List Bytes)
    → write_handshake carrier_write [] session_id stream_id ≡ ok sent
    → (left : List Bytes) × (read_handshake (sent ++ later)
        ≡ ok (record { session_id = session_id; stream_id = stream_id; unread = left }))
      × (stream_of left ≡ stream_of later)
read_handshake-write_handshake session_id stream_id sent later h =
    let (l, wrote) = write_handshake_once carrier_write [] sent session_id stream_id h in
    read_handshake-preamble (sent ++ later) session_id stream_id (stream_of later) l
      (rw (preamble-eq session_id stream_id l) (ground (arith, wrote)))
