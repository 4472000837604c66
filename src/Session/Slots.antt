-- ===== src/Session/Slots.antt =====
-- The slots of a session (pkg/wgturnsrv/session.go) as a map from stream ids to connections.
use wgturn_core.Prelude.{
  ℕ, ◌≡◌, ◌≢◌, refl, ap, sym, true, false, List, [], ◌∷◌, ◌++◌, map, Option, none, some, ◌==◌,
  if◌then◌else◌, arith, Bool-cases, Option-cases, inl, inr,
}
use wgturn_core.Session.{
  Session, StreamEntry, past, displace, add_stream, remove_slot, remove_stream,
}

-- The connection that holds a stream id.
abbrev pub conn_at : List StreamEntry → ℕ → Option ℕ
conn_at [] j = none
conn_at (e ∷ es) j = if e.id == j then some e.conn else conn_at es j

-- No slot has the id.
abbrev pub Free : ℕ → List StreamEntry → Type 0
Free j [] = Unit {0}
Free j (e ∷ es) = (e.id ≢ j) × Free j es

-- No two slots have the same id.
abbrev pub Distinct : List StreamEntry → Type 0
Distinct [] = Unit {0}
Distinct (e ∷ es) = Free e.id es × Distinct es

Free-conn_at : (j : ℕ) (es : List StreamEntry) → Free j es → conn_at es j ≡ none
Free-conn_at j [] f = refl
Free-conn_at j (e ∷ es) f = ground (arith, Free-conn_at j es f.1)

Free-append :
    (j : ℕ) (es : List StreamEntry) (e : StreamEntry)
    → Free j es
    → e.id ≢ j
    → Free j (es ++ (e ∷ []))
Free-append j [] e f ne = (ne, tt)
Free-append j (x ∷ es) e f ne = (f.0, Free-append j es e f.1 ne)

Distinct-append :
    (es : List StreamEntry) (e : StreamEntry)
    → Distinct es
    → Free e.id es
    → Distinct (es ++ (e ∷ []))
Distinct-append [] e d f = (tt, tt)
Distinct-append (x ∷ es) e d f =
    (Free-append x.id es e d.0 (λ k. f.0 (sym k)), Distinct-append es e d.1 f.1)

-- What `displace` does: it fails on a free id, and otherwise puts the connection into the id's
-- slot, leaves the ids and their order, and returns the old connection.
abbrev Displaces : ℕ → ℕ → List StreamEntry → Option (List StreamEntry × ℕ) → Type 0
Displaces j c es none = Free j es
Displaces j c es (some (es', old)) =
    (conn_at es j ≡ some old)
    × (map (λ e. e.id) es' ≡ map (λ e. e.id) es)
    × ((k : ℕ) → conn_at es' k ≡ (if j == k then some c else conn_at es k))

past-Displaces :
    (j c : ℕ) (e : StreamEntry) (es : List StreamEntry) (r : Option (List StreamEntry × ℕ))
    → (e.id == j) ≡ false
    → Displaces j c es r
    → Displaces j c (e ∷ es) (past e r)
past-Displaces j c e es none h d = (ground arith, d)
past-Displaces j c e es (some (es', old)) h d =
    (ground arith, ap (◌∷◌ e.id) d.1, λ k. ground (arith, d.2 k))

displace-Displaces : (j c : ℕ) (es : List StreamEntry) → Displaces j c es (displace j c es)
unfolding displace
displace-Displaces j c [] = tt
displace-Displaces j c (e ∷ es) = elim (Bool-cases (e.id == j)) [
  | inl h ↦ rw (h, displace) (ground arith, refl, λ k. ground arith)
  | inr h ↦ rw (h, displace) (past-Displaces j c e es _ h (displace-Displaces j c es))
]

-- Slots with the same ids are distinct if the others are.
Free-ids :
    (j : ℕ) (es fs : List StreamEntry)
    → map (λ e. e.id) es ≡ map (λ e. e.id) fs
    → Free j es
    → Free j fs
Free-ids j [] [] p f = tt
Free-ids j [] (y ∷ fs) p f = cc
Free-ids j (x ∷ es) [] p f = cc
Free-ids j (x ∷ es) (y ∷ fs) p f = (ground arith, Free-ids j es fs (ground arith) f.1)

Distinct-ids :
    (es fs : List StreamEntry) → map (λ e. e.id) es ≡ map (λ e. e.id) fs → Distinct es → Distinct fs
Distinct-ids [] [] p d = tt
Distinct-ids [] (y ∷ fs) p d = cc
Distinct-ids (x ∷ es) [] p d = cc
Distinct-ids (x ∷ es) (y ∷ fs) p d =
    let same : x.id ≡ y.id = ground arith in
    (rw (← same) (Free-ids x.id es fs (ground arith) d.0), Distinct-ids es fs (ground arith) d.1)

conn_at-append :
    (es : List StreamEntry) (e : StreamEntry) (k : ℕ)
    → Free e.id es
    → conn_at (es ++ (e ∷ [])) k ≡ (if e.id == k then some e.conn else conn_at es k)
conn_at-append [] e k f = refl
conn_at-append (x ∷ es) e k f = ground (arith, conn_at-append es e k f.1)

-- `addStream` on a live session accepts the connection. Afterwards the stream id leads to it and
-- every other id to what it led to before; the displaced connection is the one that held the id;
-- and ids stay distinct.
pub add_stream-conn_at :
    (s : Session) (stream_id conn : ℕ)
    → s.terminated ≡ false
    → Distinct s.streams
    → let (s', displaced, accepted) = add_stream s stream_id conn in
      (accepted ≡ true)
      × (displaced ≡ conn_at s.streams stream_id)
      × Distinct s'.streams
      × ((k : ℕ)
          → conn_at s'.streams k ≡ (if stream_id == k then some conn else conn_at s.streams k))
unfolding add_stream
add_stream-conn_at s stream_id conn live d =
    elim (Option-cases (displace stream_id conn s.streams)) [
      | inl e ↦
          let free : Free stream_id s.streams =
            rw e at (displace-Displaces stream_id conn s.streams) in
          rw (live, e, add_stream)
            (
              refl,
              sym (Free-conn_at stream_id s.streams free),
              Distinct-append s.streams _ d free,
              λ k. conn_at-append s.streams _ k free,
            )
      | inr (r, e) ↦
          let did : Displaces stream_id conn s.streams (some r) =
            rw e at (displace-Displaces stream_id conn s.streams) in
          rw (live, e, add_stream)
            (refl, sym did.0, Distinct-ids s.streams r.0 (sym did.1) d, did.2)
    ]

-- A terminated session takes no stream and does not change.
pub add_stream_terminated :
    (s : Session) (stream_id conn : ℕ)
    → s.terminated ≡ true
    → add_stream s stream_id conn ≡ (s, none, false)
unfolding add_stream
add_stream_terminated s stream_id conn h = rw (h, add_stream) refl

remove_slot-Free : (j c k : ℕ) (es : List StreamEntry) → Free k es → Free k (remove_slot j c es)
unfolding remove_slot
remove_slot-Free j c k [] f = tt
remove_slot-Free j c k (e ∷ es) f = ground (arith, remove_slot-Free j c k es f.1)

remove_slot-Distinct :
    (j c : ℕ) (es : List StreamEntry) → Distinct es → Distinct (remove_slot j c es)
unfolding remove_slot
remove_slot-Distinct j c [] d = tt
remove_slot-Distinct j c (e ∷ es) d =
    ground (arith, remove_slot-Distinct j c es d.1, remove_slot-Free j c e.id es d.0)

remove_slot-conn_at :
    (j c : ℕ) (es : List StreamEntry) (k : ℕ)
    → Distinct es
    → conn_at es j ≡ some c
    → conn_at (remove_slot j c es) k ≡ (if j == k then none else conn_at es k)
unfolding remove_slot
remove_slot-conn_at j c [] k d h = cc
remove_slot-conn_at j c (e ∷ es) k d h =
    ground (arith, Free-conn_at e.id es d.0, remove_slot-conn_at j c es k d.1)

remove_slot_other :
    (j c : ℕ) (es : List StreamEntry)
    → Distinct es
    → conn_at es j ≢ some c
    → remove_slot j c es ≡ es
unfolding remove_slot
remove_slot_other j c [] d h = refl
remove_slot_other j c (e ∷ es) d h =
    let later : conn_at es j ≢ some c = λ k. h (ground (arith, k, Free-conn_at e.id es d.0)) in
    ground (arith, h, remove_slot_other j c es d.1 later)

-- `removeStream` with the connection that holds the stream id frees that id and no other.
pub remove_stream_own :
    (s : Session) (stream_id conn : ℕ)
    → Distinct s.streams
    → conn_at s.streams stream_id ≡ some conn
    → let s' = (remove_stream s stream_id conn).0 in
      Distinct s'.streams
      × ((k : ℕ) → conn_at s'.streams k ≡ (if stream_id == k then none else conn_at s.streams k))
unfolding remove_stream
remove_stream_own s stream_id conn d h = (
  remove_slot-Distinct stream_id conn s.streams d,
  λ k. remove_slot-conn_at stream_id conn s.streams k d h,
)

-- With any other connection it changes nothing.
pub remove_stream_other :
    (s : Session) (stream_id conn : ℕ)
    → Distinct s.streams
    → conn_at s.streams stream_id ≢ some conn
    → (remove_stream s stream_id conn).0 ≡ s
unfolding remove_stream
remove_stream_other s stream_id conn d h = rw (remove_slot_other stream_id conn s.streams d h) refl

-- A connection that was displaced from its stream id does not evict the one that displaced it: its
-- own `removeStream` finds nothing to remove.
pub remove_stream-add_stream :
    (s : Session) (stream_id loser winner : ℕ)
    → s.terminated ≡ false
    → Distinct s.streams
    → loser ≢ winner
    → let s' = (add_stream s stream_id winner).0 in (remove_stream s' stream_id loser).0 ≡ s'
remove_stream-add_stream s stream_id loser winner live d ne =
    let (_, _, d', at) = add_stream-conn_at s stream_id winner live d in
    remove_stream_other _ stream_id loser d' (λ k. ne (ground (arith, at stream_id)))

-- `removeStream` reports a session that was empty before the call as drained, although nothing was
-- removed from it.
pub remove_stream_empty :
    (s : Session) (stream_id conn : ℕ) → s.streams ≡ [] → remove_stream s stream_id conn ≡ (s, true)
unfolding remove_stream remove_slot
remove_stream_empty s stream_id conn h = ground arith
