-- ===== src/Server/Connections.antt =====
-- pkg/wgturnsrv/server.go: `handleConn` of one connection where no other goroutine comes in between:
-- what it does before the stream is read, and what it does once the stream ends.
use wgturn_core.Prelude.{
  ℕ, ◌<◌, Bool, true, false, List, [], ◌∷◌, ◌++◌, Option, none, some, Bytes, equal, equal_refl, ◌≡◌,
  ◌≢◌, refl, ◌∙◌, ap, if◌then◌else◌, Bool-cases, inl, inr, arith, length, get_elem?, set,
  length-append, get_elem?-lt, get_elem?-set_self, get_elem?-append_length, ==_iff,
}
use wgturn_core.Session.{Session, new_session, add_stream, remove_stream, displace, remove_slot}
use wgturn_core.Server.{
  Server, Opened, find_session, delete_session, get_or_create_session, update_session, end_session,
  remove_session, finish_session,
}

-- What `handleConn` knows once its stream is added: whether the session is fresh, the connection to
-- close, and whether the session took the stream.
pub record Admitted : Type 0 where
  pub server : Server
  pub pointer : ℕ
  pub fresh : Bool
  pub displaced : Option ℕ
  pub accepted : Bool

unfoldable pub join : Server → ℕ → Bool → ℕ → ℕ → Option Admitted
join s p fresh stream_id conn = elim (get_elem? s.heap p) [
  | none ↦ none
  | some o ↦
      let (session, displaced, accepted) = add_stream o.session stream_id conn in
      some (record {
        server = record s { heap = set s.heap p (record o { session = session }) };
        pointer = p;
        fresh = fresh;
        displaced = displaced;
        accepted = accepted;
      })
]

unfoldable pub admit : Server → Bytes → ℕ → ℕ → Bool → Option Admitted
unfolding get_or_create_session join
admit s sid stream_id conn opens = elim (get_or_create_session s sid opens) [
  | none ↦ none
  | some (t, p, fresh) ↦ join t p fresh stream_id conn
]

-- The deferred call: the stream is taken off, and a drained session is terminated.
unfoldable pub leave : Server → ℕ → ℕ → ℕ → Server
leave s p stream_id conn = elim (get_elem? s.heap p) [
  | none ↦ s
  | some o ↦
      let (session, drained) = remove_stream o.session stream_id conn in
      let t : Server = record s { heap = set s.heap p (record o { session = session }) } in
      if drained then finish_session t p else t
]

no_pointer : {p : ℕ} → some p ≢ none
no_pointer e = cc

delete_absent :
    (sid : Bytes) (m : List (Bytes × ℕ)) → find_session sid m ≡ none → delete_session sid m ≡ m
unfolding find_session delete_session
delete_absent sid [] h = refl
delete_absent sid ((k, p) ∷ m) h = elim (Bool-cases (equal sid k)) [
  | inl e ↦ absurd (no_pointer (rw (e, find_session) at h))
  | inr e ↦ rw (e) (ap (λ y. (k, p) ∷ y) (delete_absent sid m (rw (e, find_session) at h)))
]

-- A session with one stream, that is taken off.
one_stream :
    (stream_id conn : ℕ)
    → remove_stream ((add_stream new_session stream_id conn).0) stream_id conn ≡ (new_session, true)
unfolding add_stream displace remove_stream remove_slot
one_stream stream_id conn = rw ((==_iff stream_id stream_id).1 refl, (==_iff conn conn).1 refl) refl

remove_session-sessions :
    (s : Server) (p : ℕ) (o : Opened)
    → get_elem? s.heap p ≡ some o
    → o.ending ≡ true
    → (remove_session s p).sessions ≡ delete_session o.sid s.sessions
unfolding remove_session
remove_session-sessions s p o e ending = rw (e, ending, remove_session) refl

-- A session at `p` that is terminated alone takes its own id off the map.
finish_session-sessions :
    (s : Server) (p : ℕ) (o : Opened)
    → get_elem? s.heap p ≡ some o
    → o.session.terminated ≡ false
    → (finish_session s p).sessions ≡ delete_session o.sid s.sessions
finish_session-sessions s p o e live =
    rw (e, update_session)
      (remove_session-sessions (record s { heap = set s.heap p (end_session o) }) p (end_session o)
        (get_elem?-set_self s.heap p (end_session o) (get_elem?-lt s.heap p e)) (rw (live) refl))

leave-sessions :
    (s : Server) (p stream_id conn : ℕ) (o : Opened) (session : Session)
    → get_elem? s.heap p ≡ some o
    → remove_stream o.session stream_id conn ≡ (session, true)
    → session.terminated ≡ false
    → (leave s p stream_id conn).sessions ≡ delete_session o.sid s.sessions
unfolding leave
leave-sessions s p stream_id conn o session e r live =
    let last : Opened = record o { session = session } in
    rw (e, leave, r)
      (finish_session-sessions (record s { heap = set s.heap p last }) p last
        (get_elem?-set_self s.heap p last (get_elem?-lt s.heap p e)) live)

abbrev newcomer : Bytes → Opened
newcomer sid = record { sid = sid; session = new_session; ending = false }

abbrev joined : Bytes → ℕ → ℕ → Opened
joined sid stream_id conn = record (newcomer sid) {
  session = (add_stream new_session stream_id conn).0;
}

abbrev after_join : Server → Bytes → ℕ → ℕ → Server
after_join s sid stream_id conn = record s {
  sessions = (sid, length s.heap) ∷ s.sessions;
  heap = set (s.heap ++ (newcomer sid ∷ [])) (length s.heap) (joined sid stream_id conn);
}

admit-after_join :
    (s : Server) (sid : Bytes) (stream_id conn : ℕ) (a : Admitted)
    → find_session sid s.sessions ≡ none
    → admit s sid stream_id conn true ≡ some a
    → (a.server ≡ after_join s sid stream_id conn) × (a.pointer ≡ length s.heap)
unfolding admit
admit-after_join s sid stream_id conn a absent h =
    let k =
      rw
        (
          absent,
          admit,
          get_or_create_session,
          join,
          get_elem?-append_length s.heap [] (newcomer sid),
        )
        at h in
    (ground (arith, k), ground (arith, k))

-- If no session has the id, then a connection that is admitted and leaves, where no other goroutine
-- comes in between, leaves the map as it was.
pub leave-admit :
    (s : Server) (sid : Bytes) (stream_id conn : ℕ) (a : Admitted)
    → find_session sid s.sessions ≡ none
    → admit s sid stream_id conn true ≡ some a
    → (leave a.server a.pointer stream_id conn).sessions ≡ s.sessions
unfolding delete_session
leave-admit s sid stream_id conn a absent h =
    let (server, pointer) = admit-after_join s sid stream_id conn a absent h in
    let last : length s.heap < length (s.heap ++ (newcomer sid ∷ [])) =
      omega (arith, length-append s.heap (newcomer sid ∷ [])) in
    let drained =
      leave-sessions (after_join s sid stream_id conn) (length s.heap) stream_id conn
        (joined sid stream_id conn) new_session
        (get_elem?-set_self (s.heap ++ (newcomer sid ∷ [])) (length s.heap)
          (joined sid stream_id conn) last)
        (one_stream stream_id conn) refl in
    rw (server, pointer)
      (drained ∙ rw (delete_session, equal_refl sid) (delete_absent sid s.sessions absent))
