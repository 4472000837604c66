-- ===== src/Server/Interleavings.antt =====
-- pkg/wgturnsrv/server.go: the steps of the goroutines keep the map and the sessions together.
use wgturn_core.Prelude.{
  ℕ, Bool, true, false, [], ◌∷◌, ◌++◌, none, some, Bytes, equal, equal_iff, equal_refl, ◌≡◌, ◌≢◌,
  refl, sym, ◌∙◌, ap, Bool-cases, Option-cases, inl, inr, arith, ok, length, get_elem?, set,
  get_elem?-lt, get_elem?-push, get_elem?-set_cases, get_elem?-set_ne, get_elem?-append,
  get_elem?-append_length,
}
use wgturn_core.Session.{new_session}
use wgturn_core.Server.Map.{equal_ne, find-delete, find-delete_ne}
use wgturn_core.Server.{
  Server, Opened, ServerConfig, new_server, make_server, validate_server, with_server_defaults,
  server_new, find_session, delete_session, get_or_create_session, attach, detach, end_session,
  remove_session, Step, open_step, attach_step, detach_step, end_step, remove_step, start_step,
  stop_step, Steps, no_step, one_more,
}
use wgturn_core.Server.Listing.{
  IsListed, none-some, no_element, some-inj, equal-ne, current_ending, gone, same_element,
  update_session-IsListed, attach-Keeps, detach-Keeps, end_session-Keeps,
}

abbrev inserted : Server → Bytes → Server
inserted s sid = record s {
  sessions = (sid, length s.heap) ∷ s.sessions;
  heap = s.heap ++ (record { sid = sid; session = new_session; ending = false } ∷ []);
}

inserted-IsListed :
    (s : Server) (sid : Bytes)
    → IsListed s
    → find_session sid s.sessions ≡ none
    → IsListed (inserted s sid)
unfolding find_session
inserted-IsListed s sid v absent = record {
  sound = λ k p h. elim (Bool-cases (equal k sid)) [
    | inl e ↦
        let at : length s.heap ≡ p = ground (arith, rw (e, find_session) at h) in
        (
          record { sid = sid; session = new_session; ending = false },
          rw (sym at) (get_elem?-append_length s.heap [] _),
          sym ((equal_iff k sid).0 e),
          refl,
        )
    | inr e ↦
        let (o, at, own, cur) = v.sound k p (rw (e, find_session) at h) in
        (o, get_elem?-append s.heap _ p (get_elem?-lt s.heap p at) ∙ at, own, cur)
  ];
  complete = λ p o at cur. elim (get_elem?-push s.heap _ p at) [
    | inl old ↦
        let found = v.complete p o old cur in
        let apart : equal o.sid sid ≡ false =
          equal_ne o.sid sid (λ f. none-some {p = p} (sym absent ∙ rw (sym f) found)) in
        rw (apart) found
    | inr (e, f) ↦ rw (e, f, equal_refl sid) refl
  ];
  ended = λ p o at ending. elim (get_elem?-push s.heap _ p at) [
    | inl old ↦ v.ended p o old ending
    | inr (e, f) ↦ absurd (ground (arith, rw (f) at ending))
  ];
}

removed-IsListed :
    (s : Server) (p : ℕ) (o : Opened)
    → IsListed s
    → get_elem? s.heap p ≡ some o
    → o.ending ≡ true
    → IsListed (record s {
      sessions = delete_session o.sid s.sessions;
      heap = set s.heap p (record o { ending = false });
    })
removed-IsListed s p o v e ending = record {
  sound = λ k q h. elim (Bool-cases (equal o.sid k)) [
    | inl same ↦
        let own_id = (equal_iff o.sid k).0 same in
        absurd (
          none-some {p = q} (
            sym (find-delete o.sid s.sessions)
            ∙ ap (λ y. find_session y (delete_session o.sid s.sessions)) own_id
            ∙ h))
    | inr other ↦
        let apart : o.sid ≢ k = λ f. equal-ne other f in
        let (x, at, own, cur) = v.sound k q (sym (find-delete_ne o.sid k s.sessions apart) ∙ h) in
        let pq : p ≢ q =
          λ f. apart (ap (λ y. y.sid) (sym (same_element s.heap (sym f) e at)) ∙ own) in
        (x, get_elem?-set_ne s.heap _ pq ∙ at, own, cur)
  ];
  complete = λ q x at cur. elim (get_elem?-set_cases s.heap p q _ at) [
    | inl (qp, f) ↦ absurd (gone x o (v.ended p o e ending) f cur)
    | inr (ne, old) ↦
        let found = v.complete q x old cur in
        let own = v.complete p o e (current_ending o ending) in
        let apart : o.sid ≢ x.sid = λ f. ne (some-inj (sym own ∙ rw (f) found)) in
        find-delete_ne o.sid x.sid s.sessions apart ∙ found
  ];
  ended = λ q x at b. elim (get_elem?-set_cases s.heap p q _ at) [
    | inl (qp, f) ↦ absurd (ground (arith, rw (f) at b))
    | inr (ne, old) ↦ v.ended q x old b
  ];
}

get_or_create-IsListed :
    (s : Server) (sid : Bytes) (opens : Bool) {s' : Server} {p : ℕ} {fresh : Bool}
    → IsListed s
    → get_or_create_session s sid opens ≡ some (s', p, fresh)
    → IsListed s'
unfolding get_or_create_session
get_or_create-IsListed s sid opens {s' = s'} v h =
    elim (Option-cases (find_session sid s.sessions)) [
      | inr (q, e) ↦
          let same : s ≡ s' = ground (arith, rw (e, get_or_create_session) at h) in rw (sym same) v
      | inl e ↦ elim (Bool-cases opens) [
        | inr b ↦ absurd (ground (arith, rw (e, b, get_or_create_session) at h))
        | inl b ↦
            let same : inserted s sid ≡ s' =
              ground (arith, rw (e, b, get_or_create_session) at h) in
            rw (sym same) (inserted-IsListed s sid v e)
      ]
    ]

pub remove_session-IsListed : (s : Server) (p : ℕ) → IsListed s → IsListed (remove_session s p)
unfolding remove_session
remove_session-IsListed s p v = elim (Option-cases (get_elem? s.heap p)) [
  | inl e ↦ rw (e, remove_session) v
  | inr (o, e) ↦ elim (Bool-cases o.ending) [
    | inr b ↦ rw (e, b, remove_session) v
    | inl b ↦ rw (e, b, remove_session) (removed-IsListed s p o v e b)
  ]
]

Step-IsListed : (s t : Server) → Step s t → IsListed s → IsListed t
Step-IsListed s t (open_step sid opens s' p fresh h) v = get_or_create-IsListed s sid opens v h
Step-IsListed s _ (attach_step p i c) v =
    update_session-IsListed s p (attach i c) (attach-Keeps i c) v
Step-IsListed s _ (detach_step p i c) v =
    update_session-IsListed s p (detach i c) (detach-Keeps i c) v
Step-IsListed s _ (end_step p) v = update_session-IsListed s p end_session end_session-Keeps v
Step-IsListed s _ (remove_step p) v = remove_session-IsListed s p v
Step-IsListed s _ (start_step listens phase h) v = record {
  sound = v.sound;
  complete = v.complete;
  ended = v.ended;
}
Step-IsListed s _ stop_step v = record { sound = v.sound; complete = v.complete; ended = v.ended }

Steps-IsListed : (s t : Server) → Steps s t → IsListed s → IsListed t
Steps-IsListed s _ no_step v = v
Steps-IsListed s t (one_more u _ before last) v =
    Step-IsListed u t last (Steps-IsListed s u before v)

made :
    (c : ServerConfig) (certificate : Bool) {s : Server}
    → make_server c certificate ≡ ok s
    → IsListed s
unfolding find_session
made c false h = cc
made c true {s = s} h =
    let same : record { config = c; phase = server_new; sessions = []; heap = [] } ≡ s =
      ground (arith, h) in
    rw (sym same) (record {
      sound = λ sid p e. absurd (none-some {p = p} e);
      complete = λ p o e cur. absurd (no_element e);
      ended = λ p o e b. absurd (no_element e);
    })

new_server-IsListed :
    (c : ServerConfig) (certificate : Bool) {s : Server}
    → new_server c certificate ≡ ok s
    → IsListed s
unfolding new_server
new_server-IsListed c certificate {s = s} h = elim (Option-cases (validate_server c)) [
  | inr (p, e) ↦ absurd (ground (arith, rw (e, new_server) at h))
  | inl e ↦ made (with_server_defaults c) certificate (rw (e, new_server) at h)
]

-- Whatever the goroutines of a new server do and in whichever order, its map holds exactly the
-- sessions that live or whose `onTerminate` is still to run, each under its own id.
pub reached-IsListed :
    (c : ServerConfig) (certificate : Bool) {s : Server} (t : Server)
    → new_server c certificate ≡ ok s
    → Steps s t
    → IsListed t
reached-IsListed c certificate {s = s} t h steps =
    Steps-IsListed s t steps (new_server-IsListed c certificate h)

-- In a server that was reached by any steps, two sessions that live at the same time have
-- different ids.
pub live_sessions_apart :
    (c : ServerConfig) (certificate : Bool) {s : Server} (t : Server) (p q : ℕ) (o x : Opened)
    → new_server c certificate ≡ ok s
    → Steps s t
    → get_elem? t.heap p ≡ some o
    → get_elem? t.heap q ≡ some x
    → o.session.terminated ≡ false
    → x.session.terminated ≡ false
    → o.sid ≡ x.sid
    → p ≡ q
live_sessions_apart c certificate t p q o x h steps e f a b same =
    let w = reached-IsListed c certificate t h steps in
    let first = w.complete p o e (rw (a) refl) in
    let second = w.complete q x f (rw (b) refl) in ground (arith, first, second, same)

-- In a server that was reached by any steps, a connection with the id of a session that lives gets
-- this session, and nothing is opened for it.
pub get_or_create_session_live :
    (c : ServerConfig) (certificate : Bool) {s : Server} (t : Server) (p : ℕ) (o : Opened)
    (opens : Bool)
    → new_server c certificate ≡ ok s
    → Steps s t
    → get_elem? t.heap p ≡ some o
    → o.session.terminated ≡ false
    → get_or_create_session t o.sid opens ≡ some (t, p, false)
unfolding get_or_create_session
get_or_create_session_live c certificate t p o opens h steps e a =
    let found = (reached-IsListed c certificate t h steps).complete p o e (rw (a) refl) in
    rw (found, get_or_create_session) refl
