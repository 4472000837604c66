-- ===== src/Server/Shutdown.antt =====
-- pkg/wgturnsrv/server.go: `Stop`, where other goroutines only run a pending `onTerminate`.
use wgturn_core.Prelude.{
  ℕ, Bool, true, false, List, [], ◌∷◌, none, some, Bytes, equal, equal_iff, ◌≡◌, ◌≢◌, refl, sym,
  ◌∙◌, ap, Bool-cases, Option-cases, inl, inr, arith, ok, get_elem?, set, get_elem?-lt,
  get_elem?-set_self,
}
use wgturn_core.Session.{terminate}
use wgturn_core.Server.Map.{find-delete, find-delete_ne}
use wgturn_core.Server.{
  Server, ServerConfig, Opened, find_session, delete_session, update_session, end_session,
  remove_session, finish_session, finish_all, stop_server, server_started, server_stopped,
  new_server, Steps,
}
use wgturn_core.Server.Listing.{
  is_current, IsListed, none-some, same_element, equal-ne, no_element, update_session-IsListed,
  end_session-Keeps,
}
use wgturn_core.Server.Interleavings.{remove_session-IsListed, reached-IsListed}

ended_flag : (x : Opened) → (end_session x).session.terminated ≡ true
unfolding terminate
ended_flag x = elim (Bool-cases x.session.terminated) [ inl e ↦ rw (e) refl | inr e ↦ rw (e) refl ]

not_current : (o : Opened) → o.session.terminated ≡ true → o.ending ≡ false → is_current o ≢ true
not_current o e f cur = ground (arith, e, f, cur)

terminated_after :
    (s : Server) (p : ℕ) {o : Opened}
    → get_elem? (update_session s p end_session).heap p ≡ some o
    → o.session.terminated ≡ true
unfolding terminate
terminated_after s p {o = o} h = elim (Option-cases (get_elem? s.heap p)) [
  | inl e ↦ absurd (no_element (sym e ∙ rw (e, update_session) at h))
  | inr (x, e) ↦
      let same : o ≡ end_session x =
        same_element (set s.heap p (end_session x)) refl
          (get_elem?-set_self s.heap p (end_session x) (get_elem?-lt s.heap p e))
          (rw (e, update_session) at h) in
      rw (same) (ended_flag x)
]

remove-find :
    (s : Server) (p : ℕ) (sid : Bytes) {q : ℕ}
    → IsListed s
    → ((o : Opened) → get_elem? s.heap p ≡ some o → o.session.terminated ≡ true)
    → find_session sid (remove_session s p).sessions ≡ some q
    → (find_session sid s.sessions ≡ some q) × (q ≢ p)
unfolding remove_session
remove-find s p sid {q = q} v t h = elim (Option-cases (get_elem? s.heap p)) [
  | inl e ↦
      let h0 = (rw (e, remove_session) at h) in
      let (x, at, own, cur) = v.sound sid q h0 in
      (h0, λ f. no_element (sym e ∙ ap (get_elem? s.heap) (sym f) ∙ at))
  | inr (o, e) ↦ elim (Bool-cases o.ending) [
    | inr b ↦
        let h0 = (rw (e, b, remove_session) at h) in
        let (x, at, own, cur) = v.sound sid q h0 in
        (h0, λ f. not_current o (t o e) b (rw (same_element s.heap f e at) at cur))
    | inl b ↦
        let h0 = (rw (e, b, remove_session) at h) in
        elim (Bool-cases (equal o.sid sid)) [
          | inl same ↦
              let eq = (equal_iff o.sid sid).0 same in
              absurd (
                none-some {p = q} (
                  sym (find-delete o.sid s.sessions)
                  ∙ ap (λ y. find_session y (delete_session o.sid s.sessions)) eq
                  ∙ h0))
          | inr other ↦
              let h1 = sym (find-delete_ne o.sid sid s.sessions (equal-ne other)) ∙ h0 in
              let (x, at, own, cur) = v.sound sid q h1 in
              (h1, λ f. equal-ne other (ap (λ y. y.sid) (sym (same_element s.heap f e at)) ∙ own))
        ]
  ]
]

abbrev Covers : List (Bytes × ℕ) → Server → Type 0
Covers m s =
    (sid : Bytes) (q : ℕ) → find_session sid s.sessions ≡ some q → find_session sid m ≡ some q

update_session-sessions :
    (s : Server) (p : ℕ) (f : Opened → Opened) → (update_session s p f).sessions ≡ s.sessions
update_session-sessions s p f = elim (Option-cases (get_elem? s.heap p)) [
  | inl e ↦ rw (e, update_session) refl
  | inr (o, e) ↦ rw (e, update_session) refl
]

finish_session-IsListed : (s : Server) (p : ℕ) → IsListed s → IsListed (finish_session s p)
finish_session-IsListed s p v =
    remove_session-IsListed (update_session s p end_session) p
      (update_session-IsListed s p end_session end_session-Keeps v)

finish-find :
    (s : Server) (p : ℕ) (sid : Bytes) {q : ℕ}
    → IsListed s
    → find_session sid (finish_session s p).sessions ≡ some q
    → (find_session sid s.sessions ≡ some q) × (q ≢ p)
finish-find s p sid v h =
    let (found, ne) =
      remove-find (update_session s p end_session) p sid
        (update_session-IsListed s p end_session end_session-Keeps v) (λ o. terminated_after s p)
        h in
    (ap (find_session sid) (sym (update_session-sessions s p end_session)) ∙ found, ne)

-- Once the sessions of a list that covers the map are finished, the map is empty.
finish_all-empty :
    (m : List (Bytes × ℕ)) (s : Server)
    → IsListed s
    → Covers m s
    → IsListed (finish_all s m)
      × ((sid : Bytes) → find_session sid (finish_all s m).sessions ≡ none)
unfolding find_session
finish_all-empty [] s v c = (
  v,
  λ sid. elim (Option-cases (find_session sid s.sessions)) [
    | inl e ↦ e
    | inr (q, e) ↦ absurd (none-some {p = q} (c sid q e))
  ],
)
finish_all-empty ((k, p) ∷ m) s v c =
    finish_all-empty m (finish_session s p) (finish_session-IsListed s p v) (λ sid q h.
      let (found, ne) = finish-find s p sid v h in
      let here = c sid q found in
      elim (Bool-cases (equal sid k)) [
        | inl e ↦ absurd (ne (ground (arith, rw (e, find_session) at here)))
        | inr e ↦ rw (e, find_session) at here
      ])

-- `Stop` of a started server that was reached by any steps, where no other goroutine comes in
-- between except to run a pending `onTerminate`, leaves no session in the map, and every session
-- that was ever opened is terminated.
pub stop_server_all :
    (c : ServerConfig) (certificate : Bool) {s : Server} (t : Server)
    → new_server c certificate ≡ ok s
    → Steps s t
    → t.phase ≡ server_started
    → ((sid : Bytes) → find_session sid (stop_server t).sessions ≡ none)
      × ((p : ℕ) (o : Opened)
          → get_elem? (stop_server t).heap p ≡ some o
          → o.session.terminated ≡ true)
unfolding stop_server
stop_server_all c certificate t h steps started =
    let v = reached-IsListed c certificate t h steps in
    let stopping : Server = record t { phase = server_stopped } in
    let w : IsListed stopping = record {
      sound = v.sound;
      complete = v.complete;
      ended = v.ended;
    } in
    let (last, empty) = finish_all-empty t.sessions stopping w (λ sid q e. e) in
    rw (started, stop_server)
      (
        empty,
        λ p o at. elim (Bool-cases o.session.terminated) [
          | inl e ↦ e
          | inr e ↦
              absurd (none-some {p = p} (sym (empty o.sid) ∙ last.complete p o at (rw (e) refl)))
        ],
      )
