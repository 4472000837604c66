-- ===== src/Server/Listing.antt =====
-- pkg/wgturnsrv/server.go: which sessions the map holds, under any interleaving of goroutines.
use wgturn_core.Prelude.{
  ℕ, Bool, true, false, not, ◌||◌, List, none, some, Bytes, equal, equal_iff, ◌≡◌, ◌≢◌, refl, sym,
  ◌∙◌, Bool-cases, Option-cases, inl, inr, arith, get_elem?, ◌==◌, get_elem?-lt,
  get_elem?-set_cases, get_elem?-set_self, get_elem?-set_ne,
}
use wgturn_core.Session.{Session, add_stream, remove_stream, terminate, displace}
use wgturn_core.Server.{Server, Opened, find_session, update_session, attach, detach, end_session}

-- A session that lives, or whose `onTerminate` is still to run.
abbrev pub is_current : Opened → Bool
is_current o = not o.session.terminated || o.ending

-- The map holds the current sessions, each under its own id, and nothing else.
pub record IsListed (s : Server) : Type 0 where
  pub sound :
      (sid : Bytes) (p : ℕ)
      → find_session sid s.sessions ≡ some p
      → (o : Opened) × (get_elem? s.heap p ≡ some o) × (o.sid ≡ sid) × (is_current o ≡ true)
  pub complete :
      (p : ℕ) (o : Opened)
      → get_elem? s.heap p ≡ some o
      → is_current o ≡ true
      → find_session o.sid s.sessions ≡ some p
  pub ended :
      (p : ℕ) (o : Opened)
      → get_elem? s.heap p ≡ some o
      → o.ending ≡ true
      → o.session.terminated ≡ true

-- A method of a session that keeps what the map depends on.
pub record Keeps (f : Opened → Opened) : Type 0 where
  pub same_sid : (o : Opened) → (f o).sid ≡ o.sid
  pub same_current : (o : Opened) → is_current (f o) ≡ is_current o
  pub still_ended :
      (o : Opened)
      → (o.ending ≡ true → o.session.terminated ≡ true)
      → (f o).ending ≡ true
      → (f o).session.terminated ≡ true

pub none-some : {p : ℕ} → none ≢ some p
none-some e = cc

pub no_element : {o : Opened} → none ≢ some o
no_element e = cc

pub some-inj : {p q : ℕ} → some p ≡ some q → p ≡ q
some-inj e = cc

pub equal-ne : {a b : Bytes} → equal a b ≡ false → a ≢ b
equal-ne {a} {b} e f = absurd (ground (arith, (equal_iff a b).1 f))

pub current_ending : (o : Opened) → o.ending ≡ true → is_current o ≡ true
current_ending o e = elim (Bool-cases o.session.terminated) [
  | inl f ↦ rw (e, f) refl
  | inr f ↦ rw (f) refl
]

pub gone :
    (x o : Opened)
    → o.session.terminated ≡ true
    → x ≡ record o { ending = false }
    → is_current x ≢ true
gone x o e f cur = ground (arith, e, rw (f) at cur)

add_stream-terminated :
    (s : Session) (stream_id conn : ℕ) → ((add_stream s stream_id conn).0).terminated ≡ s.terminated
unfolding add_stream
add_stream-terminated s stream_id conn = elim (Bool-cases s.terminated) [
  | inl e ↦ rw (e, add_stream) refl
  | inr e ↦ elim (Option-cases (displace stream_id conn s.streams)) [
    | inl f ↦ rw (e, f, add_stream) e
    | inr ((es, old), f) ↦ rw (e, f, add_stream) e
  ]
]

pub same_element :
    (heap : List Opened) {p q : ℕ} {o x : Opened}
    → q ≡ p
    → get_elem? heap p ≡ some o
    → get_elem? heap q ≡ some x
    → x ≡ o
same_element heap qp e at = cc

pub update_session-IsListed :
    (s : Server) (p : ℕ) (f : Opened → Opened)
    → Keeps f
    → IsListed s
    → IsListed (update_session s p f)
update_session-IsListed s p f k v = elim (Option-cases (get_elem? s.heap p)) [
  | inl e ↦ rw (e, update_session) v
  | inr (o, e) ↦
      rw (e, update_session)
        (record {
          sound = λ sid q h.
              let (x, at, own, cur) = v.sound sid q h in
              elim (Bool-cases (q == p)) [
                | inl same ↦
                    let qp : q ≡ p = ground arith in
                    let xo : x ≡ o = same_element s.heap qp e at in
                    (
                      f o,
                      rw (qp) (get_elem?-set_self s.heap p (f o) (get_elem?-lt s.heap p e)),
                      k.same_sid o ∙ rw (sym xo) own,
                      k.same_current o ∙ rw (sym xo) cur,
                    )
                | inr other ↦
                    let apart : p ≢ q = ground arith in
                    (x, get_elem?-set_ne s.heap (f o) apart ∙ at, own, cur)
              ];
          complete = λ q x at cur. elim (get_elem?-set_cases s.heap p q (f o) at) [
            | inl (qp, xf) ↦
                rw (qp, xf, k.same_sid o)
                  (v.complete p o e (sym (k.same_current o) ∙ rw (sym xf) cur))
            | inr (ne, old) ↦ v.complete q x old cur
          ];
          ended = λ q x at ending. elim (get_elem?-set_cases s.heap p q (f o) at) [
            | inl (qp, xf) ↦ rw (xf) (k.still_ended o (v.ended p o e) (rw (sym xf) ending))
            | inr (ne, old) ↦ v.ended q x old ending
          ];
        })
]

pub attach-Keeps : (stream_id conn : ℕ) → Keeps (attach stream_id conn)
attach-Keeps stream_id conn = record {
  same_sid = λ o. refl;
  same_current = λ o. rw (add_stream-terminated o.session stream_id conn) refl;
  still_ended = λ o h e. add_stream-terminated o.session stream_id conn ∙ h e;
}

pub detach-Keeps : (stream_id conn : ℕ) → Keeps (detach stream_id conn)
unfolding remove_stream
detach-Keeps stream_id conn = record {
  same_sid = λ o. refl;
  same_current = λ o. refl;
  still_ended = λ o h e. h e;
}

pub end_session-Keeps : Keeps end_session
unfolding terminate
end_session-Keeps = record {
  same_sid = λ o. refl;
  same_current =
      λ o. elim (Bool-cases o.session.terminated) [ inl e ↦ rw (e) refl | inr e ↦ rw (e) refl ];
  still_ended =
      λ o h e. elim (Bool-cases o.session.terminated) [ inl e ↦ rw (e) refl | inr e ↦ rw (e) refl ];
}
