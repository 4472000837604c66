-- ===== src/Server/Map.antt =====
-- The map of sessions in pkg/wgturnsrv/server.go: finding after inserting and deleting.
use wgturn_core.Prelude.{
  ℕ, false, List, [], ◌∷◌, none, Bytes, equal, equal_iff, ◌≡◌, ◌≢◌, refl, sym, ◌∙◌, Bool-cases, inl,
  inr,
}
use wgturn_core.Server.{find_session, delete_session}

pub equal_ne : (a b : Bytes) → a ≢ b → equal a b ≡ false
equal_ne a b ne = elim (Bool-cases (equal a b)) [
  | inl e ↦ absurd (ne ((equal_iff a b).0 e))
  | inr e ↦ e
]

pub find-delete :
    (sid : Bytes) (m : List (Bytes × ℕ)) → find_session sid (delete_session sid m) ≡ none
unfolding find_session delete_session
find-delete sid [] = refl
find-delete sid ((k, p) ∷ m) = elim (Bool-cases (equal sid k)) [
  | inl e ↦ rw (e) (find-delete sid m)
  | inr e ↦ rw (e, e) (find-delete sid m)
]

pub find-delete_ne :
    (sid other : Bytes) (m : List (Bytes × ℕ))
    → sid ≢ other
    → find_session other (delete_session sid m) ≡ find_session other m
unfolding find_session delete_session
find-delete_ne sid other [] ne = refl
find-delete_ne sid other ((k, p) ∷ m) ne = elim (Bool-cases (equal sid k)) [
  | inl e ↦
      let apart = equal_ne other k (λ f. ne ((equal_iff sid k).0 e ∙ sym f)) in
      rw (e, apart) (find-delete_ne sid other m ne)
  | inr e ↦ elim (Bool-cases (equal other k)) [
    | inl f ↦ rw (e, f) refl
    | inr f ↦ rw (e, f) (find-delete_ne sid other m ne)
  ]
]
