-- ===== src/Admin/Relist.antt =====
-- pkg/wgadmin/server.go: what `List` shows after `Provision` and `Revoke`.
use wgturn_core.Prelude.{
  false, List, [], ◌∷◌, map, Option, none, some, Bytes, equal, ok, >>=-ok, err-ne-ok, ok-inj, All,
  ◌≡◌, ◌≢◌, refl, sym, ◌∙◌, ap, Bool-cases, Option-cases, Result-cases, inl, inr,
}
use wgturn_core.Tunnel.{is_nil}
use wgturn_core.Admin.File.{AdminPeer, ConfState, parse_conf, write_conf}
use wgturn_core.Admin.File.Text.{NoReturn}
use wgturn_core.Admin.File.RoundTrip.{ReadsBack, parse_conf-ReadsBack, write-ReadsBack}
use wgturn_core.Admin.Clients.{read_state-IsRead, IsRead-read_state, commit-ok, need-ok}
use wgturn_core.Admin.{
  Prefixes, AdminServer, Outside, need, refuse, shown, remove_name, read_state, list_peers,
  without_peer, revoke, name_required, peer_not_found,
}

pub some-inj {ℓ} : {A : Type ℓ} {a b : A} → some a ≡ some b → a ≡ b
some-inj h = cc

none-ne {ℓ} : {A : Type ℓ} {a : A} → none ≢ some a
none-ne h = cc

module _ {Prefix : Type 0} (net : Prefixes Prefix) where
  pub list_peers-read :
      (s : AdminServer Prefix) (disk : Option Bytes) {ps : List (AdminPeer Prefix)}
      → list_peers net s disk ≡ ok ps
      → (st : ConfState Prefix) × (read_state net s disk ≡ ok st) × (map shown st.peers ≡ ps)
  unfolding list_peers
  list_peers-read s disk h =
      let (st, e, f) = >>=-ok (read_state net s disk) _ h in (st, e, ok-inj f)

  remove_name-map :
      (name : Bytes) (ps rest : List (AdminPeer Prefix))
      → remove_name name ps ≡ some rest
      → remove_name name (map shown ps) ≡ some (map shown rest)
  unfolding remove_name
  remove_name-map name [] rest h = cc
  remove_name-map name (p ∷ ps) rest h = elim (Bool-cases (equal p.name name)) [
    | inl e ↦
        let same : ps ≡ rest = some-inj (rw (e, remove_name) at h) in
        rw (e) (ap (λ y. some (map shown y)) same)
    | inr e ↦ elim (Option-cases (remove_name name ps)) [
      | inl f ↦ absurd (none-ne (rw (e, f, remove_name) at h))
      | inr (more, f) ↦
          let same : p ∷ more ≡ rest = some-inj (rw (e, f, remove_name) at h) in
          rw (e, remove_name-map name ps more f) (ap (λ y. some (map shown y)) same)
    ]
  ]

  remove_name-All {κ} :
      (P : AdminPeer Prefix → Type κ) (name : Bytes) (ps rest : List (AdminPeer Prefix))
      → remove_name name ps ≡ some rest
      → All P ps
      → All P rest
  unfolding remove_name
  remove_name-All P name [] rest h a = absurd (none-ne h)
  remove_name-All P name (p ∷ ps) rest h a = elim (Bool-cases (equal p.name name)) [
    | inl e ↦ rw (← some-inj (rw (e, remove_name) at h)) a.1
    | inr e ↦ elim (Option-cases (remove_name name ps)) [
      | inl f ↦ absurd (none-ne (rw (e, f, remove_name) at h))
      | inr (more, f) ↦
          rw (← some-inj (rw (e, f, remove_name) at h)) (a.0, remove_name-All P name ps more f a.1)
    ]
  ]

  -- A state that reads back is listed from the file that it is written to.
  pub list-write :
      (s : AdminServer Prefix) (st : ConfState Prefix)
      → is_nil s.conf_path ≡ false
      → is_nil st.private_key ≡ false
      → parse_conf net.lib (write_conf net.show st) ≡ ok st
      → list_peers net s (some (write_conf net.show st)) ≡ ok (map shown st.peers)
  unfolding list_peers
  list-write s st p k e = rw (IsRead-read_state net s (write_conf net.show st) st p e k) refl

  -- If the file holds no carriage return, and `List` gives some peers, and `Revoke` succeeds, then
  -- one of them has the name, and `List` gives the peers without the first of that name.
  pub list-revoke :
      (s : AdminServer Prefix) (out : Outside) (file name : Bytes) (ps : List (AdminPeer Prefix))
      (disk' : Option Bytes)
      → NoReturn file
      → list_peers net s (some file) ≡ ok ps
      → revoke net s out (some file) name ≡ (disk', ok tt)
      → (rest : List (AdminPeer Prefix)) × (remove_name name ps ≡ some rest)
        × (list_peers net s disk' ≡ ok rest)
  unfolding revoke without_peer
  list-revoke s out file name ps disk' clean h r =
      let (st, e, same) = list_peers-read s (some file) h in
      let v = read_state-IsRead net s (some file) e in
      let own : file ≡ v.file = some-inj v.opened in
      elim (Result-cases (without_peer net s (some file) name)) [
        | inl (f, w) ↦ absurd (err-ne-ok f tt (ap (λ y. y.1) (rw (w, revoke) at r)))
        | inr (st2, w) ↦
            let (u, e0, h0) = >>=-ok (refuse (is_nil name) name_required) _ w in
            let (st1, e1, h1) = >>=-ok (read_state net s (some file)) _ h0 in
            let st_same : st1 ≡ st = ok-inj (sym e1 ∙ e) in
            let (rest, e2, h2) = >>=-ok (need peer_not_found (remove_name name st1.peers)) _ h1 in
            let removed : remove_name name st.peers ≡ some rest =
              ap (λ y. remove_name name y.peers) (sym st_same) ∙ need-ok peer_not_found _ e2 in
            let made : record st { peers = rest } ≡ st2 =
              ap (λ (y : ConfState Prefix). record y { peers = rest }) (sym st_same) ∙ ok-inj h2 in
            let (written, done) = commit-ok net out (some file) st2 tt (rw (w, revoke) at r) in
            let back =
              parse_conf-ReadsBack net.lib net.show file clean
                (ap (parse_conf net.lib) own ∙ v.parses) in
            let kept : ReadsBack net.lib net.show (record st { peers = rest }) = record {
              home = back.home;
              home_settled = back.home_settled;
              header_back = back.header_back;
              header_clean = back.header_clean;
              peers_back = remove_name-All _ name st.peers rest removed back.peers_back;
            } in
            (
              map shown rest,
              ap (remove_name name) (sym same) ∙ remove_name-map name st.peers rest removed,
              ap (list_peers net s) (written ∙ ap (λ y. some (write_conf net.show y)) (sym made))
                  ∙ list-write s (record st { peers = rest }) v.path v.keyed
                      (write-ReadsBack net.lib net.show (record st { peers = rest }) kept),
            )
      ]
