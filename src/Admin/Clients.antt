-- ===== src/Admin/Clients.antt =====
-- pkg/wgadmin/server.go: what `Provision` and `Revoke` leave on the disk.
use wgturn_core.Prelude.{
  Bool, true, false, [], ◌∷◌, ◌++◌, Option, none, some, Bytes, Result, ok, err, >>=-ok, err-ne-ok,
  ok-inj, ◌≡◌, ◌≢◌, refl, sym, ◌∙◌, ap, Bool-cases, Result-cases, inl, inr,
}
use wgturn_core.Tunnel.{is_nil}
use wgturn_core.Admin.Allocate.{Address, SubnetError, allocate_client_ip}
use wgturn_core.Admin.File.{ConfState, parse_conf, write_conf, FileError}
use wgturn_core.Admin.{
  Prefixes, AdminServer, Profile, AdminError, no_address, Keypair, Outside, need, refuse, allocated,
  has_name, existing_peer_addrs, parsed, read_state, commit, prefix_bits, client, prepare,
  provision, without_peer, revoke, sync_failed, write_failed, conf_path_required, no_private_key,
  bad_conf, open_failed, name_required, peer_exists, derive_failed, keypair_failed,
  preshared_failed,
}

pub refuse-ok : (b : Bool) (e : AdminError) → refuse b e ≡ ok tt → b ≡ false
refuse-ok true e h = absurd (err-ne-ok e tt h)
refuse-ok false e h = refl

pub need-ok {ℓ} :
    {A : Type ℓ} (e : AdminError) (o : Option A) {a : A} → need e o ≡ ok a → o ≡ some a
need-ok e none {a} h = absurd (err-ne-ok e a h)
need-ok e (some x) h = ap (λ y. some y) (ok-inj h)

err-inj {ℓ} :
    {A : Type ℓ} {e f : AdminError} → ◌≡◌ {A = Result AdminError A} (err e) (err f) → e ≡ f
err-inj h = cc

module _ {Prefix : Type 0} (net : Prefixes Prefix) where
  -- What a state that was read is.
  pub record IsRead (s : AdminServer Prefix) (disk : Option Bytes) (st : ConfState Prefix)
      : Type 0 where
    pub path : is_nil s.conf_path ≡ false
    pub file : Bytes
    pub opened : disk ≡ some file
    pub parses : parse_conf net.lib file ≡ ok st
    pub keyed : is_nil st.private_key ≡ false

  parsed-ok :
      (r : Result FileError (ConfState Prefix)) {st : ConfState Prefix}
      → parsed net r ≡ ok st
      → r ≡ ok st
  parsed-ok (err e) {st = st} h = absurd (err-ne-ok bad_conf st h)
  parsed-ok (ok x) h = ap (λ y. ok y) (ok-inj h)

  pub read_state-IsRead :
      (s : AdminServer Prefix) (disk : Option Bytes) {st : ConfState Prefix}
      → read_state net s disk ≡ ok st
      → IsRead s disk st
  unfolding read_state
  read_state-IsRead s disk {st = st} h =
      let (u, e0, h0) = >>=-ok (refuse (is_nil s.conf_path) conf_path_required) _ h in
      let (file, e1, h1) = >>=-ok (need open_failed disk) _ h0 in
      let (st', e2, h2) = >>=-ok (parsed net (parse_conf net.lib file)) _ h1 in
      let (u', e3, h3) = >>=-ok (refuse (is_nil st'.private_key) no_private_key) _ h2 in
      let same : st' ≡ st = ok-inj h3 in
      record {
        path = refuse-ok _ _ e0;
        file = file;
        opened = need-ok open_failed disk e1;
        parses = parsed-ok _ e2 ∙ ap (λ y. ok y) same;
        keyed = ap (λ y. is_nil y.private_key) (sym same) ∙ refuse-ok _ _ e3;
      }

  pub IsRead-read_state :
      (s : AdminServer Prefix) (file : Bytes) (st : ConfState Prefix)
      → is_nil s.conf_path ≡ false
      → parse_conf net.lib file ≡ ok st
      → is_nil st.private_key ≡ false
      → read_state net s (some file) ≡ ok st
  unfolding read_state
  IsRead-read_state s file st p e k = rw (p, e, k) refl

  allocated-ok : (r : Result SubnetError Address) {a : Address} → allocated r ≡ ok a → r ≡ ok a
  allocated-ok (err e) {a = a} h = absurd (err-ne-ok (no_address e) a h)
  allocated-ok (ok x) h = ap (λ y. ok y) (ok-inj h)

  pub commit-ok {ℓ} :
      {A : Type ℓ} (out : Outside) (disk : Option Bytes) (st : ConfState Prefix) (a : A)
      {disk' : Option Bytes} {b : A}
      → commit net out disk st a ≡ (disk', ok b)
      → (disk' ≡ some (write_conf net.show st)) × (a ≡ b)
  unfolding commit
  commit-ok out disk st a {b = b} h = elim (Bool-cases out.writes) [
    | inr e ↦ absurd (err-ne-ok write_failed b (ap (λ y. y.1) (rw (e, commit) at h)))
    | inl e ↦ elim (Bool-cases out.syncs) [
      | inr f ↦ absurd (err-ne-ok sync_failed b (ap (λ y. y.1) (rw (e, f, commit) at h)))
      | inl f ↦ let k = rw (e, f, commit) at h in (sym (ap (λ y. y.0) k), ok-inj (ap (λ y. y.1) k))
    ]
  ]

  commit-err {ℓ} :
      {A : Type ℓ} (out : Outside) (disk : Option Bytes) (st : ConfState Prefix) (a : A)
      (e : AdminError) {disk' : Option Bytes}
      → e ≢ sync_failed
      → commit net out disk st a ≡ (disk', err e)
      → disk' ≡ disk
  unfolding commit
  commit-err out disk st a e ne h = elim (Bool-cases out.writes) [
    | inr w ↦ sym (ap (λ y. y.0) (rw (w, commit) at h))
    | inl w ↦ elim (Bool-cases out.syncs) [
      | inr f ↦ absurd (ne (sym (err-inj (ap (λ y. y.1) (rw (w, f, commit) at h)))))
      | inl f ↦ absurd (err-ne-ok e a (sym (ap (λ y. y.1) (rw (w, f, commit) at h))))
    ]
  ]

  -- What `Provision` has done when it succeeds.
  pub record Provisioned (s : AdminServer Prefix) (out : Outside) (disk disk' : Option Bytes)
      (name : Bytes) (profile : Profile Prefix) : Type 0 where
    pub state : ConfState Prefix
    pub keys : Keypair
    pub psk : Bytes
    pub addr : Address
    pub keys_given : out.keypair ≡ some keys
    pub psk_given : out.preshared ≡ some psk
    pub was_read : read_state net s disk ≡ ok state
    pub named : is_nil name ≡ false
    pub unique : has_name name state.peers ≡ false
    pub given :
        allocate_client_ip s.subnet s.server_address (existing_peer_addrs net state.peers) ≡ ok addr
    pub address : profile.address ≡ net.lib.prefix_from addr (prefix_bits s.subnet)
    pub private_key : profile.client_private_key ≡ keys.private
    pub preshared_key : profile.preshared_key ≡ psk
    pub written :
        disk'
        ≡ some (
            write_conf net.show
              (record state { peers = state.peers ++ (client net name keys psk addr ∷ []) }))

  -- `Provision` succeeds only if the file was read, no peer has the name, an address is free and
  -- the file is written with the new peer at its end; the profile carries the new peer's keys and
  -- address.
  pub provision-Provisioned :
      (s : AdminServer Prefix) (out : Outside) (disk : Option Bytes) (name : Bytes)
      {disk' : Option Bytes} {profile : Profile Prefix}
      → provision net s out disk name ≡ (disk', ok profile)
      → Provisioned s out disk disk' name profile
  unfolding provision prepare
  provision-Provisioned s out disk name {disk' = disk'} {profile = profile} h =
      elim (Result-cases (prepare net s out disk name)) [
        | inl (e, f) ↦ absurd (err-ne-ok e profile (ap (λ y. y.1) (rw (f, provision) at h)))
        | inr (r, f) ↦
            let (u, e0, h0) = >>=-ok (refuse (is_nil name) name_required) _ f in
            let (st, e1, h1) = >>=-ok (read_state net s disk) _ h0 in
            let (u', e2, h2) = >>=-ok (refuse (has_name name st.peers) peer_exists) _ h1 in
            let (server_pub, e3, h3) =
              >>=-ok (need derive_failed (out.public_key_for st.private_key)) _ h2 in
            let (keys, e4, h4) = >>=-ok (need keypair_failed out.keypair) _ h3 in
            let (psk, e5, h5) = >>=-ok (need preshared_failed out.preshared) _ h4 in
            let (a, e6, h6) =
              >>=-ok
                (allocated
                  (allocate_client_ip s.subnet s.server_address (existing_peer_addrs net st.peers)))
                _ h5 in
            let made = ok-inj h6 in
            let (w, same) = commit-ok out disk r.state r.profile (rw (f, provision) at h) in
            record {
              state = st;
              keys = keys;
              psk = psk;
              addr = a;
              keys_given = need-ok keypair_failed _ e4;
              psk_given = need-ok preshared_failed _ e5;
              was_read = e1;
              named = refuse-ok _ _ e0;
              unique = refuse-ok _ _ e2;
              given = allocated-ok _ e6;
              address = ap (λ y. y.address) (sym same) ∙ ap (λ y. y.profile.address) (sym made);
              private_key =
                  ap (λ y. y.client_private_key) (sym same)
                  ∙ ap (λ y. y.profile.client_private_key) (sym made);
              preshared_key =
                  ap (λ y. y.preshared_key) (sym same)
                  ∙ ap (λ y. y.profile.preshared_key) (sym made);
              written = w ∙ ap (λ y. some (write_conf net.show y.state)) (sym made);
            }
      ]

  -- If `Provision` fails for any other reason than `wg syncconf`, then the file is as it was.
  pub provision_failed :
      (s : AdminServer Prefix) (out : Outside) (disk : Option Bytes) (name : Bytes) (e : AdminError)
      {disk' : Option Bytes}
      → e ≢ sync_failed
      → provision net s out disk name ≡ (disk', err e)
      → disk' ≡ disk
  unfolding provision
  provision_failed s out disk name e ne h = elim (Result-cases (prepare net s out disk name)) [
    | inl (e', f) ↦ sym (ap (λ y. y.0) (rw (f, provision) at h))
    | inr (r, f) ↦ commit-err out disk r.state r.profile e ne (rw (f, provision) at h)
  ]

  -- If `Revoke` fails for any other reason than `wg syncconf`, then the file is as it was.
  pub revoke_failed :
      (s : AdminServer Prefix) (out : Outside) (disk : Option Bytes) (name : Bytes) (e : AdminError)
      {disk' : Option Bytes}
      → e ≢ sync_failed
      → revoke net s out disk name ≡ (disk', err e)
      → disk' ≡ disk
  unfolding revoke
  revoke_failed s out disk name e ne h = elim (Result-cases (without_peer net s disk name)) [
    | inl (e', f) ↦ sym (ap (λ y. y.0) (rw (f, revoke) at h))
    | inr (st, f) ↦ commit-err out disk st tt e ne (rw (f, revoke) at h)
  ]
