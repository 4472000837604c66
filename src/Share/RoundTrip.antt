-- ===== src/Share/RoundTrip.antt =====
-- pkg/wgshare/share.go: what `Encode` writes, `Parse` reads.
use wgturn_core.Prelude.{
  ℕ, ◌*◌, ◌/◌, ◌^◌, ◌<◌, true, false, List, [], ◌∷◌, ◌++◌, map, Option, none, some, Bytes,
  has_prefix, ok, ◌>>=◌, >>=-ok, err-ne-ok, ok-inj, ◌==◌, All, ◌≡◌, ◌≢◌, refl, sym, ◌∙◌, ap,
  Bool-cases, Option-cases, inl, inr, arith,
}
use mathlib.Core.List.{append-nil}
use wgturn_core.Tunnel.{is_nil}
use wgturn_core.Conf.Strings.{cut_byte}
use wgturn_core.Share.{
  pos, nanoseconds, whole_seconds, duration_of, ShareProfile, WireFormat, ShareError, Formats,
  demand, parse_texts, validate_profile, unless_error, show_address, to_wire, fragment, encode,
  split_fragment, parse_address, from_wire, parse_payload, parse_url, scheme_prefix,
  bad_allowed_ips, bad_dns, empty_payload, bad_base64, bad_json, unsupported_version, is_version,
  missing_scheme,
}

cut_byte-front :
    (d : ℕ) (front rest : Bytes)
    → All (λ c. c ≢ d) front
    → cut_byte d (front ++ (d ∷ rest)) ≡ some (front, rest)
unfolding cut_byte
cut_byte-front d [] rest h = let same : (d == d) ≡ true = ground arith in rw (same) refl
cut_byte-front d (c ∷ front) rest h =
    let other : (c == d) ≡ false = ground (arith, h.0) in
    rw (other, cut_byte-front d front rest h.1) refl

cut_byte-none : (d : ℕ) (s : Bytes) → All (λ c. c ≢ d) s → cut_byte d s ≡ none
unfolding cut_byte
cut_byte-none d [] h = refl
cut_byte-none d (c ∷ s) h =
    let other : (c == d) ≡ false = ground (arith, h.0) in rw (other, cut_byte-none d s h.1) refl

parse_texts-map {ℓ} :
    {A : Type ℓ} (show : A → Bytes) (parse_text : Bytes → Option A) (e : ShareError) (xs : List A)
    → All (λ x. parse_text (show x) ≡ some x) xs
    → parse_texts parse_text e (map show xs) ≡ ok xs
unfolding parse_texts
parse_texts-map show parse_text e [] h = refl
parse_texts-map show parse_text e (x ∷ xs) h =
    rw (h.0, parse_texts-map show parse_text e xs h.1) refl

module _ {Prefix Addr : Type 0} (lib : Formats Prefix Addr) where
  -- What the libraries are relied on for, at one profile: JSON, base64 and the escapes are read as
  -- they are written, base64 has no `#`, and the prefixes and addresses are parsed from their texts.
  pub record IsReadable (p : ShareProfile Prefix Addr) : Type 0 where
    pub json : lib.unmarshal (lib.marshal (to_wire lib p)) ≡ some (to_wire lib p)
    pub base64 : (s : Bytes) → lib.decode64 (lib.encode64 s) ≡ some s
    pub no_hash : (s : Bytes) → All (λ c. c ≢ 35) (lib.encode64 s)
    pub filled : is_nil (lib.encode64 (lib.marshal (to_wire lib p))) ≡ false
    pub label_back : lib.unescape (lib.escape p.label) ≡ some p.label
    pub address_back :
        (a : Prefix) → p.address ≡ some a → lib.parse_prefix (lib.show_prefix a) ≡ some a
    pub address_filled : (a : Prefix) → p.address ≡ some a → is_nil (lib.show_prefix a) ≡ false
    pub ips_back : All (λ a. lib.parse_prefix (lib.show_prefix a) ≡ some a) p.allowed_ips
    pub dns_back : All (λ a. lib.parse_addr (lib.show_addr a) ≡ some a) p.dns

  fragment-back :
      (payload l : Bytes)
      → All (λ c. c ≢ 35) payload
      → lib.unescape (lib.escape l) ≡ some l
      → split_fragment lib (payload ++ fragment lib l) (cut_byte 35 (payload ++ fragment lib l))
        ≡ (payload, l)
  fragment-back payload [] clean h =
      ap (λ y. split_fragment lib y (cut_byte 35 y)) (append-nil payload)
      ∙ rw (cut_byte-none 35 payload clean) refl
  fragment-back payload (c ∷ l) clean h =
      rw (cut_byte-front 35 payload (lib.escape (c ∷ l)) clean, h) refl

  needs-address : (p : ShareProfile Prefix Addr) → p.address ≡ none → validate_profile p ≢ none
  unfolding validate_profile
  needs-address p e h = ground (arith, rw (e, validate_profile) at h)

  address-back :
      (o : Option Prefix) (a : Prefix)
      → o ≡ some a
      → is_nil (lib.show_prefix a) ≡ false
      → lib.parse_prefix (lib.show_prefix a) ≡ some a
      → parse_address lib (show_address lib o) ≡ ok o
  unfolding parse_address
  address-back o a e f h = rw (e, f, h) refl

  validated-address :
      (p : ShareProfile Prefix Addr)
      → validate_profile p ≡ none
      → (a : Prefix) × (p.address ≡ some a)
  unfolding validate_profile
  validated-address p h = elim (Option-cases p.address) [
    | inl e ↦ absurd (needs-address p e h)
    | inr (a, e) ↦ (a, e)
  ]

  -- The keepalive of a parsed link: the whole seconds.
  abbrev pub in_seconds : ShareProfile Prefix Addr → ShareProfile Prefix Addr
  in_seconds p = record p {
    persistent_keepalive = duration_of (whole_seconds p.persistent_keepalive);
  }

  validate-in_seconds :
      (p : ShareProfile Prefix Addr) → validate_profile (in_seconds p) ≡ validate_profile p
  unfolding validate_profile
  validate-in_seconds p = refl

  from_wire-to_wire :
      (p : ShareProfile Prefix Addr)
      → IsReadable p
      → validate_profile p ≡ none
      → from_wire lib p.label (to_wire lib p) ≡ ok (in_seconds p)
  unfolding from_wire to_wire
  from_wire-to_wire p v h =
      let (a, e) = validated-address p h in
      let ips =
        parse_texts-map lib.show_prefix lib.parse_prefix bad_allowed_ips p.allowed_ips v.ips_back in
      let servers = parse_texts-map lib.show_addr lib.parse_addr bad_dns p.dns v.dns_back in
      let home = address-back p.address a e (v.address_filled a e) (v.address_back a e) in
      rw (home, ips, servers) (ap (λ y. unless_error y (ok (in_seconds p))) h)

  -- If a profile passes `Validate`, and the libraries read what they write of it, then `Parse` of the
  -- link that `Encode` gives is the profile, with the whole seconds of its keepalive.
  pub parse_url-encode :
      (p : ShareProfile Prefix Addr)
      → IsReadable p
      → validate_profile p ≡ none
      → (encode lib p >>= λ s. parse_url lib s) ≡ ok (in_seconds p)
  unfolding encode parse_url parse_payload has_prefix
  parse_url-encode p v h =
      let payload = lib.encode64 (lib.marshal (to_wire lib p)) in
      rw (h, fragment-back payload p.label (v.no_hash _) v.label_back, v.filled, v.base64 _, v.json)
        (from_wire-to_wire p v h)

  unless_error-ok :
      (o : Option ShareError) (p : ShareProfile Prefix Addr) {q : ShareProfile Prefix Addr}
      → unless_error o (ok p) ≡ ok q
      → (o ≡ none) × (p ≡ q)
  unless_error-ok none p h = (refl, ok-inj h)
  unless_error-ok (some e) p {q = q} h = absurd (err-ne-ok e q h)

  from_wire-valid :
      (l : Bytes) (w : WireFormat) {p : ShareProfile Prefix Addr}
      → from_wire lib l w ≡ ok p
      → (validate_profile p ≡ none) × (p.label ≡ l)
  unfolding from_wire
  from_wire-valid l w h =
      let (address, e1, h1) = >>=-ok (parse_address lib w.ad) _ h in
      let (allowed, e2, h2) = >>=-ok (parse_texts lib.parse_prefix bad_allowed_ips w.ai) _ h1 in
      let (servers, e3, h3) = >>=-ok (parse_texts lib.parse_addr bad_dns w.dns) _ h2 in
      let (valid, same) = unless_error-ok _ _ h3 in
      (ap validate_profile (sym same) ∙ valid, ap (λ y. y.label) (sym same))

  parse_payload-valid :
      (payload l : Bytes) {p : ShareProfile Prefix Addr}
      → parse_payload lib (payload, l) ≡ ok p
      → validate_profile p ≡ none
  unfolding parse_payload
  parse_payload-valid payload l {p = p} h = elim (Bool-cases (is_nil payload)) [
    | inl e ↦ absurd (err-ne-ok empty_payload p (rw (e, parse_payload) at h))
    | inr e ↦
        let (js, e1, h1) =
          >>=-ok (demand bad_base64 (lib.decode64 payload)) _ (rw (e, parse_payload) at h) in
        let (w, e2, h2) = >>=-ok (demand bad_json (lib.unmarshal js)) _ h1 in
        elim (Bool-cases (is_version w.v)) [
          | inl f ↦ (from_wire-valid l w (rw (f) at h2)).0
          | inr f ↦ absurd (err-ne-ok unsupported_version p (rw (f) at h2))
        ]
  ]

  -- What `Parse` returns passes `Validate`, and only a text with the scheme is parsed.
  pub parse_url-valid :
      (s : Bytes) {p : ShareProfile Prefix Addr}
      → parse_url lib s ≡ ok p
      → (validate_profile p ≡ none) × (has_prefix s scheme_prefix ≡ true)
  unfolding parse_url
  parse_url-valid s {p = p} h = elim (Bool-cases (has_prefix s scheme_prefix)) [
    | inl e ↦ (parse_payload-valid _ _ (rw (e, parse_url) at h), e)
    | inr e ↦ absurd (err-ne-ok missing_scheme p (rw (e, parse_url) at h))
  ]

-- A duration that is not negative and fits 63 bits loses less than a second.
pub duration_of-whole_seconds :
    (n : ℕ) → n < 2 ^ 63 → duration_of (whole_seconds (pos n)) ≡ pos (n / nanoseconds * nanoseconds)
unfolding duration_of whole_seconds
duration_of-whole_seconds n h = ground arith
