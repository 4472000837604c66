-- ===== src/Kernel/Ipc.antt =====
-- pkg/wgkernel/config.go: an accepted configuration has an IPC text.
use wgturn_core.Prelude.{
  ℕ, zero, suc, ◌+◌, ◌-◌, ◌*◌, ◌/◌, ◌%◌, ◌^◌, ◌<◌, false, ◌&&◌, List, [], ◌∷◌, ◌++◌, map, Option,
  none, some, Bytes, codes, ok, >>=-ok, ltb, leb, ◌≡◌, refl, ◌∙◌, ap, Bool-cases, inl, inr, arith,
}
use native.Mathlib.Numerals.{unary_clauses}
use wgturn_core.Conf.Strings.{digits}
use wgturn_core.Share.{ShareProfile}
use wgturn_core.Admin.File.{print_lines}
use wgturn_core.Kernel.{
  KernelPeer, KernelConfig, KeyFormats, bad_private_key, bad_public_key, is_below_zero, at_place,
  refuse_if, decimal, print_number, decode_wg_key, first_invalid, optional_key, validate_peer,
  validate_peers, ipc_peers, peer_lines_of, validate_kernel, ipc, or_all, to_kernel_config,
  negative_mtu,
}

digits-append :
    (k : ℕ) (s : Bytes) (d : ℕ) {m : ℕ}
    → d < 10
    → digits k s ≡ some m
    → digits k (s ++ ((48 + d) ∷ [])) ≡ some (10 * m + d)
unfolding digits
digits-append k [] d lt h = ground arith
digits-append k (c ∷ s) d lt h = elim (Bool-cases (leb 48 c && leb c 57)) [
  | inl e ↦ rw (e) (digits-append (10 * k + (c - 48)) s d lt (rw (e, digits) at h))
  | inr e ↦ cc (rw (e, digits) at h)
]

-- The digits of a number that has at most so many are read back as the number.
digits-decimal : (f n : ℕ) → n < 10 ^ f → digits 0 (decimal f n) ≡ some n
unfolding digits decimal
digits-decimal zero n h = ground arith
digits-decimal (suc f) n h = elim (Bool-cases (ltb n 10)) [
  | inl e ↦ rw (e) (ground arith)
  | inr e ↦
      let grow : 10 ^ suc f ≡ 10 * 10 ^ f = simp unary_clauses (omega arith) in
      let less : n / 10 < 10 ^ f = omega (arith, grow) in
      let back =
        digits-append 0 (decimal f (n / 10)) (n % 10) (omega arith)
          (digits-decimal f (n / 10) less) in
      rw (e) (back ∙ ap (λ y. some y) (omega arith))
]

module _ {Prefix : Type 0} (lib : KeyFormats Prefix) where
  ipc-peers :
      (i : ℕ) (ps : List (KernelPeer Prefix))
      → validate_peers lib i ps ≡ ok tt
      → (lines : List Bytes) × (ipc_peers lib i ps ≡ ok lines)
  unfolding validate_peers validate_peer ipc_peers
  ipc-peers i [] h = ([], refl)
  ipc-peers i (p ∷ ps) h =
      let (u, e, more) = >>=-ok (validate_peer lib i p) _ h in
      let (key, e1, h1) =
        >>=-ok (at_place (bad_public_key i) (decode_wg_key lib p.public_key)) _ e in
      let (psk, e2, h2) = >>=-ok (optional_key lib i p.preshared_key) _ h1 in
      let (rest, f) = ipc-peers (i + 1) ps more in
      (peer_lines_of lib p key psk ++ rest, rw (e1, e2, f) refl)

  module _ {Addr : Type 0} where
    -- A configuration that `Validate` accepts has an IPC text.
    pub validate_kernel-ipc :
        (c : KernelConfig Prefix Addr)
        → validate_kernel lib c ≡ ok tt
        → (text : Bytes) × (ipc lib c ≡ ok text)
    unfolding validate_kernel ipc
    validate_kernel-ipc c h =
        let (key, e, h1) =
          >>=-ok (at_place bad_private_key (decode_wg_key lib c.private_key)) _ h in
        let (u, e1, h2) = >>=-ok (refuse_if (is_below_zero c.mtu) negative_mtu) _ h1 in
        let (lines, f) = ipc-peers 0 c.peers h2 in
        (
          print_lines (
              (codes "private_key=" ++ lib.encode_hex key)
              ∷ (codes "listen_port=" ++ print_number c.listen_port)
              ∷ codes "replace_peers=true"
              ∷ lines),
          rw (e, f) refl,
        )

  first_invalid-some : (j : ℕ) (ips : List Prefix) → first_invalid lib j (map some ips) ≡ none
  unfolding first_invalid
  first_invalid-some j [] = refl
  first_invalid-some j (a ∷ ips) = first_invalid-some (j + 1) ips

  first_invalid-or_all :
      (ips : List Prefix) (all : Prefix) → first_invalid lib 0 (or_all ips all) ≡ none
  unfolding first_invalid
  first_invalid-or_all [] all = refl
  first_invalid-or_all (a ∷ ips) all = first_invalid-some 1 ips

  module _ {Addr : Type 0} where
    -- A profile whose keys are decoded, the preshared one only if there is one, and whose MTU and
    -- keepalive are not negative, gives a kernel configuration that `Validate` accepts and that has
    -- an IPC text.
    pub to_kernel_config-ipc :
        (all : Prefix) (p : ShareProfile Prefix Addr) {private public : Bytes} {psk : Option Bytes}
        → decode_wg_key lib p.client_private_key ≡ ok private
        → decode_wg_key lib p.server_public_key ≡ ok public
        → optional_key lib 0 p.preshared_key ≡ ok psk
        → is_below_zero p.mtu ≡ false
        → is_below_zero p.persistent_keepalive ≡ false
        → (validate_kernel lib (to_kernel_config all p) ≡ ok tt)
          × ((text : Bytes) × (ipc lib (to_kernel_config all p) ≡ ok text))
    unfolding validate_kernel validate_peers validate_peer to_kernel_config
    to_kernel_config-ipc all p e f g m k =
        let accepted : validate_kernel lib (to_kernel_config all p) ≡ ok tt =
          rw (e, m, f, g, first_invalid-or_all p.allowed_ips all, k) refl in
        (accepted, validate_kernel-ipc (to_kernel_config all p) accepted)

-- Every number below ten to the twenty, and so every one of 64 bits, is printed with all its digits.
pub digits-print_number : (n : ℕ) → n < 10 ^ 20 → digits 0 (print_number n) ≡ some n
digits-print_number n h = digits-decimal 20 n h
