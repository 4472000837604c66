-- ===== src/Kernel/Applied.antt =====
-- pkg/wgkernel/kernel.go: the text that `Start` gives to the device.
use wgturn_core.Prelude.{
  none-ne-some, some-inj, ℕ, zero, suc, ◌+◌, Bool, true, false, List, [], ◌∷◌, map, Option, none,
  some, Bytes, ok, >>=-ok, ◌≡◌, ◌≢◌, Result, err, refl, sym, ap, ◌∙◌, subst,
}
use wgturn_core.Share.{ℤ, pos, negsuc}
use wgturn_core.Kernel.{
  KernelPeer, KernelConfig, KeyFormats, validate_peer, validate_peers, validate_kernel,
  with_kernel_defaults, kernel_mtu, ipc, is_below_zero, at_place, bad_private_key, decode_wg_key,
  refuse_if, negative_mtu,
}
use wgturn_core.Kernel.Ipc.{validate_kernel-ipc}
use wgturn_core.Kernel.Life.{
  state_new, state_started, KernelStartError, ipc_set, device_up, WgKernel, StartEnv, to_endpoint,
  through, start_config, bring_up, with_text, new_kernel, with_config, start_at, start_kernel,
}
use wgturn_core.Kernel.Cycle.{checked-new}

is_below_zero-kernel_mtu : (z : ℤ) → is_below_zero (kernel_mtu z) ≡ is_below_zero z
is_below_zero-kernel_mtu (pos zero) = refl
is_below_zero-kernel_mtu (pos (suc n)) = refl
is_below_zero-kernel_mtu (negsuc n) = refl

module _ {Prefix : Type 0} (lib : KeyFormats Prefix) where
  -- The endpoints do not matter to the checks.
  validate_peers-to_endpoint :
      (addr : Bytes) (i : ℕ) (ps : List (KernelPeer Prefix))
      → validate_peers lib i ps ≡ ok tt
      → validate_peers lib i (map (to_endpoint addr) ps) ≡ ok tt
  unfolding validate_peers validate_peer
  validate_peers-to_endpoint addr i [] h = refl
  validate_peers-to_endpoint addr i (p ∷ ps) h =
      let (u, e, more) = >>=-ok (validate_peer lib i p) _ h in
      rw (e) (validate_peers-to_endpoint addr (i + 1) ps more)

  module _ {Addr : Type 0} where
    validate_kernel-with_defaults :
        (c : KernelConfig Prefix Addr)
        → validate_kernel lib c ≡ ok tt
        → validate_kernel lib (with_kernel_defaults c) ≡ ok tt
    unfolding validate_kernel
    validate_kernel-with_defaults c h = rw (is_below_zero-kernel_mtu (c.mtu)) h

    validate_kernel-through :
        (addr : Bytes) (c : KernelConfig Prefix Addr)
        → validate_kernel lib c ≡ ok tt
        → validate_kernel lib (through addr c) ≡ ok tt
    unfolding validate_kernel
    validate_kernel-through addr c h =
        let (key, e, h1) =
          >>=-ok (at_place bad_private_key (decode_wg_key lib (c.private_key))) _ h in
        let (u, e1, h2) = >>=-ok (refuse_if (is_below_zero (c.mtu)) negative_mtu) _ h1 in
        rw (e, e1) (validate_peers-to_endpoint addr 0 (c.peers) h2)

    start_config-valid :
        (with_tunnel : Bool) (addr : Option Bytes) (c applied : KernelConfig Prefix Addr)
        → validate_kernel lib c ≡ ok tt
        → start_config with_tunnel addr c ≡ some applied
        → validate_kernel lib applied ≡ ok tt
    start_config-valid false addr c applied v h =
        subst (λ d. validate_kernel lib d ≡ ok tt) (some-inj h) v
    start_config-valid true none c applied v h = absurd (none-ne-some h)
    start_config-valid true (some a) c applied v h =
        subst (λ d. validate_kernel lib d ≡ ok tt) (some-inj h) (validate_kernel-through a c v)

    -- The text of the configuration that a start applies.
    start_kernel-builds :
        (c : KernelConfig Prefix Addr) (has_tun with_tunnel : Bool) (k : WgKernel Prefix Addr)
        (env : StartEnv) (applied : KernelConfig Prefix Addr)
        → new_kernel lib c has_tun with_tunnel ≡ ok k
        → env.cancelled ≡ false
        → start_config (k.with_tunnel) (env.local_addr) (k.cfg) ≡ some applied
        → (text : Bytes) × (ipc lib applied ≡ ok text)
          × (start_kernel lib env k ≡ bring_up (env.accepts text) (env.goes_up) text k)
    unfolding new_kernel start_kernel
    start_kernel-builds c has_tun with_tunnel k env applied made live at =
        let (valid, cfg, new, _) =
          checked-new lib (validate_kernel lib c) c has_tun with_tunnel k made in
        let checked_cfg : validate_kernel lib (k.cfg) ≡ ok tt =
          subst (λ d. validate_kernel lib d ≡ ok tt) (sym cfg)
            (validate_kernel-with_defaults c valid) in
        let (text, built) =
          validate_kernel-ipc lib applied
            (start_config-valid (k.with_tunnel) (env.local_addr) (k.cfg) applied checked_cfg at) in
        (
          text,
          built,
          ap (λ s. start_at lib s (env.cancelled) env k) new
              ∙ (ap (λ d. start_at lib state_new d env k) live
                  ∙ (ap (λ a. with_config lib env a k) at ∙ ap (λ t. with_text env t k) built)),
        )

-- A peer as it is applied behind a tunnel: its endpoint is the tunnel's address, all else is its own.
pub record Redirected {Prefix : Type 0} (addr : Bytes) (p q : KernelPeer Prefix) : Type 0 where
  pub at_tunnel : q.endpoint ≡ addr
  pub same_key : q.public_key ≡ p.public_key
  pub same_preshared : q.preshared_key ≡ p.preshared_key
  pub same_allowed : q.allowed_ips ≡ p.allowed_ips
  pub same_keepalive : q.persistent_keepalive ≡ p.persistent_keepalive

-- The peers in their order, each redirected.
abbrev pub AllRedirected :
    {Prefix : Type 0} → Bytes → List (KernelPeer Prefix) → List (KernelPeer Prefix) → Type 0
AllRedirected addr [] [] = Unit {0}
AllRedirected addr [] (q ∷ qs) = ⊥
AllRedirected addr (p ∷ ps) [] = ⊥
AllRedirected addr (p ∷ ps) (q ∷ qs) = Redirected addr p q × AllRedirected addr ps qs

to_endpoint-AllRedirected :
    {Prefix : Type 0} (addr : Bytes) (ps : List (KernelPeer Prefix))
    → AllRedirected addr ps (map (to_endpoint addr) ps)
to_endpoint-AllRedirected addr [] = tt
to_endpoint-AllRedirected addr (p ∷ ps) = (
  record {
    at_tunnel = refl;
    same_key = refl;
    same_preshared = refl;
    same_allowed = refl;
    same_keepalive = refl;
  },
  to_endpoint-AllRedirected addr ps,
)

-- What is applied: without a tunnel the configuration of the kernel, and with one that has the address
-- `addr` the same with every peer redirected to it.
pub record Applies {Prefix Addr : Type 0} (with_tunnel : Bool) (local_addr : Option Bytes)
    (own applied : KernelConfig Prefix Addr) : Type 0 where
  pub key : applied.private_key ≡ own.private_key
  pub port : applied.listen_port ≡ own.listen_port
  pub direct : with_tunnel ≡ false → applied.peers ≡ own.peers
  pub tunneled :
      with_tunnel ≡ true
      → (addr : Bytes) × (local_addr ≡ some addr) × AllRedirected addr (own.peers) (applied.peers)

-- What the start of a kernel `k` gives with a text that was built: the device refuses it or does not go
-- up, is closed, and the kernel is as before; or the kernel is started with it.
pub data Brought {Prefix Addr : Type 0} (env : StartEnv) (text : Bytes) (k : WgKernel Prefix Addr)
    (k' : WgKernel Prefix Addr) (r : Result KernelStartError (Unit {0})) : Type 0 where
  refused :
      env.accepts text ≡ false
      → k' ≡ record k { devices = k.devices + 1; closed = k.closed + 1 }
      → r ≡ err ipc_set
      → Brought env text k k' r
  stays_down :
      env.accepts text ≡ true
      → env.goes_up ≡ false
      → k' ≡ record k { devices = k.devices + 1; closed = k.closed + 1 }
      → r ≡ err device_up
      → Brought env text k k' r
  runs :
      env.accepts text ≡ true
      → env.goes_up ≡ true
      → k' ≡ record k { state = state_started; applied = text; devices = k.devices + 1 }
      → r ≡ ok tt
      → Brought env text k k' r

module _ {Prefix Addr : Type 0} where
  start_config-Applies :
      (with_tunnel : Bool) (local_addr : Option Bytes) (own : KernelConfig Prefix Addr)
      → (with_tunnel ≡ true → local_addr ≢ none)
      → (applied : KernelConfig Prefix Addr) × (start_config with_tunnel local_addr own
          ≡ some applied)
        × Applies with_tunnel local_addr own applied
  start_config-Applies false local_addr own h =
      (own, refl, record { key = refl; port = refl; direct = λ e. refl; tunneled = λ e. cc })
  start_config-Applies true none own h = absurd (h refl refl)
  start_config-Applies true (some addr) own h = (
    through addr own,
    refl,
    record {
      key = refl;
      port = refl;
      direct = λ e. cc;
      tunneled = λ e. (addr, refl, to_endpoint-AllRedirected addr (own.peers));
    },
  )

  bring_up-Brought :
      (env : StartEnv) (text : Bytes) (k : WgKernel Prefix Addr) (a u : Bool)
      → env.accepts text ≡ a
      → env.goes_up ≡ u
      → Brought env text k ((bring_up a u text k).0) ((bring_up a u text k).1)
  bring_up-Brought env text k false u e f = refused e refl refl
  bring_up-Brought env text k true false e f = stays_down e f refl refl
  bring_up-Brought env text k true true e f = runs e f refl refl

  -- The first start of a kernel that `New` made, with a context that is not done and, where there is a
  -- tunnel, with its address, never fails to build the text: the text is the one of a configuration with
  -- the kernel's key, port and peers, each peer redirected to the tunnel's address where there is a tunnel.
  -- The device then refuses it, does not go up, or the kernel is started with it.
  pub start_kernel-Applies :
      (lib : KeyFormats Prefix) (c : KernelConfig Prefix Addr) (has_tun with_tunnel : Bool)
      (k : WgKernel Prefix Addr) (env : StartEnv)
      → new_kernel lib c has_tun with_tunnel ≡ ok k
      → env.cancelled ≡ false
      → (k.with_tunnel ≡ true → env.local_addr ≢ none)
      → (applied : KernelConfig Prefix Addr) × (text : Bytes) × Applies
          (k.with_tunnel)
          (env.local_addr)
          (k.cfg)
          applied
        × (ipc lib applied ≡ ok text)
        × Brought env text k ((start_kernel lib env k).0) ((start_kernel lib env k).1)
  start_kernel-Applies lib c has_tun with_tunnel k env made live has_addr =
      let (applied, at, applies) =
        start_config-Applies (k.with_tunnel) (env.local_addr) (k.cfg) has_addr in
      let (text, built, same) =
        start_kernel-builds lib c has_tun with_tunnel k env applied made live at in
      (
        applied,
        text,
        applies,
        built,
        subst (λ r. Brought env text k (r.0) (r.1)) (sym same)
            (bring_up-Brought env text k (env.accepts text) (env.goes_up) refl refl),
      )
