-- ===== src/Kernel/Cycle.antt =====
-- pkg/wgkernel/kernel.go: the life cycle of a kernel.
use wgturn_core.Prelude.{
  ℕ, ◌+◌, Bool, true, false, List, [], ◌∷◌, Option, none, some, Bytes, Result, ok, err, ◌≡◌, refl,
  sym, ap, ◌∙◌, subst, arith, err-ne-ok, ok-inj,
}
use wgturn_core.Kernel.{
  KernelConfig, KernelError, KeyFormats, validate_kernel, with_kernel_defaults, ipc,
}
use wgturn_core.Kernel.Life.{
  KernelPhase, state_new, state_started, state_stopped, WgKernel, nil_device, bad_config, StartEnv,
  start_config, stop_kernel, bring_up, with_text, checked, new_kernel, with_config, start_at,
  stop_at, start_kernel,
}

pub data KernelOp : Type 0 where
  start_op : StartEnv → KernelOp
  stop_op : KernelOp

-- The devices that run in a state.
abbrev pub running_devices : KernelPhase → ℕ
running_devices state_new = 0
running_devices state_started = 1
running_devices state_stopped = 0

-- Every device that was made is closed, but for the one of a started kernel.
abbrev pub IsBalanced : {Prefix Addr : Type 0} → WgKernel Prefix Addr → Type 0
IsBalanced k = k.devices ≡ k.closed + running_devices (k.state)

module _ {Prefix Addr : Type 0} where
  bring_up-IsBalanced :
      (accepted up : Bool) (text : Bytes) (k : WgKernel Prefix Addr)
      → k.state ≡ state_new
      → IsBalanced k
      → IsBalanced ((bring_up accepted up text k).0)
  bring_up-IsBalanced false up text k new h = omega (arith, h)
  bring_up-IsBalanced true false text k new h = omega (arith, h)
  bring_up-IsBalanced true true text k new h =
      let even : k.devices ≡ k.closed + 0 = h ∙ ap (λ s. k.closed + running_devices s) new in
      omega (arith, even)

  with_text-IsBalanced :
      (env : StartEnv) (r : Result KernelError Bytes) (k : WgKernel Prefix Addr)
      → k.state ≡ state_new
      → IsBalanced k
      → IsBalanced ((with_text env r k).0)
  with_text-IsBalanced env (err e) k new h = h
  with_text-IsBalanced env (ok text) k new h =
      bring_up-IsBalanced (env.accepts text) (env.goes_up) text k new h

  stop_at-IsBalanced :
      (s : KernelPhase) (k : WgKernel Prefix Addr)
      → k.state ≡ s
      → IsBalanced k
      → IsBalanced (stop_at s k)
  stop_at-IsBalanced state_started k e h =
      let one : k.devices ≡ k.closed + 1 = h ∙ ap (λ s. k.closed + running_devices s) e in
      omega (arith, one)
  stop_at-IsBalanced state_new k e h = h
  stop_at-IsBalanced state_stopped k e h = h

module _ {Prefix Addr : Type 0} (lib : KeyFormats Prefix) where
  with_config-IsBalanced :
      (env : StartEnv) (c : Option (KernelConfig Prefix Addr)) (k : WgKernel Prefix Addr)
      → k.state ≡ state_new
      → IsBalanced k
      → IsBalanced ((with_config lib env c k).0)
  with_config-IsBalanced env none k new h = h
  with_config-IsBalanced env (some c) k new h = with_text-IsBalanced env (ipc lib c) k new h

  start_at-IsBalanced :
      (s : KernelPhase) (done : Bool) (env : StartEnv) (k : WgKernel Prefix Addr)
      → k.state ≡ s
      → IsBalanced k
      → IsBalanced ((start_at lib s done env k).0)
  start_at-IsBalanced state_new false env k e h =
      with_config-IsBalanced env (start_config (k.with_tunnel) (env.local_addr) (k.cfg)) k e h
  start_at-IsBalanced state_new true env k e h = h
  start_at-IsBalanced state_started done env k e h = h
  start_at-IsBalanced state_stopped done env k e h = h

  abbrev pub do_op : KernelOp → WgKernel Prefix Addr → WgKernel Prefix Addr
  do_op (start_op env) k = (start_kernel lib env k).0
  do_op stop_op k = stop_kernel k

  abbrev pub do_ops : List KernelOp → WgKernel Prefix Addr → WgKernel Prefix Addr
  do_ops [] k = k
  do_ops (op ∷ ops) k = do_ops ops (do_op op k)

  do_ops-keeps :
      (ops : List KernelOp) (k : WgKernel Prefix Addr) → IsBalanced k → IsBalanced (do_ops ops k)
  unfolding start_kernel stop_kernel
  do_ops-keeps [] k h = h
  do_ops-keeps (start_op env ∷ ops) k h =
      do_ops-keeps ops (do_op (start_op env) k)
        (start_at-IsBalanced (k.state) (env.cancelled) env k refl h)
  do_ops-keeps (stop_op ∷ ops) k h =
      do_ops-keeps ops (do_op stop_op k) (stop_at-IsBalanced (k.state) k refl h)

  pub checked-new :
      (r : Result KernelError (Unit {0})) (c : KernelConfig Prefix Addr)
      (has_tun with_tunnel : Bool) (k : WgKernel Prefix Addr)
      → checked lib r c has_tun with_tunnel ≡ ok k
      → (r ≡ ok tt) × (k.cfg ≡ with_kernel_defaults c) × (k.state ≡ state_new) × IsBalanced k
  checked-new (err e) c has_tun with_tunnel k h = absurd (err-ne-ok (bad_config e) k h)
  checked-new (ok u) c false with_tunnel k h = absurd (err-ne-ok nil_device k h)
  checked-new (ok u) c true with_tunnel k h =
      let same = ok-inj h in
      (
        refl,
        ap (λ j. j.cfg) (sym same),
        ap (λ j. j.state) (sym same),
        subst (λ j. IsBalanced j) same refl,
      )

  -- From a new kernel, over any starts and stops, failed starts included, every device that was made is
  -- closed, but for the one of a started kernel.
  pub do_ops-IsBalanced :
      (c : KernelConfig Prefix Addr) (has_tun with_tunnel : Bool) (k : WgKernel Prefix Addr)
      (ops : List KernelOp)
      → new_kernel lib c has_tun with_tunnel ≡ ok k
      → IsBalanced (do_ops ops k)
  unfolding new_kernel
  do_ops-IsBalanced c has_tun with_tunnel k ops h =
      let (_, _, _, balanced) = checked-new (validate_kernel lib c) c has_tun with_tunnel k h in
      do_ops-keeps ops k balanced
