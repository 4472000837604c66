-- ===== src/Kernel/Tests.antt =====
-- Runs of the kernel's configuration, and the properties at a concrete one.
use wgturn_core.Kernel.Life.{
  WgKernel, state_new, StartEnv, new_kernel, start_kernel, no_stats, stats_lines, listen_port_line,
}
use wgturn_core.Kernel.Cycle.{KernelOp, start_op, stop_op, do_ops, IsBalanced, do_ops-IsBalanced}
use wgturn_core.Kernel.Applied.{start_kernel-Applies, Applies, Brought}
use wgturn_core.Kernel.Stats.{Reported, report, all_stats, stats_lines-report}
use wgturn_core.Prelude.{
  ◌++◌, has_prefix, arith, true, false, List, ℕ, zero, suc, [], ◌∷◌, none, some, Bytes, codes, ok,
  err, ◌≡◌, refl,
}
use wgturn_core.Conf.Strings.{trim_left, trim_right, trim_space}
use wgturn_core.Admin.File.{print_lines}
use wgturn_core.Share.{pos, ShareProfile}
use wgturn_core.Kernel.Ipc.{validate_kernel-ipc, to_kernel_config-ipc}
use wgturn_core.Kernel.{
  with_kernel_defaults, clamp_mtu, KernelConfig, KeyFormats, decimal, decode_trimmed, decode_wg_key,
  first_invalid, optional_key, validate_peer, validate_peers, ip_lines, peer_lines_of, ipc_peers,
  validate_kernel, ipc, to_kernel_config, key_length, empty_key,
}

-- A key of 44 bytes is its first 32 bytes, and hex is not accepted; a key is written as one letter.
abbrev head_bytes : ℕ → Bytes → Bytes
head_bytes zero s = []
head_bytes (suc n) [] = []
head_bytes (suc n) (c ∷ s) = c ∷ head_bytes n s

abbrev text_keys : KeyFormats Bytes
text_keys = record {
  decode_hex = λ s. none;
  decode_base64 = λ s. some (head_bytes 32 s);
  encode_hex = λ k. head_bytes 1 k;
  show_prefix = λ a. elim a [ none ↦ codes "invalid Prefix" | some t ↦ t ];
}

abbrev key_a : Bytes
key_a = codes "aaaaaaaaaaaaaaaaaaaaaaaaaaaaaaaaaaaaaaaaaaa="

abbrev key_b : Bytes
key_b = codes "bbbbbbbbbbbbbbbbbbbbbbbbbbbbbbbbbbbbbbbbbbb="

abbrev some_profile : ShareProfile Bytes Bytes
some_profile = record {
  label = [];
  server_public_key = key_b;
  client_private_key = key_a;
  preshared_key = [];
  endpoint = codes "h:56000";
  address = some (codes "10.7.0.3/24");
  allowed_ips = [];
  dns = [];
  mtu = pos 1280;
  persistent_keepalive = pos 500000000;
}

abbrev some_kernel : KernelConfig Bytes Bytes
some_kernel = to_kernel_config (codes "0.0.0.0/0") some_profile

some_kernel-accepted : validate_kernel text_keys some_kernel ≡ ok tt
unfolding validate_kernel validate_peers validate_peer first_invalid optional_key decode_wg_key
    decode_trimmed trim_space trim_left trim_right to_kernel_config
some_kernel-accepted = refl

validate_kernel-ipc_runs : (text : Bytes) × (ipc text_keys some_kernel ≡ ok text)
validate_kernel-ipc_runs = validate_kernel-ipc text_keys some_kernel some_kernel-accepted

key_a-decoded : decode_wg_key text_keys key_a ≡ ok (head_bytes 32 key_a)
unfolding decode_wg_key decode_trimmed trim_space trim_left trim_right
key_a-decoded = refl

key_b-decoded : decode_wg_key text_keys key_b ≡ ok (head_bytes 32 key_b)
unfolding decode_wg_key decode_trimmed trim_space trim_left trim_right
key_b-decoded = refl

no_preshared : optional_key text_keys 0 [] ≡ ok none
unfolding optional_key
no_preshared = refl

to_kernel_config-ipc_runs :
    (validate_kernel text_keys some_kernel ≡ ok tt)
    × ((text : Bytes) × (ipc text_keys some_kernel ≡ ok text))
to_kernel_config-ipc_runs =
    to_kernel_config-ipc text_keys (codes "0.0.0.0/0") some_profile key_a-decoded key_b-decoded
      no_preshared refl refl

-- A keepalive of half a nanoseconds is written as an interval of zero, which turns it off.
short_keepalive :
    ipc text_keys some_kernel
    ≡ ok (
        print_lines (
          codes "private_key=a"
          ∷ codes "listen_port=0"
          ∷ codes "replace_peers=true"
          ∷ codes "public_key=b"
          ∷ codes "persistent_keepalive_interval=0"
          ∷ codes "replace_allowed_ips=true"
          ∷ codes "allowed_ip=0.0.0.0/0"
          ∷ []))
unfolding ipc ipc_peers peer_lines_of ip_lines decimal first_invalid optional_key decode_wg_key
    decode_trimmed trim_space trim_left trim_right to_kernel_config print_lines
short_keepalive = refl

clamped : (clamp_mtu (pos 0) ≡ 1280) × (clamp_mtu (pos 1400) ≡ 1380) × (clamp_mtu (pos 1300) ≡ 1300)
unfolding clamp_mtu
clamped = (refl, refl, refl)

refused_keys :
    (decode_wg_key text_keys (codes "  ") ≡ err empty_key)
    × (decode_wg_key text_keys (codes "abc") ≡ err key_length)
unfolding decode_wg_key decode_trimmed trim_space trim_left trim_right
refused_keys = (refl, refl)

abbrev made : WgKernel Bytes Bytes
made = record {
  cfg = with_kernel_defaults some_kernel;
  with_tunnel = true;
  state = state_new;
  applied = [];
  devices = 0;
  closed = 0;
}

abbrev refusing : StartEnv
refusing = record {
  cancelled = false;
  local_addr = some (codes "1:2");
  accepts = λ text. false;
  goes_up = true;
}

abbrev working : StartEnv
working = record refusing { accepts = λ text. true }

-- A start that the device refuses, one that succeeds, one too many, and two stops.
abbrev some_ops : List KernelOp
some_ops = start_op refusing ∷ start_op working ∷ start_op working ∷ stop_op ∷ stop_op ∷ []

do_ops-IsBalanced_example : IsBalanced (do_ops text_keys some_ops made)
unfolding new_kernel validate_kernel validate_peers validate_peer first_invalid optional_key
    decode_wg_key decode_trimmed trim_space trim_left trim_right to_kernel_config
do_ops-IsBalanced_example = do_ops-IsBalanced text_keys some_kernel true true made some_ops refl

start_kernel-Applies_example :
    (applied : KernelConfig Bytes Bytes) × (text : Bytes) × Applies true
      (some (codes "1:2"))
      (made.cfg)
      applied
    × (ipc text_keys applied ≡ ok text)
    × Brought working text made
        ((start_kernel text_keys working made).0)
        ((start_kernel text_keys working made).1)
unfolding new_kernel validate_kernel validate_peers validate_peer first_invalid optional_key
    decode_wg_key decode_trimmed trim_space trim_left trim_right to_kernel_config
start_kernel-Applies_example =
    start_kernel-Applies text_keys some_kernel true true made working refl refl (λ e. cc)

-- The lines of a device with two peers, as wireguard-go writes them.
abbrev interface_lines : List Bytes
interface_lines = codes "private_key=1" ∷ codes "listen_port=518" ∷ []

abbrev reported : List Reported
reported =
    (record {
      key = codes "ab";
      before = codes "preshared_key=00" ∷ codes "protocol_version=1" ∷ codes "endpoint=1" ∷ [];
      handshake = 7;
      between = codes "last_handshake_time_nsec=0" ∷ [];
      tx = 20;
      rx = 300;
      behind = codes "persistent_keepalive_interval=25" ∷ codes "allowed_ip=0/0" ∷ [];
    })
    ∷ (record {
      key = codes "cd";
      before = [];
      handshake = 0;
      between = codes "last_handshake_time_nsec=0" ∷ [];
      tx = 18446744073709551615;
      rx = 0;
      behind = [];
    })
    ∷ []

stats_lines-report_example :
    stats_lines no_stats (interface_lines ++ report reported) ≡ all_stats reported
unfolding has_prefix
stats_lines-report_example =
    stats_lines-report interface_lines reported
      ((refl, refl, refl, refl), ((refl, refl, refl, refl), tt))
      (
        (
          refl,
          ((refl, refl, refl, refl), ((refl, refl, refl, refl), ((refl, refl, refl, refl), tt))),
          ((refl, refl, refl, refl), tt),
          ((refl, refl, refl, refl), ((refl, refl, refl, refl), tt)),
          omega arith,
          omega arith,
          omega arith,
        ),
        ((refl, tt, ((refl, refl, refl, refl), tt), tt, omega arith, omega arith, omega arith), tt),
      )

port_found :
    listen_port_line (codes "private_key=1" ∷ codes "listen_port=518" ∷ []) ≡ some (codes "518")
unfolding listen_port_line has_prefix
port_found = refl
