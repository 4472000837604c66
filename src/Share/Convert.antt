-- ===== src/Share/Convert.antt =====
-- pkg/wgshare/convert.go: the tunnel's configuration of a parsed link.
use wgturn_core.Prelude.{
  false, none, some, Bytes, equal, ok, ◌≡◌, refl, Bool-cases, inl, inr, arith, if◌then◌else◌,
}
use wgturn_core.Tunnel.HostPort.{split_host_port}
use wgturn_core.Tunnel.{is_nil, is_split, is_peer_type, first_problem, validate, bad_peer_addr}
use wgturn_core.Conf.Lift.{supply}
use wgturn_core.Share.RoundTrip.{parse_url-valid}
use wgturn_core.Share.{ShareProfile, Formats, validate_profile, parse_url, share_to_tunnel_config}

module _ {Prefix Addr : Type 0} where
  validate_profile-endpoint :
      (p : ShareProfile Prefix Addr) → validate_profile p ≡ none → is_nil p.endpoint ≡ false
  unfolding validate_profile
  validate_profile-endpoint p h = ground arith

  -- Of the configuration for a parsed link, once a provider and a protector are set, `Validate` finds
  -- nothing if the endpoint is split into host and port, and otherwise that it is not.
  pub parse_url-validate :
      (lib : Formats Prefix Addr) (s vk_link : Bytes) {p : ShareProfile Prefix Addr}
      → parse_url lib s ≡ ok p
      → validate (supply (share_to_tunnel_config p vk_link))
        ≡ (if is_split p.endpoint then none else some bad_peer_addr)
  unfolding validate first_problem share_to_tunnel_config is_peer_type split_host_port equal
  parse_url-validate lib s vk_link {p = p} h =
      let filled = validate_profile-endpoint p (parse_url-valid lib s h).0 in
      elim (Bool-cases (is_split p.endpoint)) [
        | inl e ↦ rw (filled, e) refl
        | inr e ↦ rw (filled, e) refl
      ]
