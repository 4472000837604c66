-- ===== src/Share/Tests.antt =====
-- Runs of the share links, and the properties at a concrete profile.
use wgturn_core.Prelude.{
  some-inj, ◌+◌, ◌-◌, true, [], ◌∷◌, ◌++◌, map, none, some, Bytes, codes, contains, equal,
  has_prefix, ok, err, ◌>>=◌, All, ◌≡◌, ◌≢◌, refl, ap, arith, if◌then◌else◌,
}
use wgturn_core.Conf.Strings.{cut_byte}
use wgturn_core.Tunnel.HostPort.{split_host_port}
use wgturn_core.Tunnel.{validate}
use wgturn_core.Conf.Lift.{supply}
use wgturn_core.Share.Convert.{parse_url-validate}
use wgturn_core.Share.RoundTrip.{IsReadable, parse_url-encode, parse_url-valid}
use wgturn_core.Share.{
  pos, negsuc, whole_seconds, duration_of, ShareProfile, WireFormat, Formats, parse_texts,
  validate_profile, to_wire, encode, parse_address, from_wire, parse_payload, parse_url,
  scheme_prefix, share_to_tunnel_config, missing_scheme, empty_payload,
}

-- Bytes moved past the number sign, for base64.
abbrev shift : Bytes → Bytes
shift s = map (λ c. c + 36) s

abbrev unshift : Bytes → Bytes
unshift s = map (λ c. c - 36) s

unshift-shift : (s : Bytes) → unshift (shift s) ≡ s
unshift-shift [] = refl
unshift-shift (c ∷ s) =
    let same : c + 36 - 36 ≡ c = omega arith in rw (same) (ap (λ y. c ∷ y) (unshift-shift s))

shift-no_hash : (s : Bytes) → All (λ c. c ≢ 35) (shift s)
shift-no_hash [] = tt
shift-no_hash (c ∷ s) = ((λ e. omega arith), shift-no_hash s)

abbrev some_profile : ShareProfile Bytes Bytes
some_profile = record {
  label = codes "bob";
  server_public_key = codes "SERVER";
  client_private_key = codes "PRIV";
  preshared_key = [];
  endpoint = codes "h:56000";
  address = some (codes "10.7.0.3/24");
  allowed_ips = codes "0.0.0.0/0" ∷ [];
  dns = codes "9.9.9.9" ∷ [];
  mtu = pos 1280;
  persistent_keepalive = pos 25500000000;
}

abbrev some_wire : WireFormat
some_wire = record {
  v = pos 1;
  sp = codes "SERVER";
  cp = codes "PRIV";
  psk = [];
  ep = codes "h:56000";
  ad = codes "10.7.0.3/24";
  ai = codes "0.0.0.0/0" ∷ [];
  dns = codes "9.9.9.9" ∷ [];
  mtu = pos 1280;
  ka = pos 25;
}

-- Prefixes and addresses as their texts, and the payload of one profile.
abbrev text_formats : Formats Bytes Bytes
text_formats = record {
  marshal = λ w. w.sp ++ w.cp;
  unmarshal = λ s. if equal s (codes "SERVERPRIV") then some some_wire else none;
  encode64 = shift;
  decode64 = λ s. some (unshift s);
  escape = λ s. s;
  unescape = λ s. some s;
  show_prefix = λ t. t;
  parse_prefix = λ t. if contains t (codes "/") then some t else none;
  show_addr = λ t. t;
  parse_addr = λ t. if contains t (codes ".") then some t else none;
}

to_wire_some : to_wire text_formats some_profile ≡ some_wire
unfolding to_wire whole_seconds
to_wire_some = refl

some_profile-IsReadable : IsReadable text_formats some_profile
unfolding to_wire whole_seconds equal contains has_prefix
some_profile-IsReadable = record {
  json = refl;
  base64 = λ s. ap (λ y. some y) (unshift-shift s);
  no_hash = shift-no_hash;
  filled = refl;
  label_back = refl;
  address_back = λ a e. rw (← some-inj e) refl;
  address_filled = λ a e. rw (← some-inj e) refl;
  ips_back = (refl, tt);
  dns_back = (refl, tt);
}

some_profile-valid : validate_profile some_profile ≡ none
unfolding validate_profile
some_profile-valid = refl

parse_url-encode_example :
    (encode text_formats some_profile >>= λ s. parse_url text_formats s)
    ≡ ok (record some_profile { persistent_keepalive = pos 25000000000 })
unfolding duration_of whole_seconds
parse_url-encode_example =
    parse_url-encode text_formats some_profile some_profile-IsReadable some_profile-valid

abbrev some_url : Bytes
some_url = codes "wgturn://" ++ (shift (codes "SERVERPRIV") ++ codes "#bob")

some_url-parsed :
    parse_url text_formats some_url
    ≡ ok (record some_profile { persistent_keepalive = pos 25000000000 })
unfolding parse_url parse_payload from_wire parse_address parse_texts validate_profile duration_of
    has_prefix cut_byte equal contains
some_url-parsed = refl

parsed_is_valid :
    (validate_profile (record some_profile { persistent_keepalive = pos 25000000000 }) ≡ none)
    × (has_prefix some_url scheme_prefix ≡ true)
parsed_is_valid = parse_url-valid text_formats some_url some_url-parsed

parse_url-validate_example :
    validate (
      supply (
        share_to_tunnel_config
          (record some_profile { persistent_keepalive = pos 25000000000 })
          (codes "link")))
    ≡ none
unfolding split_host_port
parse_url-validate_example = parse_url-validate text_formats some_url (codes "link") some_url-parsed

-- A keepalive in seconds that does not fit a duration becomes a negative one.
long_keepalive : duration_of (pos 9223372037) ≡ negsuc 9223372036709551615
unfolding duration_of
long_keepalive = refl

refused_urls :
    (parse_url text_formats (codes "https://x") ≡ err missing_scheme)
    × (parse_url text_formats (codes "wgturn://#bob") ≡ err empty_payload)
unfolding parse_url parse_payload has_prefix cut_byte
refused_urls = (refl, refl)
