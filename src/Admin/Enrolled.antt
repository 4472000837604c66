-- ===== src/Admin/Enrolled.antt =====
-- pkg/wgadmin/server.go: what `List` shows after `Provision`.
use wgturn_core.Prelude.{
  true, false, List, [], ◌∷◌, ◌++◌, map, Option, some, Bytes, codes, Result, ok, ◌>>=◌, ok-inj, All,
  All-append, ◌≡◌, refl, sym, ◌∙◌, ap,
}
use mathlib.Core.List.{append_assoc}
use wgturn_core.Tunnel.{is_nil}
use wgturn_core.Admin.Allocate.{Address, bit_len, allocate_client_ip}
use wgturn_core.Admin.File.Text.{Clean, is_clean, is_clean-Clean, NoReturn, scan_lines-print_lines}
use wgturn_core.Admin.File.Replay.{scan_all-append}
use wgturn_core.Admin.File.RoundTrip.{ReadsBack, parse_conf-ReadsBack, scan-ReadsBack, lines-Clean}
use wgturn_core.Admin.File.{
  AdminPeer, ConfState, name_tag, parse_ips, parse_conf, write_conf, blocks, block, format_peer,
  key_lines, join_ips, scan_start, finish,
}
use wgturn_core.Admin.Clients.{read_state-IsRead, IsRead-read_state, provision-Provisioned}
use wgturn_core.Admin.Relist.{some-inj, list_peers-read}
use wgturn_core.Admin.Enroll.{IsField, new_lines, scan-new_peer}
use wgturn_core.Admin.{
  Prefixes, AdminServer, AdminError, Profile, Keypair, Outside, client, provision, list_peers,
  shown, existing_peer_addrs, single_addresses,
}

-- A tag that is clean in front of a value.
tagged-Clean : (tag v : Bytes) → is_clean tag ≡ true → Clean v → Clean (tag ++ v)
tagged-Clean tag v h k = All-append _ tag v (is_clean-Clean tag h) k

module _ {Prefix : Type 0} (net : Prefixes Prefix) where
  blocks-append :
      (xs ys : List (AdminPeer Prefix))
      → blocks net.show (xs ++ ys) ≡ blocks net.show xs ++ blocks net.show ys
  unfolding blocks
  blocks-append [] ys = refl
  blocks-append (x ∷ xs) ys =
      ap (λ y. block net.show x x.raw_lines ++ y) (blocks-append xs ys)
      ∙ sym (append_assoc (block net.show x x.raw_lines) (blocks net.show xs) (blocks net.show ys))

  -- A peer that has no lines is written by `formatPeer`.
  blocks-client :
      (name psk : Bytes) (keys : Keypair) (a : Address)
      → is_nil name ≡ false
      → is_nil psk ≡ false
      → blocks net.show (client net name keys psk a ∷ [])
        ≡ []
          ∷ codes "[Peer]"
          ∷ new_lines name keys.public psk (net.show (net.lib.prefix_from a (bit_len a)))
  unfolding blocks format_peer key_lines join_ips
  blocks-client name psk keys a h k = rw (h, k) refl

  new_lines-Clean :
      (name key psk ips : Bytes)
      → Clean name
      → Clean key
      → Clean psk
      → Clean ips
      → All Clean ([] ∷ codes "[Peer]" ∷ new_lines name key psk ips)
  new_lines-Clean name key psk ips hn hk hp hi =
      All-append Clean ([] ∷ codes "[Peer]" ∷ []) (new_lines name key psk ips)
        (tt, (is_clean-Clean (codes "[Peer]") refl, tt))
        (
          tagged-Clean (name_tag ++ (32 ∷ [])) name refl hn,
          (
            tagged-Clean (codes "PublicKey = ") key refl hk,
            (
              tagged-Clean (codes "PresharedKey = ") psk refl hp,
              (tagged-Clean (codes "AllowedIPs = ") ips refl hi, tt),
            ),
          ),
        )

  existing_peer_addrs-shown :
      (ps : List (AdminPeer Prefix))
      → existing_peer_addrs net (map shown ps) ≡ existing_peer_addrs net ps
  unfolding existing_peer_addrs
  existing_peer_addrs-shown [] = refl
  existing_peer_addrs-shown (p ∷ ps) =
      ap (λ y. single_addresses net p.allowed_ips ++ y) (existing_peer_addrs-shown ps)

  -- The file of a state with a new peer, parsed.
  parse-enrolled :
      (st : ConfState Prefix) (name psk : Bytes) (keys : Keypair) (a : Address)
      → ReadsBack net.lib net.show st
      → IsField name
      → IsField keys.public
      → IsField psk
      → IsField (net.show (net.lib.prefix_from a (bit_len a)))
      → parse_ips net.lib (net.show (net.lib.prefix_from a (bit_len a)))
        ≡ some (net.lib.prefix_from a (bit_len a) ∷ [])
      → (st' : ConfState Prefix) × (parse_conf net.lib (
            write_conf net.show
              (record st { peers = st.peers ++ (client net name keys psk a ∷ []) }))
          ≡ ok st')
        × (st'.private_key ≡ st.private_key)
        × (map shown st'.peers ≡ map shown st.peers ++ (client net name keys psk a ∷ []))
  unfolding parse_conf write_conf
  parse-enrolled st name psk keys a v fn fk fp fi h =
      let ips = net.show (net.lib.prefix_from a (bit_len a)) in
      let fresh : List Bytes = [] ∷ codes "[Peer]" ∷ new_lines name keys.public psk ips in
      let old : List Bytes = st.header ++ blocks net.show st.peers in
      let lines : st.header ++ blocks net.show (st.peers ++ (client net name keys psk a ∷ []))
          ≡ old ++ fresh =
        ap (λ y. st.header ++ y)
          (blocks-append st.peers (client net name keys psk a ∷ [])
            ∙ ap (λ y. blocks net.show st.peers ++ y)
                (blocks-client name psk keys a fn.filled fp.filled))
        ∙ sym (append_assoc st.header (blocks net.show st.peers) fresh) in
      let clean =
        All-append Clean old fresh (lines-Clean net.lib net.show st v)
          (new_lines-Clean name keys.public psk ips fn.clean fk.clean fp.clean fi.clean) in
      let (t, e, f) = scan-ReadsBack net.lib net.show st v in
      let (t', e', kept, more) =
        scan-new_peer net.lib net.show t name keys.public psk ips
          (net.lib.prefix_from a (bit_len a)) fn fk fp fi h in
      (
        finish net.lib t',
        rw
            (
              lines,
              scan_lines-print_lines (old ++ fresh) clean,
              scan_all-append net.lib scan_start old fresh e,
              e',
            )
            refl,
        kept ∙ ap (λ y. y.private_key) f,
        more ∙ ap (λ y. map shown y.peers ++ (client net name keys psk a ∷ [])) f,
      )

  -- If the file holds no carriage return, and `List` gives some peers, and the address for a new
  -- peer is shown as a text that is parsed as it, and the name and the generated keys are trimmed,
  -- not empty and within one line, and `Provision` succeeds, then `List` gives the same peers and
  -- the new one behind them.
  pub list-provision :
      (s : AdminServer Prefix) (out : Outside) (file name psk : Bytes) (keys : Keypair)
      (ps : List (AdminPeer Prefix)) (a : Address) {disk' : Option Bytes} {profile : Profile Prefix}
      → NoReturn file
      → list_peers net s (some file) ≡ ok ps
      → allocate_client_ip s.subnet s.server_address (existing_peer_addrs net ps) ≡ ok a
      → IsField (net.show (net.lib.prefix_from a (bit_len a)))
      → parse_ips net.lib (net.show (net.lib.prefix_from a (bit_len a)))
        ≡ some (net.lib.prefix_from a (bit_len a) ∷ [])
      → out.keypair ≡ some keys
      → out.preshared ≡ some psk
      → IsField name
      → IsField keys.public
      → IsField psk
      → provision net s out (some file) name ≡ (disk', ok profile)
      → list_peers net s disk' ≡ ok (ps ++ (client net name keys psk a ∷ []))
  unfolding list_peers
  list-provision s out file name psk keys ps a {disk' = disk'} clean l al fi pi ek ep fn fk fp h =
      let v = provision-Provisioned net s out (some file) name h in
      let (st, e, same) = list_peers-read net s (some file) l in
      let r = read_state-IsRead net s (some file) e in
      let own : file ≡ r.file = some-inj r.opened in
      let back =
        parse_conf-ReadsBack net.lib net.show file clean (ap (parse_conf net.lib) own ∙ r.parses) in
      let state_same : v.state ≡ st = ok-inj (sym v.was_read ∙ e) in
      let keys_same : v.keys ≡ keys = some-inj (sym v.keys_given ∙ ek) in
      let psk_same : v.psk ≡ psk = some-inj (sym v.psk_given ∙ ep) in
      let given : allocate_client_ip s.subnet s.server_address (existing_peer_addrs net st.peers)
          ≡ ok a =
        ap (allocate_client_ip s.subnet s.server_address)
          (sym (existing_peer_addrs-shown st.peers) ∙ ap (existing_peer_addrs net) same)
        ∙ al in
      let addr_same : v.addr ≡ a = ok-inj (
        sym v.given
        ∙ ap (λ y. allocate_client_ip s.subnet s.server_address (existing_peer_addrs net y.peers))
            state_same
        ∙ given) in
      let (st', parses, kept, more) = parse-enrolled st name psk keys a back fn fk fp fi pi in
      let wrote : disk'
          ≡ some (
              write_conf net.show
                (record st { peers = st.peers ++ (client net name keys psk a ∷ []) })) =
        v.written ∙ cc in
      let read = IsRead-read_state net s _ st' r.path parses (ap is_nil kept ∙ r.keyed) in
      ap (list_peers net s) wrote
      ∙ ap (λ (y : Result AdminError (ConfState Prefix)). y >>= λ x. ok (map shown x.peers)) read
      ∙ ap (λ y. ok y) (more ∙ ap (λ y. y ++ (client net name keys psk a ∷ [])) same)
