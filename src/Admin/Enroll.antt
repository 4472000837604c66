-- ===== src/Admin/Enroll.antt =====
-- pkg/wgadmin/wgconf.go: the block of a new peer, as `formatPeer` writes it and `parseConf` reads it.
use wgturn_core.Prelude.{
  true, false, List, [], ◌∷◌, ◌++◌, map, some, Bytes, codes, equal, equal_refl, has_prefix, ok, ◌≡◌,
  refl, sym, ◌∙◌, ap,
}
use mathlib.Core.List.{map-append, append-nil}
use wgturn_core.Tunnel.{is_nil}
use wgturn_core.Conf.Strings.{trim_space, trim_left, trim_right, to_lower, cut_byte, ends_in, init}
use wgturn_core.Conf.Trim.{trim_right-append}
use wgturn_core.Conf.Values.{Library}
use wgturn_core.Conf.{is_header, is_comment, header_name}
use wgturn_core.Admin.File.Text.{Clean}
use wgturn_core.Admin.File.Replay.{run_block}
use wgturn_core.Admin.File.Rewrite.{header_step}
use wgturn_core.Admin.File.RoundTrip.{scan-rest, enter_peer}
use wgturn_core.Admin.File.{
  AdminPeer, ConfState, Place, in_none, in_interface, in_peer, Scan, name_tag, peer_line, parse_ips,
  to_block, opened_peer, scan_all, scan_line, section_line, interface_line, finish, flush_peer,
  with_ips,
}
use wgturn_core.Admin.{shown}

-- A value that a line can carry: not empty, trimmed, and within one line.
pub record IsField (v : Bytes) : Type 0 where
  pub filled : is_nil v ≡ false
  pub trimmed : trim_space v ≡ v
  pub clean : Clean v

-- The lines of a new peer behind its header line.
abbrev pub new_lines : Bytes → Bytes → Bytes → Bytes → List Bytes
new_lines name key psk ips =
    (name_tag ++ (32 ∷ name))
    ∷ (codes "PublicKey = " ++ key)
    ∷ (codes "PresharedKey = " ++ psk)
    ∷ (codes "AllowedIPs = " ++ ips)
    ∷ []

module _ {Prefix Addr : Type 0} (lib : Library Prefix Addr) (show : Prefix → Bytes) where
  name_line :
      (v : Bytes) (p : AdminPeer Prefix)
      → IsField v
      → (is_header (trim_space (name_tag ++ (32 ∷ v))) ≡ false)
        × (peer_line lib (trim_space (name_tag ++ (32 ∷ v))) p ≡ ok (record p { name = v }))
  unfolding trim_space trim_left is_header peer_line has_prefix
  name_line v p f =
      rw (trim_right-append (name_tag ++ (32 ∷ [])) v f.filled f.trimmed)
        (refl, ap (λ y. ok (record p { name = y })) f.trimmed)

  public_line :
      (v : Bytes) (p : AdminPeer Prefix)
      → IsField v
      → (is_header (trim_space (codes "PublicKey = " ++ v)) ≡ false)
        × (peer_line lib (trim_space (codes "PublicKey = " ++ v)) p
            ≡ ok (record p { public_key = v }))
  unfolding trim_space trim_left is_header is_comment peer_line has_prefix cut_byte to_lower equal
      trim_right
  public_line v p f =
      rw (trim_right-append (codes "PublicKey = ") v f.filled f.trimmed)
        (refl, ap (λ y. ok (record p { public_key = y })) f.trimmed)

  preshared_line :
      (v : Bytes) (p : AdminPeer Prefix)
      → IsField v
      → (is_header (trim_space (codes "PresharedKey = " ++ v)) ≡ false)
        × (peer_line lib (trim_space (codes "PresharedKey = " ++ v)) p
            ≡ ok (record p { preshared_key = v }))
  unfolding trim_space trim_left is_header is_comment peer_line has_prefix cut_byte to_lower equal
      trim_right
  preshared_line v p f =
      rw (trim_right-append (codes "PresharedKey = ") v f.filled f.trimmed)
        (refl, ap (λ y. ok (record p { preshared_key = y })) f.trimmed)

  ips_line :
      (v : Bytes) (p : AdminPeer Prefix) {ips : List Prefix}
      → IsField v
      → parse_ips lib v ≡ some ips
      → (is_header (trim_space (codes "AllowedIPs = " ++ v)) ≡ false)
        × (peer_line lib (trim_space (codes "AllowedIPs = " ++ v)) p
            ≡ ok (record p { allowed_ips = ips }))
  unfolding trim_space trim_left is_header is_comment peer_line has_prefix cut_byte to_lower equal
      trim_right
  ips_line v p f h =
      rw (trim_right-append (codes "AllowedIPs = ") v f.filled f.trimmed)
        (refl, ap (λ y. with_ips lib p (parse_ips lib y)) f.trimmed ∙ ap (with_ips lib p) h)

  run_step :
      (p : AdminPeer Prefix) {q : AdminPeer Prefix} (l : Bytes) (ls : List Bytes)
      → (is_header (trim_space l) ≡ false) × (peer_line lib (trim_space l) p ≡ ok q)
      → run_block lib p (l ∷ ls) ≡ run_block lib (to_block l q) ls
  unfolding run_block
  run_step p l ls h = rw (h.0, h.1) refl

  abbrev pub new_peer : Bytes → Bytes → Bytes → Prefix → List Bytes → AdminPeer Prefix
  new_peer name key psk a lines = record {
    name = name;
    public_key = key;
    preshared_key = psk;
    allowed_ips = a ∷ [];
    raw_lines = lines;
  }

  run_block-new_lines :
      (name key psk ips : Bytes) (a : Prefix)
      → IsField name
      → IsField key
      → IsField psk
      → IsField ips
      → parse_ips lib ips ≡ some (a ∷ [])
      → run_block lib (opened_peer (codes "[Peer]")) (new_lines name key psk ips)
        ≡ ok (new_peer name key psk a (codes "[Peer]" ∷ new_lines name key psk ips))
  unfolding run_block
  run_block-new_lines name key psk ips a fn fk fp fi h =
      let p0 : AdminPeer Prefix = opened_peer (codes "[Peer]") in
      let p1 : AdminPeer Prefix = to_block (name_tag ++ (32 ∷ name)) (record p0 { name = name }) in
      let p2 : AdminPeer Prefix =
        to_block (codes "PublicKey = " ++ key) (record p1 { public_key = key }) in
      let p3 : AdminPeer Prefix =
        to_block (codes "PresharedKey = " ++ psk) (record p2 { preshared_key = psk }) in
      let last : List Bytes = (codes "AllowedIPs = " ++ ips) ∷ [] in
      let third : List Bytes = (codes "PresharedKey = " ++ psk) ∷ last in
      run_step p0 (name_tag ++ (32 ∷ name)) ((codes "PublicKey = " ++ key) ∷ third)
        (name_line name p0 fn)
      ∙ run_step p1 (codes "PublicKey = " ++ key) third (public_line key p1 fk)
      ∙ run_step p2 (codes "PresharedKey = " ++ psk) last (preshared_line psk p2 fp)
      ∙ run_step p3 (codes "AllowedIPs = " ++ ips) [] (ips_line ips p3 fi h)

  scan_blank :
      (place : Place Prefix) (st : ConfState Prefix)
      → (t : Scan Prefix) × (section_line lib [] (record { state = st; place = place }) ≡ ok t)
        × ((finish lib t).private_key ≡ (flush_peer place st).private_key)
        × (map shown (finish lib t).peers ≡ map shown (flush_peer place st).peers)
  unfolding section_line interface_line trim_space trim_left trim_right peer_line has_prefix
      is_comment
  scan_blank in_none st = (_, refl, refl, refl)
  scan_blank in_interface st = (_, refl, refl, refl)
  scan_blank (in_peer p) st =
      (_, refl, refl, map-append shown st.peers _ ∙ sym (map-append shown st.peers _))

  scan_step :
      (s : Scan Prefix) {t : Scan Prefix} (l : Bytes) (ls : List Bytes)
      → scan_line lib s l ≡ ok t
      → scan_all lib s (l ∷ ls) ≡ scan_all lib t ls
  unfolding scan_all
  scan_step s l ls h = rw (h) refl

  blank_line : (s : Scan Prefix) → scan_line lib s [] ≡ section_line lib [] s
  unfolding is_header trim_space trim_left trim_right has_prefix
  blank_line s = header_step lib s [] false refl

  new_header_line :
      (s : Scan Prefix)
      → scan_line lib s (codes "[Peer]")
        ≡ ok (record { state = finish lib s; place = in_peer (opened_peer (codes "[Peer]")) })
  unfolding is_header header_name trim_space trim_left trim_right has_prefix ends_in init to_lower
  new_header_line s =
      header_step lib s (codes "[Peer]") true refl
      ∙ ap (λ y. ok y)
          (enter_peer lib show (codes "peer") (codes "[Peer]") (finish lib s)
            (equal_refl (codes "peer")))

  -- The lines of a new peer, scanned behind the lines of a state.
  pub scan-new_peer :
      (t : Scan Prefix) (name key psk ips : Bytes) (a : Prefix)
      → IsField name
      → IsField key
      → IsField psk
      → IsField ips
      → parse_ips lib ips ≡ some (a ∷ [])
      → (t' : Scan Prefix) × (scan_all lib t ([] ∷ codes "[Peer]" ∷ new_lines name key psk ips)
          ≡ ok t')
        × ((finish lib t').private_key ≡ (finish lib t).private_key)
        × (map shown (finish lib t').peers
            ≡ map shown (finish lib t).peers ++ (new_peer name key psk a [] ∷ []))
  unfolding scan_all
  scan-new_peer t name key psk ips a fn fk fp fi h =
      let (u, e, kept, same) = scan_blank t.place t.state in
      let q = new_peer name key psk a (codes "[Peer]" ∷ new_lines name key psk ips) in
      let runs = run_block-new_lines name key psk ips a fn fk fp fi h in
      let last : Scan Prefix = record { state = finish lib u; place = in_peer q } in
      (
        last,
        scan_step t [] (codes "[Peer]" ∷ new_lines name key psk ips) (blank_line t ∙ e)
            ∙ scan_step u (codes "[Peer]") (new_lines name key psk ips) (new_header_line u)
            ∙ ap
                (scan_all lib
                  (record { state = finish lib u; place = in_peer (opened_peer (codes "[Peer]")) }))
                (sym (append-nil (new_lines name key psk ips)))
            ∙ scan-rest lib show (finish lib u) (opened_peer (codes "[Peer]")) q
                (new_lines name key psk ips) [] runs,
        kept,
        map-append shown (finish lib u).peers (q ∷ [])
            ∙ ap (λ y. y ++ (new_peer name key psk a [] ∷ [])) same,
      )
