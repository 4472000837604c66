-- ===== src/Admin/File/Replay.antt =====
-- pkg/wgadmin/wgconf.go: a file that is read and written again says the same.
use wgturn_core.Prelude.{
  Bool, true, false, List, [], ◌∷◌, ◌++◌, Bytes, codes, equal, Result, ok, err, ◌>>=◌, err-ne-ok,
  All, All-append, ◌≡◌, refl, ◌∙◌, Bool-cases, inl, inr, Result-cases, Option-cases, Option, none,
  some, has_prefix, ◌||◌, arith, if◌then◌else◌,
}
use wgturn_core.Conf.Strings.{trim_space, to_lower, cut_byte}
use wgturn_core.Conf.Values.{Library}
use wgturn_core.Tunnel.{is_nil}
use wgturn_core.Conf.{is_comment, is_header, header_name}
use wgturn_core.Admin.File.Text.{Clean}
use wgturn_core.Admin.File.{
  AdminPeer, ConfState, Place, in_none, in_interface, in_peer, Scan, FileError, scan_start,
  flush_peer, to_block, opened_peer, peer_line, peer_value, with_ips, parse_ips, name_tag,
  scan_line, scan_all, bad_allowed_ips_line,
}

module _ {Prefix Addr : Type 0} (lib : Library Prefix Addr) where
  -- Lines of one peer's section, from a peer on.
  unfoldable pub run_block : AdminPeer Prefix → List Bytes → Result FileError (AdminPeer Prefix)
  run_block p [] = ok p
  run_block p (l ∷ ls) =
      if is_header (trim_space l)
      then err bad_allowed_ips_line
      else (peer_line lib (trim_space l) p >>= λ q. run_block (to_block l q) ls)

  pub run_block-append :
      (p : AdminPeer Prefix) (xs ys : List Bytes) {q : AdminPeer Prefix}
      → run_block p xs ≡ ok q
      → run_block p (xs ++ ys) ≡ run_block q ys
  unfolding run_block
  run_block-append p [] ys h = ground (arith, h)
  run_block-append p (x ∷ xs) ys {q = q} h = elim (Bool-cases (is_header (trim_space x))) [
    | inl e ↦ absurd (err-ne-ok _ q (rw (e, run_block) at h))
    | inr e ↦ elim (Result-cases (peer_line lib (trim_space x) p)) [
      | inl (f, e2) ↦ absurd (err-ne-ok f q (rw (e, e2, run_block) at h))
      | inr (r, e2) ↦
          rw (e, e2) (run_block-append (to_block x r) xs ys (rw (e, e2, run_block) at h))
    ]
  ]

  pub scan_all-append :
      (s : Scan Prefix) (xs ys : List Bytes) {t : Scan Prefix}
      → scan_all lib s xs ≡ ok t
      → scan_all lib s (xs ++ ys) ≡ scan_all lib t ys
  unfolding scan_all
  scan_all-append s [] ys h = ground (arith, h)
  scan_all-append s (x ∷ xs) ys {t = t} h = elim (Result-cases (scan_line lib s x)) [
    | inl (f, e) ↦ absurd (err-ne-ok f t (rw (e, scan_all) at h))
    | inr (r, e) ↦ rw (e) (scan_all-append r xs ys (rw (e, scan_all) at h))
  ]

  -- A block that is read back as its peer.
  pub record BlockBack (p : AdminPeer Prefix) : Type 0 where
    pub line : Bytes
    pub rest : List Bytes
    pub shape : p.raw_lines ≡ line ∷ rest
    pub opens : is_header (trim_space line) ≡ true
    pub named : equal (header_name (trim_space line)) (codes "peer") ≡ true
    pub runs : run_block (opened_peer line) rest ≡ ok p

  abbrev pub settled : Place Prefix → Bool
  settled (in_peer p) = false
  settled place = true

  abbrev pub PlaceBack : Place Prefix → Place Prefix → Type 0
  PlaceBack home (in_peer p) = BlockBack p × All Clean p.raw_lines
  PlaceBack home place = place ≡ home

  abbrev pub only_header : ConfState Prefix → Place Prefix → Scan Prefix
  only_header st home = record { state = record st { peers = [] }; place = home }

  -- The header and each peer's block are read back on their own.
  pub record Replays (s : Scan Prefix) : Type 0 where
    pub home : Place Prefix
    pub home_settled : settled home ≡ true
    pub header_back : scan_all lib scan_start s.state.header ≡ ok (only_header s.state home)
    pub header_clean : All Clean s.state.header
    pub peers_back : All (λ p. BlockBack p × All Clean p.raw_lines) s.state.peers
    pub place_back : PlaceBack home s.place

  with_ips-raw_lines :
      (p : AdminPeer Prefix) (o : Option (List Prefix)) {q : AdminPeer Prefix}
      → with_ips lib p o ≡ ok q
      → q.raw_lines ≡ p.raw_lines
  with_ips-raw_lines p none h = cc
  with_ips-raw_lines p (some ips) h = grind arith

  peer_value-raw_lines :
      (key v : Bytes) (p : AdminPeer Prefix) {q : AdminPeer Prefix}
      → peer_value lib key v p ≡ ok q
      → q.raw_lines ≡ p.raw_lines
  peer_value-raw_lines key v p h = grind (arith, with_ips-raw_lines p (parse_ips lib v))

  pub peer_line-raw_lines :
      (t : Bytes) (p : AdminPeer Prefix) {q : AdminPeer Prefix}
      → peer_line lib t p ≡ ok q
      → q.raw_lines ≡ p.raw_lines
  unfolding peer_line
  peer_line-raw_lines t p h = elim (Bool-cases (has_prefix t name_tag)) [
    | inl e ↦ grind (arith, e)
    | inr e ↦ elim (Bool-cases (is_nil t || is_comment t)) [
      | inl e2 ↦ grind (arith, e, e2)
      | inr e2 ↦ elim (Option-cases (cut_byte 61 t)) [
        | inl e3 ↦ grind (arith, e, e2, e3)
        | inr ((k, v), e3) ↦
            peer_value-raw_lines (to_lower (trim_space k)) (trim_space v) p
              (rw (e, e2, e3, peer_line) at h)
      ]
    ]
  ]

  pub scan_one :
      (s : Scan Prefix) (line : Bytes) {t : Scan Prefix}
      → scan_line lib s line ≡ ok t
      → scan_all lib s (line ∷ []) ≡ ok t
  unfolding scan_all
  scan_one s line h = rw (h) refl

  -- The header after one more line.
  pub header_line :
      (st : ConfState Prefix) (home : Place Prefix) (line : Bytes) {t : Scan Prefix}
      → scan_all lib scan_start st.header ≡ ok (only_header st home)
      → scan_line lib (only_header st home) line ≡ ok t
      → scan_all lib scan_start (st.header ++ (line ∷ [])) ≡ ok t
  header_line st home line h k =
      scan_all-append scan_start st.header (line ∷ []) h ∙ scan_one (only_header st home) line k

  pub flush_settled :
      (home : Place Prefix) (st : ConfState Prefix) → settled home ≡ true → flush_peer home st ≡ st
  flush_settled in_none st h = refl
  flush_settled in_interface st h = refl
  flush_settled (in_peer p) st h = cc

  -- The peers after `flushPeer`.
  pub flush-peers_back :
      (place : Place Prefix) (home : Place Prefix) (st : ConfState Prefix)
      → All (λ p. BlockBack p × All Clean p.raw_lines) st.peers
      → PlaceBack home place
      → All (λ p. BlockBack p × All Clean p.raw_lines) (flush_peer place st).peers
  flush-peers_back in_none home st ps b = ps
  flush-peers_back in_interface home st ps b = ps
  flush-peers_back (in_peer p) home st ps b = All-append _ st.peers (p ∷ []) ps (b, tt)

  pub flush-header :
      (place : Place Prefix) (st : ConfState Prefix)
      → ((flush_peer place st).header ≡ st.header)
        × ((flush_peer place st).private_key ≡ st.private_key)
  flush-header in_none st = (refl, refl)
  flush-header in_interface st = (refl, refl)
  flush-header (in_peer p) st = (refl, refl)
