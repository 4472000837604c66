-- ===== src/Admin/File/RoundTrip.antt =====
-- pkg/wgadmin/wgconf.go: `parseConf` after `writeConf`: the blocks of the peers, and the whole file.
use wgturn_core.Prelude.{
  true, false, List, [], ◌∷◌, ◌++◌, Bytes, codes, equal, equal_iff, ok, >>=-ok, err-ne-ok, ok-inj,
  All, All-append, ◌≡◌, refl, sym, ◌∙◌, ap, Bool-cases, inl, inr, Result-cases,
}
use mathlib.Core.List.{append_assoc, append-nil}
use wgturn_core.Conf.Strings.{trim_space}
use wgturn_core.Conf.Values.{Library}
use wgturn_core.Conf.{is_header, header_name}
use wgturn_core.Admin.File.Text.{Clean, NoReturn, scan_lines-print_lines, scan_lines-Clean}
use wgturn_core.Admin.File.Rewrite.{
  header_step, flushed_header, flushed-Clean, scan_all-Replays, start-Replays,
}
use wgturn_core.Admin.File.Replay.{
  run_block, scan_all-append, flush_settled, flush-peers_back, BlockBack, settled, only_header,
  Replays,
}
use wgturn_core.Admin.File.{
  AdminPeer, ConfState, Place, in_peer, Scan, scan_start, flush_peer, to_block, opened_peer,
  enter_section, peer_line, section_line, scan_all, finish, parse_conf, block, blocks, write_conf,
  scan_lines,
}

peer-interface :
    (name : Bytes) → equal name (codes "peer") ≡ true → equal name (codes "interface") ≡ false
unfolding equal
peer-interface name h = rw ((equal_iff name (codes "peer")).0 h) refl

module _ {Prefix Addr : Type 0} (lib : Library Prefix Addr) (show : Prefix → Bytes) where
  -- The lines of a block behind its first one.
  pub scan-rest :
      (st : ConfState Prefix) (p q : AdminPeer Prefix) (lines more : List Bytes)
      → run_block lib p lines ≡ ok q
      → scan_all lib (record { state = st; place = in_peer p }) (lines ++ more)
        ≡ scan_all lib (record { state = st; place = in_peer q }) more
  unfolding run_block scan_all section_line
  scan-rest st p q [] more h = rw (← ok-inj h) refl
  scan-rest st p q (l ∷ ls) more h = elim (Bool-cases (is_header (trim_space l))) [
    | inl e ↦ absurd (err-ne-ok _ q (rw (e, run_block) at h))
    | inr e ↦ elim (Result-cases (peer_line lib (trim_space l) p)) [
      | inl (f, e2) ↦ absurd (err-ne-ok f q (rw (e, e2, run_block) at h))
      | inr (r, e2) ↦
          rw (header_step lib (record { state = st; place = in_peer p }) l false e, e2)
            (scan-rest st (to_block l r) q ls more (rw (e, e2, run_block) at h))
    ]
  ]

  -- The peers that the scan ends with.
  abbrev with_peers : ConfState Prefix → List (AdminPeer Prefix) → ConfState Prefix
  with_peers st ps = record st { peers = st.peers ++ ps }

  -- A header line of a peer.
  pub enter_peer :
      (name line : Bytes) (st : ConfState Prefix)
      → equal name (codes "peer") ≡ true
      → enter_section name line st ≡ record { state = st; place = in_peer (opened_peer line) }
  unfolding enter_section
  enter_peer name line st h = rw (peer-interface name h, h) refl

  scan-block :
      (st : ConfState Prefix) (place : Place Prefix) (p : AdminPeer Prefix) (more : List Bytes)
      → BlockBack lib p
      → scan_all lib (record { state = st; place = place }) (p.raw_lines ++ more)
        ≡ scan_all lib (record { state = flush_peer place st; place = in_peer p }) more
  unfolding scan_all
  scan-block st place p more b =
      ap (λ y. scan_all lib (record { state = st; place = place }) (y ++ more)) b.shape
      ∙ rw
          (
            header_step lib (record { state = st; place = place }) b.line true b.opens,
            enter_peer (header_name (trim_space b.line)) b.line (flush_peer place st) b.named,
          )
          (scan-rest (flush_peer place st) (opened_peer b.line) p b.rest more b.runs)

  -- A block that is kept is written as it was.
  block-kept : (p : AdminPeer Prefix) → BlockBack lib p → block show p p.raw_lines ≡ p.raw_lines
  block-kept p b = rw (b.shape) refl

  scan-blocks :
      (ps : List (AdminPeer Prefix)) (st : ConfState Prefix) (place : Place Prefix)
      → All (λ p. BlockBack lib p × All Clean p.raw_lines) ps
      → (t : Scan Prefix) × (scan_all lib (record { state = st; place = place }) (blocks show ps)
          ≡ ok t)
        × (finish lib t ≡ with_peers (flush_peer place st) ps)
  unfolding scan_all blocks
  scan-blocks [] st place h = (
    record { state = st; place = place },
    refl,
    ap (λ y. record (flush_peer place st) { peers = y })
        (sym (append-nil (flush_peer place st).peers)),
  )
  scan-blocks (p ∷ ps) st place h =
      let (t, e, f) = scan-blocks ps (flush_peer place st) (in_peer p) h.1 in
      (
        t,
        ap (λ y. scan_all lib (record { state = st; place = place }) (y ++ blocks show ps))
              (block-kept p h.0.0)
            ∙ scan-block st place p (blocks show ps) h.0.0
            ∙ e,
        f
            ∙ ap (λ y. record (flush_peer place st) { peers = y })
                (append_assoc (flush_peer place st).peers (p ∷ []) ps),
      )

  blocks-Clean :
      (ps : List (AdminPeer Prefix))
      → All (λ p. BlockBack lib p × All Clean p.raw_lines) ps
      → All Clean (blocks show ps)
  unfolding blocks
  blocks-Clean [] h = tt
  blocks-Clean (p ∷ ps) h =
      rw (block-kept p h.0.0)
        (All-append Clean p.raw_lines (blocks show ps) h.0.1 (blocks-Clean ps h.1))

  -- A state that is read back.
  pub record ReadsBack (st : ConfState Prefix) : Type 0 where
    pub home : Place Prefix
    pub home_settled : settled lib home ≡ true
    pub header_back : scan_all lib scan_start st.header ≡ ok (only_header lib st home)
    pub header_clean : All Clean st.header
    pub peers_back : All (λ p. BlockBack lib p × All Clean p.raw_lines) st.peers

  finish-ReadsBack : (s : Scan Prefix) → Replays lib s → ReadsBack (finish lib s)
  finish-ReadsBack s v = record {
    home = v.home;
    home_settled = v.home_settled;
    header_back = flushed_header lib s.place v.home s.state v.header_back;
    header_clean = flushed-Clean lib s.place s.state v.header_clean;
    peers_back = flush-peers_back lib s.place v.home s.state v.peers_back v.place_back;
  }

  pub parse_conf-ReadsBack :
      (file : Bytes) {st : ConfState Prefix}
      → NoReturn file
      → parse_conf lib file ≡ ok st
      → ReadsBack st
  unfolding parse_conf
  parse_conf-ReadsBack file {st = st} h e =
      let (s, e1, e2) = >>=-ok (scan_all lib scan_start (scan_lines file)) _ e in
      rw (← ok-inj e2) (
        finish-ReadsBack s (
          scan_all-Replays lib scan_start (scan_lines file) (scan_lines-Clean file h)
            (start-Replays lib) e1))

  -- Its lines are scanned as it.
  pub scan-ReadsBack :
      (st : ConfState Prefix)
      → ReadsBack st
      → (t : Scan Prefix) × (scan_all lib scan_start (st.header ++ blocks show st.peers) ≡ ok t)
        × (finish lib t ≡ st)
  scan-ReadsBack st v =
      let (t, e, f) = scan-blocks st.peers (record st { peers = [] }) v.home v.peers_back in
      (
        t,
        scan_all-append lib scan_start st.header (blocks show st.peers) v.header_back ∙ e,
        f
            ∙ ap (λ y. with_peers y st.peers)
                (flush_settled lib v.home (record st { peers = [] }) v.home_settled),
      )

  pub lines-Clean :
      (st : ConfState Prefix) → ReadsBack st → All Clean (st.header ++ blocks show st.peers)
  lines-Clean st v =
      All-append Clean st.header (blocks show st.peers) v.header_clean
        (blocks-Clean st.peers v.peers_back)

  pub write-ReadsBack :
      (st : ConfState Prefix) → ReadsBack st → parse_conf lib (write_conf show st) ≡ ok st
  unfolding parse_conf write_conf
  write-ReadsBack st v =
      let lines = scan_lines-print_lines (st.header ++ blocks show st.peers) (lines-Clean st v) in
      let (t, e, f) = scan-ReadsBack st v in rw (lines, e) (ap (λ y. ok y) f)

  -- A file without carriage returns that is read and written again is read as the same state: the
  -- header, the private key and every peer with its block.
  pub parse_conf-write_conf :
      (file : Bytes) {st : ConfState Prefix}
      → NoReturn file
      → parse_conf lib file ≡ ok st
      → parse_conf lib (write_conf show st) ≡ ok st
  parse_conf-write_conf file {st = st} h e = write-ReadsBack st (parse_conf-ReadsBack file h e)
