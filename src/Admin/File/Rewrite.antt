-- ===== src/Admin/File/Rewrite.antt =====
-- pkg/wgadmin/wgconf.go: `parseConf` after `writeConf`.
use wgturn_core.Prelude.{
  Bool, true, false, List, [], ◌∷◌, ◌++◌, Bytes, codes, equal, ok, err-ne-ok, ok-inj, All,
  All-append, ◌≡◌, refl, sym, ◌∙◌, ap, subst, Option-cases, ◌||◌, Bool-cases, inl, inr,
  Result-cases, arith, if◌then◌else◌,
}
use wgturn_core.Conf.Strings.{trim_space, to_lower, cut_byte}
use wgturn_core.Conf.Values.{Library}
use wgturn_core.Tunnel.{is_nil}
use wgturn_core.Conf.{is_comment, is_header, header_name}
use wgturn_core.Admin.File.Text.{Clean}
use wgturn_core.Admin.File.Replay.{
  run_block, run_block-append, peer_line-raw_lines, header_line, flush_settled, flush-peers_back,
  BlockBack, settled, only_header, Replays,
}
use wgturn_core.Admin.File.{
  AdminPeer, ConfState, Place, in_none, in_interface, in_peer, Scan, scan_start, flush_peer,
  to_header, to_block, opened_peer, enter_section, interface_line, peer_line, add_block,
  section_line, scan_line, scan_all,
}

module _ {Prefix Addr : Type 0} (lib : Library Prefix Addr) where
  pub header_step :
      (s : Scan Prefix) (line : Bytes) (b : Bool)
      → is_header (trim_space line) ≡ b
      → scan_line lib s line ≡ (
          if b
          then ok (enter_section (header_name (trim_space line)) line (flush_peer s.place s.state))
          else section_line lib line s)
  unfolding scan_line
  header_step s line b e = rw (e) refl

  -- Scanning a section header from a place outside of the peers' sections.
  scan_settled :
      (st : ConfState Prefix) (home : Place Prefix) (line : Bytes)
      → settled lib home ≡ true
      → is_header (trim_space line) ≡ true
      → scan_line lib (only_header lib st home) line
        ≡ ok (enter_section (header_name (trim_space line)) line (record st { peers = [] }))
  scan_settled st home line h e =
      header_step (only_header lib st home) line true e
      ∙ ap (λ y. ok (enter_section (header_name (trim_space line)) line y))
          (flush_settled lib home (record st { peers = [] }) h)

  -- A section header after the pending peer is flushed keeps what is read back.
  enter-Replays :
      (st : ConfState Prefix) (home : Place Prefix) (line : Bytes)
      → settled lib home ≡ true
      → scan_all lib scan_start st.header ≡ ok (only_header lib st home)
      → All Clean st.header
      → All (λ p. BlockBack lib p × All Clean p.raw_lines) st.peers
      → is_header (trim_space line) ≡ true
      → Clean line
      → Replays lib (enter_section (header_name (trim_space line)) line st)
  unfolding enter_section run_block
  enter-Replays st home line h back clean peers e c =
      let name = header_name (trim_space line) in
      let again = scan_settled st home line h e in
      elim (Bool-cases (equal name (codes "interface"))) [
        | inl i ↦ rw (i) (record {
          home = in_interface;
          home_settled = refl;
          header_back = header_line lib st home line back (again ∙ rw (i) refl);
          header_clean = All-append _ st.header (line ∷ []) clean (c, tt);
          peers_back = peers;
          place_back = refl;
        })
        | inr i ↦ elim (Bool-cases (equal name (codes "peer"))) [
          | inl q ↦
              rw (i, q)
                (record {
                  home = home;
                  home_settled = h;
                  header_back = back;
                  header_clean = clean;
                  peers_back = peers;
                  place_back = (
                    record {
                      line = line;
                      rest = [];
                      shape = refl;
                      opens = e;
                      named = q;
                      runs = refl;
                    },
                    (c, tt),
                  );
                })
          | inr q ↦
              rw (i, q)
                (record {
                  home = in_none;
                  home_settled = refl;
                  header_back = header_line lib st home line back (again ∙ rw (i, q) refl);
                  header_clean = All-append _ st.header (line ∷ []) clean (c, tt);
                  peers_back = peers;
                  place_back = refl;
                })
        ]
      ]

  pub flushed_header :
      (place home : Place Prefix) (st : ConfState Prefix)
      → scan_all lib scan_start st.header ≡ ok (only_header lib st home)
      → scan_all lib scan_start (flush_peer place st).header
        ≡ ok (only_header lib (flush_peer place st) home)
  flushed_header in_none home st h = h
  flushed_header in_interface home st h = h
  flushed_header (in_peer p) home st h = h

  -- A line that joins a peer's block.
  block-BlockBack :
      (p q : AdminPeer Prefix) (line : Bytes)
      → BlockBack lib p
      → is_header (trim_space line) ≡ false
      → peer_line lib (trim_space line) p ≡ ok q
      → BlockBack lib (to_block line q)
  unfolding run_block
  block-BlockBack p q line b e h = record {
    line = b.line;
    rest = b.rest ++ (line ∷ []);
    shape = ap (λ y. y ++ (line ∷ [])) (peer_line-raw_lines lib (trim_space line) p h ∙ b.shape);
    opens = b.opens;
    named = b.named;
    runs =
        run_block-append lib (opened_peer b.line) b.rest (line ∷ []) b.runs
        ∙ rw (e, h, run_block) refl;
  }

  -- The key of the interface does not look at the peers, and leaves the header alone.
  interface_line-header :
      (t : Bytes) (st : ConfState Prefix)
      → ((interface_line t st).header ≡ st.header)
        × ((interface_line t st).peers ≡ st.peers)
        × (record (interface_line t st) { peers = [] }
            ≡ interface_line t (record st { peers = [] }))
  unfolding interface_line
  interface_line-header t st = elim (Bool-cases (is_nil t || is_comment t)) [
    | inl e ↦ rw (e) (refl, refl, refl)
    | inr e ↦ elim (Option-cases (cut_byte 61 t)) [
      | inl f ↦ rw (e, f) (refl, refl, refl)
      | inr ((k, v), f) ↦ elim (Bool-cases (equal (to_lower (trim_space k)) (codes "privatekey"))) [
        | inl g ↦ rw (e, f, g) (refl, refl, refl)
        | inr g ↦ rw (e, f, g) (refl, refl, refl)
      ]
    ]
  ]

  -- A line changes the state and not the place.
  abbrev Stays :
      (ConfState Prefix → ConfState Prefix) → ConfState Prefix → Bytes → Place Prefix → Type 0
  Stays change st line home =
      section_line lib line (only_header lib st home) ≡ ok (only_header lib (change st) home)

  section-Replays :
      (place : Place Prefix) (st : ConfState Prefix) (line : Bytes) {t : Scan Prefix}
      → is_header (trim_space line) ≡ false
      → Clean line
      → Replays lib (record { state = st; place = place })
      → section_line lib line (record { state = st; place = place }) ≡ ok t
      → Replays lib t
  unfolding section_line
  section-Replays in_none st line {t = t} e c v h =
      let same : record { state = to_header line st; place = in_none } ≡ t = ground (arith, h) in
      rw (← same) (record {
        home = v.home;
        home_settled = v.home_settled;
        header_back = header_line lib st v.home line v.header_back (
            header_step (only_header lib st v.home) line false e
            ∙ subst (λ y. Stays (to_header line) st line y) v.place_back refl);
        header_clean = All-append _ st.header (line ∷ []) v.header_clean (c, tt);
        peers_back = v.peers_back;
        place_back = v.place_back;
      })
  section-Replays in_interface st line {t = t} e c v h =
      let change = λ (x : ConfState Prefix). interface_line (trim_space line) (to_header line x) in
      let same : record { state = change st; place = in_interface } ≡ t = ground (arith, h) in
      let (kept, others, hidden) = interface_line-header (trim_space line) (to_header line st) in
      rw (← same) (record {
        home = v.home;
        home_settled = v.home_settled;
        header_back =
            ap (scan_all lib scan_start) kept
            ∙ header_line lib st v.home line v.header_back (
                header_step (only_header lib st v.home) line false e
                ∙ subst (λ y. Stays change st line y) v.place_back (rw (hidden) refl));
        header_clean = rw (kept) (All-append _ st.header (line ∷ []) v.header_clean (c, tt));
        peers_back = rw (others) v.peers_back;
        place_back = v.place_back;
      })
  section-Replays (in_peer p) st line {t = t} e c v h =
      elim (Result-cases (peer_line lib (trim_space line) p)) [
        | inl (f, e2) ↦ absurd (err-ne-ok f t (rw (e2, section_line) at h))
        | inr (q, e2) ↦
            let same : add_block lib line st q ≡ t = ground (arith, rw (e2, section_line) at h) in
            rw (← same) (record {
              home = v.home;
              home_settled = v.home_settled;
              header_back = v.header_back;
              header_clean = v.header_clean;
              peers_back = v.peers_back;
              place_back = (
                block-BlockBack p q line v.place_back.0 e e2,
                rw (peer_line-raw_lines lib (trim_space line) p e2)
                    (All-append _ p.raw_lines (line ∷ []) v.place_back.1 (c, tt)),
              );
            })
      ]

  pub flushed-Clean :
      (place : Place Prefix) (st : ConfState Prefix)
      → All Clean st.header
      → All Clean (flush_peer place st).header
  flushed-Clean in_none st h = h
  flushed-Clean in_interface st h = h
  flushed-Clean (in_peer p) st h = h

  scan_line-Replays :
      (s : Scan Prefix) (line : Bytes) {t : Scan Prefix}
      → Clean line
      → Replays lib s
      → scan_line lib s line ≡ ok t
      → Replays lib t
  scan_line-Replays s line {t = t} c v h = elim (Bool-cases (is_header (trim_space line))) [
    | inl e ↦
        let peers = flush-peers_back lib s.place v.home s.state v.peers_back v.place_back in
        let back = flushed_header s.place v.home s.state v.header_back in
        let entered =
          enter-Replays (flush_peer s.place s.state) v.home line v.home_settled back
            (flushed-Clean s.place s.state v.header_clean) peers e c in
        let same : enter_section (header_name (trim_space line)) line (flush_peer s.place s.state)
            ≡ t =
          ok-inj (sym (header_step s line true e) ∙ h) in
        rw (← same) entered
    | inr e ↦ section-Replays s.place s.state line e c v (sym (header_step s line false e) ∙ h)
  ]

  pub scan_all-Replays :
      (s : Scan Prefix) (lines : List Bytes) {t : Scan Prefix}
      → All Clean lines
      → Replays lib s
      → scan_all lib s lines ≡ ok t
      → Replays lib t
  unfolding scan_all
  scan_all-Replays s [] {t = t} c v h = rw (← ok-inj h) v
  scan_all-Replays s (line ∷ lines) {t = t} c v h = elim (Result-cases (scan_line lib s line)) [
    | inl (f, e) ↦ absurd (err-ne-ok f t (rw (e, scan_all) at h))
    | inr (r, e) ↦
        scan_all-Replays r lines c.1 (scan_line-Replays s line c.0 v e) (rw (e, scan_all) at h)
  ]

  pub start-Replays : Replays lib scan_start
  unfolding scan_all
  start-Replays = record {
    home = in_none;
    home_settled = refl;
    header_back = refl;
    header_clean = tt;
    peers_back = tt;
    place_back = refl;
  }
