-- ===== src/Admin/File.antt =====
-- pkg/wgadmin/wgconf.go: the configuration file of the server's WireGuard interface. A file is its
-- bytes; the scanner's limit of a megabyte for a line is left out. `cur` and `pendingPeer` are one
-- value, since the pending peer is there exactly in a peer's section. Prefixes and their texts are
-- parameters.
pub mod Text
pub mod Replay
pub mod Rewrite
pub mod RoundTrip
use mathlib.Core.Option
use wgturn_core.Prelude.{
  ℕ, Bool, true, false, not, ◌&&◌, ◌||◌, List, [], ◌∷◌, ◌++◌, map, Option, none, some, Bytes, codes,
  equal, has_prefix, Result, ok, err, ◌>>=◌, ◌==◌, if◌then◌else◌, drop, length,
}
use wgturn_core.Tunnel.{is_nil}
use wgturn_core.Conf.Strings.{trim_space, to_lower, cut_byte, ends_in, init, fields_func}
use wgturn_core.Conf.Values.{Library, is_separator, trimmed, parse_each}
use wgturn_core.Conf.Keys.{parse_prefix_or_addr}
use wgturn_core.Conf.{is_comment, is_header, header_name}

-- A byte in front of the first line.
abbrev pub onto_first : ℕ → List Bytes → List Bytes
onto_first c [] = (c ∷ []) ∷ []
onto_first c (l ∷ ls) = (c ∷ l) ∷ ls

unfoldable pub split_lines : Bytes → List Bytes
split_lines [] = []
split_lines (c ∷ s) = let rest = split_lines s in if c == 10 then [] ∷ rest else onto_first c rest

-- `bufio.ScanLines` takes one carriage return off the end of a line.
abbrev pub drop_return : Bytes → Bytes
drop_return l = if ends_in 13 l then init l else l

unfoldable pub scan_lines : Bytes → List Bytes
unfolding split_lines
scan_lines s = map drop_return (split_lines s)

-- What `Fprintln` writes for each line.
unfoldable pub print_lines : List Bytes → Bytes
print_lines [] = []
print_lines (l ∷ ls) = l ++ (10 ∷ print_lines ls)

abbrev pub name_tag : Bytes
name_tag = codes "# wgturn-name ="

pub record AdminPeer (Prefix : Type 0) : Type 0 where
  pub name : Bytes
  pub public_key : Bytes
  pub preshared_key : Bytes
  pub allowed_ips : List Prefix
  pub raw_lines : List Bytes

pub record ConfState (Prefix : Type 0) : Type 0 where
  pub header : List Bytes
  pub private_key : Bytes
  pub peers : List (AdminPeer Prefix)

-- The section and the peer that is read.
pub data Place (Prefix : Type 0) : Type 0 where
  in_none in_interface : Place Prefix
  in_peer : AdminPeer Prefix → Place Prefix

pub record Scan (Prefix : Type 0) : Type 0 where
  pub state : ConfState Prefix
  pub place : Place Prefix

pub data FileError : Type 0 where
  bad_allowed_ips_line : FileError

module _ {Prefix : Type 0} where
  abbrev pub new_conf : ConfState Prefix
  new_conf = record { header = []; private_key = []; peers = [] }

  abbrev pub scan_start : Scan Prefix
  scan_start = record { state = new_conf; place = in_none }

  -- `flushPeer`
  abbrev pub flush_peer : Place Prefix → ConfState Prefix → ConfState Prefix
  flush_peer (in_peer p) st = record st { peers = st.peers ++ (p ∷ []) }
  flush_peer place st = st

  -- A line that goes to the header.
  abbrev pub to_header : Bytes → ConfState Prefix → ConfState Prefix
  to_header line st = record st { header = st.header ++ (line ∷ []) }

  -- A line that goes to the peer's block.
  abbrev pub to_block : Bytes → AdminPeer Prefix → AdminPeer Prefix
  to_block line p = record p { raw_lines = p.raw_lines ++ (line ∷ []) }

  abbrev pub opened_peer : Bytes → AdminPeer Prefix
  opened_peer line = record {
    name = [];
    public_key = [];
    preshared_key = [];
    allowed_ips = [];
    raw_lines = line ∷ [];
  }

  -- A section header, after `flushPeer`.
  unfoldable pub enter_section : Bytes → Bytes → ConfState Prefix → Scan Prefix
  enter_section name line st =
      if equal name (codes "interface")
      then record { state = to_header line st; place = in_interface }
      else if equal name (codes "peer")
      then record { state = st; place = in_peer (opened_peer line) }
      else record { state = to_header line st; place = in_none }

  -- A key and its value in the interface's section.
  abbrev pub interface_value : Bytes → Bytes → ConfState Prefix → ConfState Prefix
  interface_value key v st =
      if equal key (codes "privatekey") then record st { private_key = v } else st

  unfoldable pub interface_line : Bytes → ConfState Prefix → ConfState Prefix
  interface_line t st = if is_nil t || is_comment t then st else elim (cut_byte 61 t) [
    | none ↦ st
    | some (k, v) ↦ interface_value (to_lower (trim_space k)) (trim_space v) st
  ]

  module _ {Addr : Type 0} (lib : Library Prefix Addr) where
    -- `parsePrefixList`; `none` is an error.
    unfoldable pub parse_ips : Bytes → Option (List Prefix)
    parse_ips v = parse_each (parse_prefix_or_addr lib) (trimmed (fields_func is_separator v))

    abbrev pub with_ips :
        AdminPeer Prefix → Option (List Prefix) → Result FileError (AdminPeer Prefix)
    with_ips p none = err bad_allowed_ips_line
    with_ips p (some ips) = ok (record p { allowed_ips = ips })

    -- A key and its value in a peer's section.
    abbrev pub peer_value : Bytes → Bytes → AdminPeer Prefix → Result FileError (AdminPeer Prefix)
    peer_value key v p =
        if equal key (codes "publickey")
        then ok (record p { public_key = v })
        else if equal key (codes "presharedkey")
        then ok (record p { preshared_key = v })
        else if equal key (codes "allowedips")
        then with_ips p (parse_ips v)
        else ok p

    -- A line of a peer's section that is no section header; the line joins the block in each case.
    unfoldable pub peer_line : Bytes → AdminPeer Prefix → Result FileError (AdminPeer Prefix)
    peer_line t p =
        if has_prefix t name_tag
        then ok (record p { name = trim_space (drop (length name_tag) t) })
        else if is_nil t || is_comment t
        then ok p
        else elim (cut_byte 61 t) [
          | none ↦ ok p
          | some (k, v) ↦ peer_value (to_lower (trim_space k)) (trim_space v) p
        ]

    abbrev pub add_block : Bytes → ConfState Prefix → AdminPeer Prefix → Scan Prefix
    add_block line st p = record { state = st; place = in_peer (to_block line p) }

    -- A line that is no section header.
    unfoldable pub section_line : Bytes → Scan Prefix → Result FileError (Scan Prefix)
    section_line line s = elim s.place [
      | in_none ↦ ok (record s { state = to_header line s.state })
      | in_interface ↦
          ok (record s { state = interface_line (trim_space line) (to_header line s.state) })
      | in_peer p ↦ peer_line (trim_space line) p >>= λ p'. ok (add_block line s.state p')
    ]

    -- One round of the loop of `parseConf`.
    unfoldable pub scan_line : Scan Prefix → Bytes → Result FileError (Scan Prefix)
    scan_line s line =
        let t = trim_space line in
        if is_header t
        then ok (enter_section (header_name t) line (flush_peer s.place s.state))
        else section_line line s

    unfoldable pub scan_all : Scan Prefix → List Bytes → Result FileError (Scan Prefix)
    scan_all s [] = ok s
    scan_all s (line ∷ lines) = scan_line s line >>= λ s'. scan_all s' lines

    -- `parseConf`
    abbrev pub finish : Scan Prefix → ConfState Prefix
    finish s = flush_peer s.place s.state

    unfoldable pub parse_conf : Bytes → Result FileError (ConfState Prefix)
    parse_conf file = scan_all scan_start (scan_lines file) >>= λ s. ok (finish s)

  module _ (show : Prefix → Bytes) where
    -- `strings.Join(parts, ", ")` of the shown prefixes.
    unfoldable pub join_ips : List Prefix → Bytes
    join_ips [] = []
    join_ips (a ∷ []) = show a
    join_ips (a ∷ b ∷ ips) = show a ++ (codes ", " ++ join_ips (b ∷ ips))

    abbrev pub line_unless : Bool → Bytes → List Bytes
    line_unless true line = []
    line_unless false line = line ∷ []

    abbrev pub no_ips : List Prefix → Bool
    no_ips [] = true
    no_ips (a ∷ ips) = false

    -- The keys of a peer, as `formatPeer` and `strippedConf` write them.
    unfoldable pub key_lines : AdminPeer Prefix → List Bytes
    key_lines p =
        (codes "PublicKey = " ++ p.public_key)
        ∷ (line_unless (is_nil p.preshared_key) (codes "PresharedKey = " ++ p.preshared_key)
            ++ line_unless (no_ips p.allowed_ips) (codes "AllowedIPs = " ++ join_ips p.allowed_ips))

    -- `formatPeer`
    unfoldable pub format_peer : AdminPeer Prefix → List Bytes
    format_peer p =
        []
        ∷ codes "[Peer]"
        ∷ (line_unless (is_nil p.name) (name_tag ++ (32 ∷ p.name)) ++ key_lines p)

    abbrev pub block : AdminPeer Prefix → List Bytes → List Bytes
    block p [] = format_peer p
    block p (l ∷ ls) = l ∷ ls

    unfoldable pub blocks : List (AdminPeer Prefix) → List Bytes
    blocks [] = []
    blocks (p ∷ ps) = block p p.raw_lines ++ blocks ps

    -- `writeConf`
    unfoldable pub write_conf : ConfState Prefix → Bytes
    write_conf st = print_lines (st.header ++ blocks st.peers)
