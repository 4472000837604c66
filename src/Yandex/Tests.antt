-- ===== src/Yandex/Tests.antt =====
-- Runs of the Telemost provider.
use wgturn_core.Prelude.{
  List, Bytes, none, ◌≡◌, refl, [], ◌∷◌, ◌++◌, some, codes, ok, equal, map, has_prefix, contains,
}
use wgturn_core.Creds.{Credentials, span}
use wgturn_core.Json.{null, Json, text, array, object, no_item, item, no_field, field, at_key}
use wgturn_core.Links
use wgturn_core.Conf.Strings
use wgturn_core.Tunnel.HostPort
use wgturn_core.Yandex.{
  TurnServer, is_turn_url, turn_addr, first_addr, try_ice_fields, try_items, found_at,
  found_at_keys, first_found, walk_for_turn,
}
use wgturn_core.Yandex.Walk.{Inside, walk_for_turn-Inside}
use wgturn_core.Yandex.Flow.{
  unread_fields, decode_conference, decode_servers, decode_server, url_list, elements, answered,
  frame, events, Telemost, needs_ack, scan_frame_for_turn, frame_loop, telemost_fetch,
  fetch_telemost, endpoint, trim_slashes, path_escape, read_conference, turn_from_conference,
  pool_server,
}
use wgturn_core.Yandex.Address.{Reachable}
use wgturn_core.Yandex.Frames.{telemost_fetch-Reachable}
use wgturn_core.Yandex.Acks.{frame_loop-Acks, Acks}

abbrev ice : Json
ice = object (
    field (codes "urls")
      (array (
        item (text (codes "stun:s.ru:3478"))
          (item (text (codes "turn:t.ru:3478?transport=udp")) no_item)))
      (field (codes "username") (text (codes "u"))
        (field (codes "credential") (text (codes "p")) no_field)))

abbrev server_hello : Json
server_hello = object (
    field (codes "uid") (text (codes "7")) (
      field (codes "serverHello")
        (object (field (codes "rtc") (object (field (codes "list") ice no_field)) no_field))
        no_field))

abbrev quiet_frame : Json
quiet_frame = object (field (codes "uid") (text (codes "6")) no_field)

abbrev found : TurnServer
found = record { user = codes "u"; pass = codes "p"; addr = codes "t.ru:3478" }

walk_for_turn-Inside_example :
    ((t : TurnServer) → walk_for_turn server_hello ≡ some t → Inside server_hello t)
    × ((t : TurnServer)
        → Inside server_hello t
        → (s : TurnServer) × (walk_for_turn server_hello ≡ some s))
walk_for_turn-Inside_example = walk_for_turn-Inside server_hello

walk_runs : walk_for_turn server_hello ≡ some found
unfolding is_turn_url turn_addr first_addr try_ice_fields try_items found_at found_at_keys
    first_found walk_for_turn at_key equal has_prefix contains Links.telemost_turn_url
    Links.bare_url Links.drop_scheme Links.until Links.telemost_call_id Links.call_id
    Links.after_first Links.checked_id Links.all_call_id Strings.trim_space Strings.trim_left
    Strings.trim_right Strings.to_lower Strings.atoi Strings.number Strings.digits
    HostPort.split_host_port HostPort.cut_last HostPort.cut_first HostPort.has_byte needs_ack
    scan_frame_for_turn frame_loop telemost_fetch fetch_telemost endpoint trim_slashes path_escape
    read_conference decode_conference decode_servers decode_server unread_fields url_list elements
    turn_from_conference pool_server
walk_runs = refl

frame_loop-Acks_example :
    (uids : List Bytes) × Acks
      (codes "h")
      ((some quiet_frame ∷ []) ++ (some server_hello ∷ []))
      uids
    × (frame_loop
          (codes "h")
          (map frame (some quiet_frame ∷ []) ++ (frame (some server_hello) ∷ []))
        ≡ (uids, ok found))
unfolding is_turn_url turn_addr first_addr try_ice_fields try_items found_at found_at_keys
    first_found walk_for_turn at_key equal has_prefix contains Links.telemost_turn_url
    Links.bare_url Links.drop_scheme Links.until Links.telemost_call_id Links.call_id
    Links.after_first Links.checked_id Links.all_call_id Strings.trim_space Strings.trim_left
    Strings.trim_right Strings.to_lower Strings.atoi Strings.number Strings.digits
    HostPort.split_host_port HostPort.cut_last HostPort.cut_first HostPort.has_byte needs_ack
    scan_frame_for_turn frame_loop telemost_fetch fetch_telemost endpoint trim_slashes path_escape
    read_conference decode_conference decode_servers decode_server unread_fields url_list elements
    turn_from_conference pool_server
frame_loop-Acks_example =
    frame_loop-Acks (codes "h") (some quiet_frame ∷ []) (some server_hello) found [] (refl, tt) refl

both_acked :
    frame_loop (codes "h") (frame (some quiet_frame) ∷ frame (some server_hello) ∷ [])
    ≡ (codes "6" ∷ codes "7" ∷ [], ok found)
unfolding is_turn_url turn_addr first_addr try_ice_fields try_items found_at found_at_keys
    first_found walk_for_turn at_key equal has_prefix contains Links.telemost_turn_url
    Links.bare_url Links.drop_scheme Links.until Links.telemost_call_id Links.call_id
    Links.after_first Links.checked_id Links.all_call_id Strings.trim_space Strings.trim_left
    Strings.trim_right Strings.to_lower Strings.atoi Strings.number Strings.digits
    HostPort.split_host_port HostPort.cut_last HostPort.cut_first HostPort.has_byte needs_ack
    scan_frame_for_turn frame_loop telemost_fetch fetch_telemost endpoint trim_slashes path_escape
    read_conference decode_conference decode_servers decode_server unread_fields url_list elements
    turn_from_conference pool_server
both_acked = refl

-- An answer with a media server, a STUN server whose `urls` is one text, and fields that are not read.
abbrev goloom : Json
goloom = object (
    field (codes "peer_id") (text (codes "p1")) (
      field (codes "client_configuration")
        (object (
          field (codes "media_server_url") (text (codes "wss://g")) (
            field (codes "ice_servers")
              (array (
                item (object (field (codes "urls") (text (codes "stun:s.ru:3478")) no_field))
                  no_item))
              no_field)))
        (field (codes "uri") null no_field)))

abbrev test_api : Telemost
test_api = record {
  base = [];
  hello_uid = codes "h";
  get = λ url. answered 200 (some goloom);
  socket = λ url hello. events (frame (some quiet_frame) ∷ frame (some server_hello) ∷ []);
}

abbrev telemost_creds : Credentials
telemost_creds = record {
  username = codes "u";
  password = codes "p";
  server_addr = codes "t.ru:3478";
  expires_in = span 0;
}

telemost_fetch-Reachable_example : Reachable (codes "t.ru:3478")
unfolding is_turn_url turn_addr first_addr try_ice_fields try_items found_at found_at_keys
    first_found walk_for_turn at_key equal has_prefix contains Links.telemost_turn_url
    Links.bare_url Links.drop_scheme Links.until Links.telemost_call_id Links.call_id
    Links.after_first Links.checked_id Links.all_call_id Strings.trim_space Strings.trim_left
    Strings.trim_right Strings.to_lower Strings.atoi Strings.number Strings.digits
    HostPort.split_host_port HostPort.cut_last HostPort.cut_first HostPort.has_byte needs_ack
    scan_frame_for_turn frame_loop telemost_fetch fetch_telemost endpoint trim_slashes path_escape
    read_conference decode_conference decode_servers decode_server unread_fields url_list elements
    turn_from_conference pool_server
telemost_fetch-Reachable_example =
    telemost_fetch-Reachable test_api (codes "https://telemost.yandex.ru/j/12") telemost_creds refl

escaped :
    endpoint (codes "http://h//") (codes "12")
    ≡ codes
        "http://h/telemost_front/v2/telemost/conferences/https:%2F%2Ftelemost.yandex.ru%2Fj%2F12/connection?next_gen_media_platform_allowed=false"
unfolding endpoint trim_slashes path_escape
escaped = refl

-- A field of another type spoils the whole answer, even one that is not read.
spoiled : decode_conference (object (field (codes "uri") (object no_field) no_field)) ≡ none
unfolding decode_conference at_key equal unread_fields
spoiled = refl
