-- ===== src/Yandex/Flow.antt =====
-- pkg/wgturn/provider/yandex/api.go, ws.go and provider.go: the conference request, the WebSocket
-- negotiation, and `Fetch`. The HTTP client and the socket are parameters. Field names are compared
-- exactly. The constant fields of the hello, the headers and the log are left out.
mod Decode
unfoldable pub use Decode.*
use wgturn_core.Prelude.{
  ℕ, ◌+◌, ◌/◌, ◌%◌, Bool, true, false, not, ◌&&◌, ◌||◌, List, [], ◌∷◌, ◌++◌, Option, none, some,
  Bytes, codes, equal, Result, ok, err, leb, ltb, ◌==◌, if◌then◌else◌,
}
use wgturn_core.Json.{Json, null, text, array, object, Items, no_item, item, at_key, text_or_empty}
use wgturn_core.Creds.{Credentials, span}
use wgturn_core.Tunnel.{is_nil}
use wgturn_core.Links.{telemost_call_id}
use wgturn_core.Yandex.{TurnServer, or_else, with_addr, turn_addr, walk_for_turn}

-- A frame of the socket: its text as JSON, if it is JSON.
pub data SocketEvent : Type 0 where
  read_failed : SocketEvent
  frame : Option Json → SocketEvent

-- `probe.UID`
abbrev pub uid_of : Option Json → Bytes
uid_of (some (object m)) = text_or_empty (at_key (codes "uid") m)
uid_of _ = []

abbrev pub is_some {ℓ} : {A : Type ℓ} → Option A → Bool
is_some (some a) = true
is_some none = false

-- `len(probe.Ack) != 0`
abbrev pub has_ack : Option Json → Bool
has_ack (some (object m)) = is_some (at_key (codes "ack") m)
has_ack _ = false

-- The frame is answered with an ack: it has a uid, which is not the hello's, and is no ack itself.
unfoldable pub needs_ack : Bytes → Option Json → Bool
unfolding at_key
needs_ack hello_uid raw =
    not (is_nil (uid_of raw)) && (not (has_ack raw) && not (equal (uid_of raw) hello_uid))

-- `scanFrameForTurn`
unfoldable pub scan_frame_for_turn : Option Json → Option TurnServer
unfolding walk_for_turn
scan_frame_for_turn none = none
scan_frame_for_turn (some v) = walk_for_turn v

pub data TelemostError : Type 0 where
  bad_link : TelemostError
  request_failed : TelemostError
  auth_failure : TelemostError
  http_status : ℕ → TelemostError
  bad_json : TelemostError
  no_media_server : TelemostError
  dial_failed : TelemostError
  hello_failed : TelemostError
  read_error : TelemostError
  deadline_passed : TelemostError

-- The ack that a frame needs, in front of the later ones.
abbrev pub acked : Bytes → Option Json → List Bytes → List Bytes
acked hello_uid raw later = if needs_ack hello_uid raw then uid_of raw ∷ later else later

-- One frame of the loop, with what its scan gives and what the rest of the loop would do.
abbrev pub loop_step :
    Bytes
    → Option Json
    → Option TurnServer
    → List Bytes × Result TelemostError TurnServer
    → List Bytes × Result TelemostError TurnServer
loop_step hello_uid raw (some t) later = (acked hello_uid raw [], ok t)
loop_step hello_uid raw none later = (acked hello_uid raw (later.0), later.1)

-- The loop over the frames of the socket, with the uids it acks; a write of an ack that fails is passed
-- over. At the end of the list the deadline has passed.
unfoldable pub frame_loop : Bytes → List SocketEvent → List Bytes × Result TelemostError TurnServer
unfolding needs_ack scan_frame_for_turn
frame_loop hello_uid [] = ([], err deadline_passed)
frame_loop hello_uid (read_failed ∷ rest) = ([], err read_error)
frame_loop hello_uid (frame raw ∷ rest) =
    loop_step hello_uid raw (scan_frame_for_turn raw) (frame_loop hello_uid rest)

-- The service that the hello names.
abbrev pub service_name_of : Conference → Bytes
service_name_of conf = if is_nil (conf.service_name) then codes "telemost" else conf.service_name

-- What happens on a socket to a media server: no connection, a hello that cannot be written, or frames.
pub data SocketRun : Type 0 where
  no_dial : SocketRun
  no_hello : SocketRun
  events : List SocketEvent → SocketRun

-- The fields of the hello that come from the conference.
pub record Hello : Type 0 where
  pub uid : Bytes
  pub participant_id : Bytes
  pub room : Bytes
  pub service : Bytes
  pub token : Bytes

abbrev pub hello_of : Bytes → Conference → Hello
hello_of uid conf = record {
  uid = uid;
  participant_id = conf.peer_id;
  room = conf.room_id;
  service = service_name_of conf;
  token = conf.credentials;
}

abbrev pub negotiated : Bytes → SocketRun → List Bytes × Result TelemostError TurnServer
negotiated uid no_dial = ([], err dial_failed)
negotiated uid no_hello = ([], err hello_failed)
negotiated uid (events es) = frame_loop uid es

-- What `http.Client.Do` and the reads behind it give; the body is JSON, or not.
pub data ConferenceAnswer : Type 0 where
  failed : ConferenceAnswer
  answered : ℕ → Option Json → ConferenceAnswer

-- The HTTP client and the random uid of the hello.
pub record Telemost : Type 0 where
  pub base : Bytes
  pub hello_uid : Bytes
  pub get : Bytes → ConferenceAnswer
  pub socket : Bytes → Hello → SocketRun

-- `strings.TrimRight(base, "/")`, of a base that is not empty.
unfoldable pub trim_slashes : Bytes → Bytes
trim_slashes [] = []
trim_slashes (c ∷ s) = let rest = trim_slashes s in if c == 47 && is_nil rest then [] else c ∷ rest

abbrev pub cloud_api_host : Bytes
cloud_api_host = codes "https://cloud-api.yandex.ru"

abbrev pub base_of : Bytes → Bytes
base_of base = trim_slashes (if is_nil base then cloud_api_host else base)

-- Bytes that `url.PathEscape` keeps.
abbrev is_path_byte : ℕ → Bool
is_path_byte c =
    (leb 97 c && leb c 122)
    || ((leb 65 c && leb c 90)
        || ((leb 48 c && leb c 58)
            || ((leb 45 c && leb c 46)
                || ((c == 95)
                    || ((c == 126)
                        || ((c == 36)
                            || ((c == 38) || ((c == 43) || ((c == 61) || (c == 64))))))))))

abbrev hex_digit : ℕ → ℕ
hex_digit n = if ltb n 10 then 48 + n else 55 + n

-- `url.PathEscape`
unfoldable pub path_escape : Bytes → Bytes
path_escape [] = []
path_escape (c ∷ s) =
    let rest = path_escape s in
    if is_path_byte c then c ∷ rest else 37 ∷ hex_digit (c / 16) ∷ hex_digit (c % 16) ∷ rest

unfoldable pub endpoint : Bytes → Bytes → Bytes
unfolding trim_slashes path_escape
endpoint base call_id =
    base_of base
    ++ (codes "/telemost_front/v2/telemost/conferences/"
        ++ (path_escape (codes "https://telemost.yandex.ru/j/" ++ call_id)
            ++ codes "/connection?next_gen_media_platform_allowed=false"))

abbrev pub or_bad_json : Option Conference → Result TelemostError Conference
or_bad_json none = err bad_json
or_bad_json (some conf) = ok conf

abbrev pub decoded_body : Option Json → Option Conference
decoded_body none = none
decoded_body (some v) = decode_conference v

-- `http.StatusOK` goes on; the other statuses are errors.
unfoldable pub read_conference : ConferenceAnswer → Result TelemostError Conference
unfolding decode_conference
read_conference failed = err request_failed
read_conference (answered status body) =
    if status == 200
    then or_bad_json (decoded_body body)
    else if status == 404 || (status == 401 || status == 403)
    then err auth_failure
    else err (http_status status)

-- Servers in the answer itself, or the socket.
abbrev pub from_conference :
    Telemost → Conference → Option TurnServer → Result TelemostError TurnServer
from_conference api conf (some t) = ok t
from_conference api conf none =
    if is_nil (conf.media_server_url)
    then err no_media_server
    else (negotiated (api.hello_uid)
        (api.socket (conf.media_server_url) (hello_of (api.hello_uid) conf))).1

abbrev pub from_answer :
    Telemost → Result TelemostError Conference → Result TelemostError TurnServer
from_answer api (err e) = err e
from_answer api (ok conf) = from_conference api conf (turn_from_conference conf)

-- `fetchTurn` with a client.
unfoldable pub fetch_telemost : Telemost → Bytes → Result TelemostError TurnServer
unfolding endpoint read_conference turn_from_conference frame_loop
fetch_telemost api call_id =
    from_answer api (read_conference (api.get (endpoint (api.base) call_id)))

abbrev pub as_credentials : Result TelemostError TurnServer → Result TelemostError Credentials
as_credentials (err e) = err e
as_credentials (ok t) =
    ok (record { username = t.user; password = t.pass; server_addr = t.addr; expires_in = span 0 })

abbrev pub fetch_link : Telemost → Option Bytes → Result TelemostError Credentials
fetch_link api none = err bad_link
fetch_link api (some call_id) = as_credentials (fetch_telemost api call_id)

-- `Fetch`
unfoldable pub telemost_fetch : Telemost → Bytes → Result TelemostError Credentials
unfolding fetch_telemost
telemost_fetch api hint = fetch_link api (telemost_call_id hint)
