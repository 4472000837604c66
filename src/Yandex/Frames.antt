-- ===== src/Yandex/Frames.antt =====
-- pkg/wgturn/provider/yandex/ws.go and provider.go: the frames of the socket, and what `Fetch` gives.
use wgturn_core.Prelude.{
  List, [], ◌∷◌, Option, none, some, Bytes, Result, ok, err, ◌≡◌, refl, ap, subst, Bool-cases,
  ok-inj, err-ne-ok, inl, inr,
}
use wgturn_core.Json.{Json}
use wgturn_core.Creds.{Credentials}
use wgturn_core.Tunnel.{is_nil}
use wgturn_core.Links.{telemost_call_id}
use wgturn_core.Yandex.{TurnServer}
use wgturn_core.Yandex.Address.{Reachable, turn_from_conference-Reachable, scan_frame-Reachable}
use wgturn_core.Yandex.Flow.{
  Conference, turn_from_conference, SocketEvent, read_failed, frame, TelemostError, deadline_passed,
  read_error, dial_failed, hello_failed, no_media_server, bad_link, scan_frame_for_turn, frame_loop,
  loop_step, SocketRun, no_dial, no_hello, events, negotiated, Telemost, from_conference,
  from_answer, fetch_telemost, as_credentials, fetch_link, telemost_fetch, hello_of, endpoint,
  read_conference,
}

-- What a result gives has a host and a port.
abbrev Gives : Result TelemostError TurnServer → Type 0
Gives r = (t : TurnServer) → r ≡ ok t → Reachable (t.addr)

pub frame_loop-frame :
    (uid : Bytes) (raw : Option Json) (rest : List SocketEvent)
    → frame_loop uid (frame raw ∷ rest)
      ≡ loop_step uid raw (scan_frame_for_turn raw) (frame_loop uid rest)
unfolding frame_loop
frame_loop-frame uid raw rest = refl

loop_step-Gives :
    (uid : Bytes) (raw : Option Json) (o : Option TurnServer)
    (later : List Bytes × Result TelemostError TurnServer)
    → ((t : TurnServer) → o ≡ some t → Reachable (t.addr))
    → Gives (later.1)
    → Gives ((loop_step uid raw o later).1)
loop_step-Gives uid raw (some s) later f g t h = f t (ap some (ok-inj h))
loop_step-Gives uid raw none later f g t h = g t h

frame_loop-Gives : (uid : Bytes) (es : List SocketEvent) → Gives ((frame_loop uid es).1)
unfolding frame_loop
frame_loop-Gives uid [] t h = absurd (err-ne-ok deadline_passed t h)
frame_loop-Gives uid (read_failed ∷ rest) t h = absurd (err-ne-ok read_error t h)
frame_loop-Gives uid (frame raw ∷ rest) t h =
    loop_step-Gives uid raw (scan_frame_for_turn raw) (frame_loop uid rest)
      (scan_frame-Reachable raw) (frame_loop-Gives uid rest) t h

negotiated-Gives : (uid : Bytes) (run : SocketRun) → Gives ((negotiated uid run).1)
negotiated-Gives uid no_dial t h = absurd (err-ne-ok dial_failed t h)
negotiated-Gives uid no_hello t h = absurd (err-ne-ok hello_failed t h)
negotiated-Gives uid (events es) t h = frame_loop-Gives uid es t h

from_conference-Gives :
    (api : Telemost) (conf : Conference) (o : Option TurnServer)
    → ((t : TurnServer) → o ≡ some t → Reachable (t.addr))
    → Gives (from_conference api conf o)
from_conference-Gives api conf (some s) f t h = f t (ap some (ok-inj h))
from_conference-Gives api conf none f t h = elim (Bool-cases (is_nil (conf.media_server_url))) [
  | inl e ↦ absurd (err-ne-ok no_media_server t (rw (e) at h))
  | inr e ↦
      negotiated-Gives (api.hello_uid)
        (api.socket (conf.media_server_url) (hello_of (api.hello_uid) conf)) t (rw (e) at h)
]

from_answer-Gives :
    (api : Telemost) (r : Result TelemostError Conference) → Gives (from_answer api r)
from_answer-Gives api (err e) t h = absurd (err-ne-ok e t h)
from_answer-Gives api (ok conf) t h =
    from_conference-Gives api conf (turn_from_conference conf) (turn_from_conference-Reachable conf)
      t h

fetch_telemost-Gives : (api : Telemost) (call_id : Bytes) → Gives (fetch_telemost api call_id)
unfolding fetch_telemost
fetch_telemost-Gives api call_id t h =
    from_answer-Gives api (read_conference (api.get (endpoint (api.base) call_id))) t h

as_credentials-Reachable :
    (r : Result TelemostError TurnServer) (creds : Credentials)
    → Gives r
    → as_credentials r ≡ ok creds
    → Reachable (creds.server_addr)
as_credentials-Reachable (err e) creds g h = absurd (err-ne-ok e creds h)
as_credentials-Reachable (ok t) creds g h =
    subst (λ c. Reachable (c.server_addr)) (ok-inj h) (g t refl)

fetch_link-Reachable :
    (api : Telemost) (call : Option Bytes) (creds : Credentials)
    → fetch_link api call ≡ ok creds
    → Reachable (creds.server_addr)
fetch_link-Reachable api none creds h = absurd (err-ne-ok bad_link creds h)
fetch_link-Reachable api (some call_id) creds h =
    as_credentials-Reachable (fetch_telemost api call_id) creds (fetch_telemost-Gives api call_id) h

-- Credentials that a fetch gives, from the answer or from the socket, have an address with a host that is
-- not empty and a port between 1 and 65535.
pub telemost_fetch-Reachable :
    (api : Telemost) (hint : Bytes) (creds : Credentials)
    → telemost_fetch api hint ≡ ok creds
    → Reachable (creds.server_addr)
unfolding telemost_fetch
telemost_fetch-Reachable api hint creds h = fetch_link-Reachable api (telemost_call_id hint) creds h
