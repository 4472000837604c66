-- ===== src/Yandex/Address.antt =====
-- pkg/wgturn/provider/yandex: the address of the credentials that Telemost gives.
use wgturn_core.Prelude.{
  none-ne-some, some-inj, true, false, List, [], ◌∷◌, Option, none, some, Bytes, ◌≡◌, inl, inr,
  refl, sym, ap, ◌∙◌, Bool-cases, Option-cases, ◌||◌, subst, codes,
}
use wgturn_core.Json.{
  Json, null, boolean, number, text, array, object, Items, no_item, item, Fields, at_key,
  text_or_empty,
}
use wgturn_core.Tunnel.{is_nil}
use wgturn_core.Tunnel.HostPort.{split_host_port}
use wgturn_core.Conf.Strings.{trim_space, atoi}
use wgturn_core.Links.{bare_url, telemost_schemes, telemost_turn_url, is_port}
use wgturn_core.Yandex.{
  TurnServer, is_turn_url, turn_addr, with_addr, or_else, item_addr, first_addr, urls_addr, urls_of,
  try_ice_fields,
}
use wgturn_core.Yandex.Walk.{Inside, entry, in_array, in_object, walk_for_turn-Inside}
use wgturn_core.Yandex.Flow.{
  IceServer, Conference, first_url, pool_server, turn_from_conference, scan_frame_for_turn,
}

-- A host that is not empty and a port between 1 and 65535.
pub record Reachable (addr : Bytes) : Type 0 where
  pub host : Bytes
  pub port : Bytes
  pub splits : split_host_port addr ≡ some (host, port)
  pub has_host : is_nil host ≡ false
  pub has_port : is_port (atoi port) ≡ true

telemost_turn_url-Reachable :
    (raw addr : Bytes) → telemost_turn_url raw ≡ some addr → Reachable addr
unfolding telemost_turn_url
telemost_turn_url-Reachable raw addr h = elim (Bool-cases (is_nil (trim_space raw))) [
  | inl e ↦ absurd (none-ne-some (rw (e) at h))
  | inr e ↦ elim (Option-cases (split_host_port (bare_url telemost_schemes (trim_space raw)))) [
    | inl f ↦ absurd (none-ne-some (rw (e, f) at h))
    | inr ((host, port), f) ↦ elim (Bool-cases (is_nil host)) [
      | inl g ↦ absurd (none-ne-some (rw (e, f, g) at h))
      | inr g ↦ elim (Bool-cases (is_port (atoi port))) [
        | inr k ↦ absurd (none-ne-some (rw (e, f, g, k) at h))
        | inl k ↦
            let same : bare_url telemost_schemes (trim_space raw) ≡ addr =
              some-inj (rw (e, f, g, k) at h) in
            record {
              host = host;
              port = port;
              splits = ap split_host_port (sym same) ∙ f;
              has_host = g;
              has_port = k;
            }
      ]
    ]
  ]
]

turn_addr-Reachable : (raw addr : Bytes) → turn_addr raw ≡ some addr → Reachable addr
unfolding turn_addr
turn_addr-Reachable raw addr h = elim (Bool-cases (is_turn_url raw)) [
  | inl e ↦ telemost_turn_url-Reachable raw addr (rw (e) at h)
  | inr e ↦ absurd (none-ne-some (rw (e) at h))
]

-- A choice between two addresses that are reachable.
or_else-Reachable :
    (a b : Option Bytes) (addr : Bytes)
    → ((x : Bytes) → a ≡ some x → Reachable x)
    → ((x : Bytes) → b ≡ some x → Reachable x)
    → or_else a b ≡ some addr
    → Reachable addr
or_else-Reachable none b addr f g h = g addr h
or_else-Reachable (some x) b addr f g h = f addr h

item_addr-Reachable : (v : Json) (addr : Bytes) → item_addr v ≡ some addr → Reachable addr
item_addr-Reachable (text s) addr h = turn_addr-Reachable s addr h
item_addr-Reachable null addr h = absurd (none-ne-some h)
item_addr-Reachable (boolean b) addr h = absurd (none-ne-some h)
item_addr-Reachable (number z whole) addr h = absurd (none-ne-some h)
item_addr-Reachable (array vs) addr h = absurd (none-ne-some h)
item_addr-Reachable (object m) addr h = absurd (none-ne-some h)

first_addr-Reachable : (vs : Items) (addr : Bytes) → first_addr vs ≡ some addr → Reachable addr
unfolding first_addr
first_addr-Reachable no_item addr h = absurd (none-ne-some h)
first_addr-Reachable (item v rest) addr h =
    or_else-Reachable (item_addr v) (first_addr rest) addr (item_addr-Reachable v)
      (first_addr-Reachable rest) h

urls_addr-Reachable : (v : Option Json) (addr : Bytes) → urls_addr v ≡ some addr → Reachable addr
urls_addr-Reachable (some (text s)) addr h = turn_addr-Reachable s addr h
urls_addr-Reachable (some (array vs)) addr h = first_addr-Reachable vs addr h
urls_addr-Reachable none addr h = absurd (none-ne-some h)
urls_addr-Reachable (some null) addr h = absurd (none-ne-some h)
urls_addr-Reachable (some (boolean b)) addr h = absurd (none-ne-some h)
urls_addr-Reachable (some (number z whole)) addr h = absurd (none-ne-some h)
urls_addr-Reachable (some (object m)) addr h = absurd (none-ne-some h)

with_addr-Reachable :
    (user pass : Bytes) (o : Option Bytes) (t : TurnServer)
    → ((x : Bytes) → o ≡ some x → Reachable x)
    → with_addr user pass o ≡ some t
    → Reachable (t.addr)
with_addr-Reachable user pass none t f h = absurd (none-ne-some h)
with_addr-Reachable user pass (some x) t f h =
    subst (λ s. Reachable (s.addr)) (some-inj h) (f x refl)

try_ice_fields-Reachable :
    (m : Fields) (t : TurnServer) → try_ice_fields m ≡ some t → Reachable (t.addr)
unfolding try_ice_fields
try_ice_fields-Reachable m t h =
    let user = text_or_empty (at_key (codes "username") m) in
    let pass = text_or_empty (at_key (codes "credential") m) in
    elim (Bool-cases (is_nil user || is_nil pass)) [
      | inl e ↦ absurd (none-ne-some (rw (e) at h))
      | inr e ↦
          with_addr-Reachable user pass (urls_addr (urls_of m)) t (urls_addr-Reachable (urls_of m))
            (rw (e) at h)
    ]

Inside-Reachable : (v : Json) (t : TurnServer) → Inside v t → Reachable (t.addr)
Inside-Reachable v t (entry m _ h) = try_ice_fields-Reachable m t h
Inside-Reachable v t (in_array vs w _ at inside) = Inside-Reachable w t inside
Inside-Reachable v t (in_object m w _ at inside) = Inside-Reachable w t inside

first_url-Reachable :
    (urls : List Bytes) (addr : Bytes) → first_url urls ≡ some addr → Reachable addr
unfolding first_url
first_url-Reachable [] addr h = absurd (none-ne-some h)
first_url-Reachable (raw ∷ rest) addr h =
    or_else-Reachable (turn_addr raw) (first_url rest) addr (turn_addr-Reachable raw)
      (first_url-Reachable rest) h

-- Of two choices of a server.
either_server :
    (a b : Option TurnServer) (t : TurnServer)
    → ((s : TurnServer) → a ≡ some s → Reachable (s.addr))
    → ((s : TurnServer) → b ≡ some s → Reachable (s.addr))
    → or_else a b ≡ some t
    → Reachable (t.addr)
either_server none b t f g h = g t h
either_server (some s) b t f g h = f t h

pool_server-Reachable :
    (srvs : List IceServer) (t : TurnServer) → pool_server srvs ≡ some t → Reachable (t.addr)
unfolding pool_server
pool_server-Reachable [] t h = absurd (none-ne-some h)
pool_server-Reachable (srv ∷ rest) t h =
    either_server (with_addr (srv.username) (srv.credential) (first_url (srv.urls)))
      (pool_server rest) t
      (λ s.
        with_addr-Reachable (srv.username) (srv.credential) (first_url (srv.urls)) s
          (first_url-Reachable (srv.urls)))
      (pool_server-Reachable rest) h

pub turn_from_conference-Reachable :
    (conf : Conference) (t : TurnServer) → turn_from_conference conf ≡ some t → Reachable (t.addr)
unfolding turn_from_conference
turn_from_conference-Reachable conf t h =
    either_server (pool_server (conf.ice_servers)) (pool_server (conf.inner_servers)) t
      (pool_server-Reachable (conf.ice_servers)) (pool_server-Reachable (conf.inner_servers)) h

pub scan_frame-Reachable :
    (raw : Option Json) (t : TurnServer) → scan_frame_for_turn raw ≡ some t → Reachable (t.addr)
unfolding scan_frame_for_turn
scan_frame-Reachable none t h = absurd (none-ne-some h)
scan_frame-Reachable (some v) t h = Inside-Reachable v t ((walk_for_turn-Inside v).0 t h)
