-- ===== src/Links/Tests.antt =====
-- Runs of the links, and the property at a concrete link.
use wgturn_core.Prelude.{true, none, some, codes, contains, has_prefix, ◌≡◌, inl, refl}
use wgturn_core.Tunnel.HostPort.{split_host_port}
use wgturn_core.Conf.Strings.{trim_left, trim_right, trim_space, to_lower, atoi, number, digits}
use wgturn_core.Links.Ids.{IsCallId, extract_settled}
use wgturn_core.Links.{
  after_first, until, all_call_id, checked_id, call_id, vk_call_id, telemost_call_id,
  is_telemost_link, drop_scheme, bare_url, vk_turn_url, telemost_turn_url,
}

some_link :
    (vk_call_id (codes " https://vk.com/call/join/Ab-1_.?utm=foo") ≡ some (codes "Ab-1_."))
    × (vk_call_id (codes "vk.com/call") ≡ none)
    × (vk_call_id (codes "https://telemost.yandex.ru/j/1") ≡ none)
    × (telemost_call_id (codes "Telemost:https://telemost.yandex.ru/j/42/") ≡ some (codes "42"))
unfolding vk_call_id telemost_call_id call_id checked_id all_call_id until after_first contains
    has_prefix trim_space trim_left trim_right to_lower
some_link = (refl, refl, refl, refl)

extract_settled_example :
    IsCallId (codes "Ab-1_.")
    × (vk_call_id (codes "Ab-1_.") ≡ some (codes "Ab-1_."))
    × (telemost_call_id (codes "Ab-1_.") ≡ some (codes "Ab-1_."))
extract_settled_example =
    extract_settled (codes " https://vk.com/call/join/Ab-1_.?utm=foo") (codes "Ab-1_.")
      (inl some_link.0)

-- A VK link whose id has the name of the other service is taken for a link of that service.
vk_link_as_telemost :
    (is_telemost_link (codes "https://vk.com/call/join/telemost.yandex.x") ≡ true)
    × (vk_call_id (codes "https://vk.com/call/join/telemost.yandex.x")
        ≡ some (codes "telemost.yandex.x"))
unfolding is_telemost_link vk_call_id call_id checked_id all_call_id until after_first contains
    has_prefix trim_space trim_left trim_right to_lower
vk_link_as_telemost = (refl, refl)

turn_urls :
    (vk_turn_url (codes "turn:192.0.2.1:3478?transport=tcp") ≡ some (codes "192.0.2.1:3478"))
    × (vk_turn_url (codes "turn:h:port") ≡ some (codes "h:port"))
    × (telemost_turn_url (codes "turn:h:port") ≡ none)
    × (telemost_turn_url (codes "turns:h:443") ≡ some (codes "h:443"))
    × (telemost_turn_url (codes "turn::443") ≡ none)
unfolding vk_turn_url telemost_turn_url bare_url drop_scheme until has_prefix trim_space trim_left
    trim_right split_host_port atoi number digits
turn_urls = (refl, refl, refl, refl, refl)
