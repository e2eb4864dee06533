-- ===== src/Pillar.antt =====
-- `PillarStore` of src/pillar/store.js.
use ender.Prelude.{Option, none, some, Text, lit, is_empty, non_empty, Map, if◌then◌else◌}
use ender.Json.{Json}
use ender.Json.Read.{member, trimmed, trimmed_if, or_truthy}
use ender.Servers
use ender.Servers.{Server, Shown, show, ServerReply, find_owned}

-- normalizeServer
pub record Relay : Type 0 where
  pub display_name : Option Text
  pub beacon_server_id : Option Text

unfoldable pub normalize_server : Json → Relay
normalize_server input = record {
  display_name =
      non_empty
        (trimmed (or_truthy (member (lit "displayName") input) (member (lit "name") input)));
  beacon_server_id = trimmed_if (member (lit "beaconServerId") input);
}

-- `upsertServer`
unfoldable pub upsert_server :
    (Text → Text)
    → Text
    → Text
    → Text
    → Json
    → Map (Server Relay)
    → Map (Server Relay) × ServerReply Relay
unfolding normalize_server
upsert_server hash at user token input m =
    let id = trimmed (member (lit "serverId") input) in
    if is_empty id
    then (m, ServerReply.refused (lit "server_id_required"))
    else Servers.upsert hash at user id token (normalize_server input) m

abbrev shown_if : Option (Server Relay) → Option (Shown Relay)
shown_if none = none
shown_if (some s) = some (show s)

-- `getServerForUser`
unfoldable pub get_server_for_user : Text → Text → Map (Server Relay) → Option (Shown Relay)
unfolding find_owned
get_server_for_user user id m = shown_if (find_owned user id m)
