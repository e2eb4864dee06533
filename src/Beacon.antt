-- ===== src/Beacon.antt =====
-- `BeaconStore` of src/beacon/store.js: devices, servers and notifications. The ids that makeId gives
-- are arguments.
use ender.Prelude.{
  ℕ, Bool, false, not, ◌&&◌, ◌||◌, List, Option, none, some, Text, lit, trim, lower, is_some,
  non_empty, text_eq, text_or, or_else, length, take, ltb, ◌==◌, Map, lookup, insert, values, keep,
  if◌then◌else◌,
}
use ender.Json.{Json, object, end}
use ender.Json.Read.{member, string_or, trimmed, trimmed_if, or_truthy, object_if}
use ender.Servers
use ender.Servers.{Server, ServerReply}

-- normalizeServer
pub record Backend : Type 0 where
  pub display_name : Option Text
  pub public_base_url : Option Text

unfoldable pub normalize_backend : Json → Backend
normalize_backend input = record {
  display_name =
      non_empty
        (trimmed (or_truthy (member (lit "displayName") input) (member (lit "name") input)));
  public_base_url = trimmed_if (member (lit "publicBaseUrl") input);
}

-- `upsertServer`
unfoldable pub upsert_backend :
    (Text → Text)
    → Text
    → Text
    → Text
    → Text
    → Json
    → Map (Server Backend)
    → Map (Server Backend) × ServerReply Backend
unfolding normalize_backend
upsert_backend hash at fresh user token input m =
    Servers.upsert hash at user (text_or (trimmed (member (lit "serverId") input)) fresh) token
      (normalize_backend input) m

-- normalizeDevice, with the fields of the store.
pub record Device : Type 0 where
  pub id : Text
  pub user_id : Text
  pub created_at : Text
  pub updated_at : Text
  pub deleted_at : Option Text
  pub platform : Text
  pub label : Option Text
  pub push_token : Option Text
  pub endpoint : Option Text
  pub keys : Option Json
  pub app_version : Option Text

abbrev device_of_other : Text → Option Device → Bool
device_of_other user none = false
device_of_other user (some d) = not (text_eq d.user_id user)

abbrev device_created : Option Device → Text → Text
device_created none at = at
device_created (some d) at = text_or d.created_at at

pub data DeviceReply : Type 0 where
  stored : Device → DeviceReply
  refused : Text → DeviceReply

unfoldable pub normalize_device : Text → Text → Text → Text → Json → Device
normalize_device id user created at input = record {
  id = id;
  user_id = user;
  created_at = created;
  updated_at = at;
  deleted_at = none;
  platform = lower (trim (string_or (member (lit "platform") input) (lit "unknown")));
  label = non_empty (trimmed (member (lit "label") input));
  push_token = trimmed_if (member (lit "pushToken") input);
  endpoint = trimmed_if (member (lit "endpoint") input);
  keys = object_if (member (lit "keys") input);
  app_version = trimmed_if (member (lit "appVersion") input);
}

-- `upsertDevice`
unfoldable pub upsert_device : Text → Text → Text → Json → Map Device → Map Device × DeviceReply
unfolding normalize_device
upsert_device at fresh user input m =
    let id = text_or (trimmed (member (lit "deviceId") input)) fresh in
    let d = normalize_device id user (device_created (lookup id m) at) at input in
    if device_of_other user (lookup id m)
    then (m, refused (lit "device_id_in_use"))
    else (insert id d m, stored d)

abbrev deleted_device : Text → Text → Text → Map Device → Option Device → Map Device × DeviceReply
deleted_device at user id m none = (m, refused (lit "not_found"))
deleted_device at user id m (some d) =
    let e = record d { deleted_at = some at; updated_at = at } in
    if not (text_eq d.user_id user) || is_some d.deleted_at
    then (m, refused (lit "not_found"))
    else (insert id e m, stored e)

-- `deleteDevice`
unfoldable pub delete_device : Text → Text → Text → Map Device → Map Device × DeviceReply
delete_device at user id m = deleted_device at user id m (lookup id m)

-- `listDevices`; `sort` puts the latest update first.
unfoldable pub list_devices : (List Device → List Device) → Text → Map Device → List Device
list_devices sort user m =
    sort (keep (λ (d : Device). text_eq d.user_id user && not (is_some d.deleted_at)) (values m))

-- What was sent to a device, as the push providers report it.
pub record Notification {ℓ} (V : Type ℓ) : Type ℓ where
  pub id : Text
  pub user_id : Text
  pub server_id : Text
  pub kind : Text
  pub title : Text
  pub body : Option Text
  pub task_id : Option Text
  pub thread_id : Option Text
  pub url : Option Text
  pub payload : Json
  pub read_at : Option Text
  pub deleted_at : Option Text
  pub created_at : Text
  pub device_count : ℕ
  pub deliveries : List V
  pub delivery_updated_at : Option Text

abbrev object_or_empty : Option Json → Json
object_or_empty none = object end
object_or_empty (some j) = j

-- The limit of a list: `none` is what is no number, and 0 is falsy.
unfoldable pub list_limit : Option ℕ → ℕ
list_limit none = 100
list_limit (some n) = if n == 0 then 100 else if ltb 500 n then 500 else n

module _ {ℓ} {V : Type ℓ} where
  -- `createNotification`
  unfoldable pub create_notification :
      Text
      → Text
      → Text
      → Text
      → Json
      → ℕ
      → List V
      → Map (Notification V)
      → Map (Notification V) × Notification V
  create_notification at id user server event count deliveries m =
      let n : Notification V = record {
        id = id;
        user_id = user;
        server_id = server;
        kind = trim (string_or (member (lit "type") event) (lit "event"));
        title = trim (string_or (member (lit "title") event) (lit "Ender notification"));
        body =
            non_empty
              (trimmed (or_truthy (member (lit "body") event) (member (lit "message") event)));
        task_id = trimmed_if (member (lit "taskId") event);
        thread_id = trimmed_if (member (lit "threadId") event);
        url = trimmed_if (member (lit "url") event);
        payload = object_or_empty (object_if (member (lit "data") event));
        read_at = none;
        deleted_at = none;
        created_at = at;
        device_count = count;
        deliveries = deliveries;
        delivery_updated_at = none;
      } in
      (insert id n m, n)

  abbrev pub delivered :
      Text
      → Text
      → List V
      → Map (Notification V)
      → Option (Notification V)
      → Map (Notification V) × Option (Notification V)
  delivered at id ds m none = (m, none)
  delivered at id ds m (some n) =
      let n' = record n {
        deliveries = ds;
        device_count = length ds;
        delivery_updated_at = some at;
      } in
      if is_some n.deleted_at then (m, none) else (insert id n' m, some n')

  -- `updateNotificationDeliveries`; `none` is the refusal `not_found`.
  unfoldable pub update_notification_deliveries :
      Text → Text → List V → Map (Notification V) → Map (Notification V) × Option (Notification V)
  update_notification_deliveries at id ds m = delivered at id ds m (lookup id m)

  abbrev pub read_by :
      Text
      → Text
      → Text
      → Map (Notification V)
      → Option (Notification V)
      → Map (Notification V) × Option (Notification V)
  read_by at user id m none = (m, none)
  read_by at user id m (some n) =
      let n' = record n { read_at = some (or_else n.read_at at) } in
      if not (text_eq n.user_id user) || is_some n.deleted_at
      then (m, none)
      else (insert id n' m, some n')

  -- `markNotificationRead`
  unfoldable pub mark_notification_read :
      Text → Text → Text → Map (Notification V) → Map (Notification V) × Option (Notification V)
  mark_notification_read at user id m = read_by at user id m (lookup id m)

  -- `listNotifications`; `sort` puts the latest first.
  unfoldable pub list_notifications :
      (List (Notification V) → List (Notification V))
      → Text
      → Option ℕ
      → Bool
      → Map (Notification V)
      → List (Notification V)
  unfolding list_limit
  list_notifications sort user limit unread m = take (list_limit limit) (
      sort (
        keep (λ (n : Notification V). not unread || not (is_some n.read_at))
          (keep (λ (n : Notification V). text_eq n.user_id user && not (is_some n.deleted_at))
            (values m))))
