-- ===== src/Store/Replication/Effects.antt =====
-- internal/store/replication.go: what a received operation does to the tables of notifications. JSON and
-- SHA-256 are parameters.
pub mod Rows
use Prim.Native.String.{◌++◌}
use tintwire.Prelude.{
  ℕ, min, max, String, Bool, true, false, not, Option, none, some, List, ◌∷◌, ◌&&◌, ◌||◌, ◌==◌,
  string_eq, nat_eq, ltb, if◌then◌else◌, any_row, find_row, count_where, update_where, str_ltb,
}
use tintwire.Store.Op.{
  Op, pure, fail, query, exec, require, require_some, ◌>>=◌, ◌>>◌, invalid_input, constraint,
  collision, not_found, no_rows,
}
use tintwire.Store.Snapshot.{Notification, Codec, state_rank, higher_state, content_key}
use tintwire.Store.Replication.{ReplicationOperation, Receiver}

-- `replicatedNotification`
pub record ReplicatedNotification : Type 0 where
  pub notification_id : String
  pub state : String
  pub text : String
  pub username : String
  pub icon_url : String
  pub card_json : String
  pub attachments_json : String
  pub raw_payload_json : String
  pub external_key : String
  pub channel_name : String
  pub created_at : ℕ
  pub updated_at : ℕ
  pub event_id : String

-- The tables: channels and webhooks by id, with the name and the token's hash that are unique there.
pub record Inbox : Type 0 where
  pub channels : List (String × String)
  pub webhooks : List (String × String)
  pub notifications : List Notification

-- What the code takes from `encoding/json` and `crypto/sha256`.
pub record Wire : Type 0 where
  pub codec : Codec
  pub decode : String → Option ReplicatedNotification  -- `json.Unmarshal`
  pub external_key_digest : String → String → String  -- of both texts, joined by a zero byte

-- `INSERT … ON CONFLICT(id) DO NOTHING` into a table whose second column is unique too
abbrev pub has_key : String → String × String → Bool
has_key k row = row.0 == k

abbrev pub has_value : String → String × String → Bool
has_value v row = row.1 == v

unfoldable pub insert_channel : String → String → Op Inbox (Unit {0})
insert_channel id name = do
  known ← query (λ db. any_row (has_key id) db.channels)
  taken ← query (λ db. any_row (has_value name) db.channels)
  require (known || not taken) constraint
  exec (λ db. if known then db else record db { channels = (id, name) ∷ db.channels })

unfoldable pub insert_webhook : String → String → Op Inbox (Unit {0})
insert_webhook id token_hash = do
  known ← query (λ db. any_row (has_key id) db.webhooks)
  taken ← query (λ db. any_row (has_value token_hash) db.webhooks)
  require (known || not taken) constraint
  exec (λ db. if known then db else record db { webhooks = (id, token_hash) ∷ db.webhooks })

abbrev pub set_inbox : (List Notification → List Notification) → Inbox → Inbox
set_inbox f db = record db { notifications = f db.notifications }

-- the row that `notification.created` makes
abbrev pub created_row : ReplicationOperation → ReplicatedNotification → Notification
created_row op p = record {
  id = p.notification_id;
  channel_id = op.channel_id;
  webhook_id = op.actor_id;
  text = p.text;
  username = p.username;
  icon_url = p.icon_url;
  attachments = p.attachments_json;
  raw_payload = p.raw_payload_json;
  card = p.card_json;
  created_at = p.created_at;
  updated_at = p.updated_at;
  external_key = p.external_key;
  state = p.state;
}

-- the primary key, and the unique index on webhook and external key
abbrev pub clashes : Notification → Notification → Bool
clashes n row =
    row.id == n.id
    || not (n.external_key == "")
      && row.webhook_id == n.webhook_id
      && row.external_key == n.external_key

module _ (wire : Wire) where
  open wire use {codec, decode, external_key_digest}

  -- `notificationIDForExternalKey`
  unfoldable pub notification_id_for_external_key : String → String → String
  notification_id_for_external_key webhook_id external_key =
      "ntf_" ++ external_key_digest webhook_id external_key

  -- the `UPDATE` of a creation that meets the notification already there, on a row
  unfoldable pub created_change : Notification → Notification → Notification → Notification
  created_change local incoming row =
      let state = higher_state local.state incoming.state in
      let wins =
        ltb local.updated_at incoming.updated_at
        || incoming.updated_at == local.updated_at
          && str_ltb (content_key codec local) (content_key codec incoming) in
      if wins
      then record row {
        channel_id = incoming.channel_id;
        text = incoming.text;
        username = incoming.username;
        icon_url = incoming.icon_url;
        attachments = incoming.attachments;
        raw_payload = incoming.raw_payload;
        card = incoming.card;
        created_at = min row.created_at incoming.created_at;
        updated_at = incoming.updated_at;
        state = state;
      }
      else record row { created_at = min row.created_at incoming.created_at; state = state }

  -- a creation whose `INSERT` failed
  unfoldable pub merge_created : Notification → Op Inbox (Unit {0})
  merge_created incoming = do
    require (not (incoming.external_key == "")) constraint
    row ← query (λ db. find_row (λ n. n.id) (incoming.id) db.notifications)
    local ← require_some row constraint
    require
        (local.webhook_id == incoming.webhook_id
          && local.external_key == incoming.external_key
          && incoming.id
            == notification_id_for_external_key (incoming.webhook_id) (incoming.external_key))
        collision
    exec (set_inbox (update_where (λ n. n.id == incoming.id) (created_change local incoming)))

  unfoldable pub insert_or_merge : Notification → Bool → Op Inbox (Unit {0})
  insert_or_merge incoming true = merge_created incoming
  insert_or_merge incoming false = exec (set_inbox (λ rows. incoming ∷ rows))

  -- `notification.created`
  unfoldable pub create_notification :
      ReplicationOperation → ReplicatedNotification → Op Inbox (Unit {0})
  create_notification op p = do
    require (not (p.channel_name == "")) invalid_input
    insert_channel (op.channel_id) (p.channel_name)
    insert_webhook (op.actor_id) (codec.sha256_hex (op.actor_id))
    clash ← query (λ db. any_row (clashes (created_row op p)) db.notifications)
    insert_or_merge (created_row op p) clash

  abbrev pub updated_row :
      ReplicationOperation → ReplicatedNotification → Notification → Notification
  updated_row op p row = record row {
    channel_id = op.channel_id;
    text = p.text;
    username = p.username;
    icon_url = p.icon_url;
    attachments = p.attachments_json;
    raw_payload = p.raw_payload_json;
    state = p.state;
    updated_at = p.updated_at;
    card = p.card_json;
  }

  -- `notification.updated`
  unfoldable pub update_notification :
      ReplicationOperation → ReplicatedNotification → Op Inbox (Unit {0})
  update_notification op p = do
    changed ← query (λ db. count_where (λ n. n.id == p.notification_id) db.notifications)
    exec (set_inbox (update_where (λ n. n.id == p.notification_id) (updated_row op p)))
    require (changed == 1) not_found

  abbrev pub raised_row : ReplicatedNotification → Notification → Notification
  raised_row p n = record n { state = p.state; updated_at = max n.updated_at p.updated_at }

  -- the `UPDATE` of a state of higher rank
  abbrev pub raise_if_higher : ReplicatedNotification → Notification → Op Inbox (Unit {0})
  raise_if_higher p current =
      if ltb (state_rank current.state) (state_rank p.state)
      then exec (set_inbox (update_where (λ n. n.id == p.notification_id) (raised_row p)))
      else pure tt

  -- `notification.state`
  unfoldable pub raise_notification_state : ReplicatedNotification → Op Inbox (Unit {0})
  raise_notification_state p = do
    row ← query (λ db. find_row (λ n. n.id) (p.notification_id) db.notifications)
    current ← require_some row no_rows
    raise_if_higher p current

  abbrev pub effect_of_kind : ReplicationOperation → ReplicatedNotification → Op Inbox (Unit {0})
  effect_of_kind op p =
      if op.kind == "notification.created"
      then create_notification op p
      else if op.kind == "notification.updated"
      then update_notification op p
      else if op.kind == "notification.state"
      then raise_notification_state p
      else fail invalid_input

  -- `applyReplicationEffect`
  unfoldable pub apply_effect : ReplicationOperation → Op Inbox (Unit {0})
  apply_effect op = do
    p ← require_some (decode (op.payload)) invalid_input
    require (not (p.notification_id == "")) invalid_input
    effect_of_kind op p

  abbrev pub receiver : Receiver Inbox
  receiver = record { json_valid = codec.json_valid; effect = apply_effect }
