-- ===== src/Store/Notifications/Incoming.antt =====
-- `CreateFromWebhook` of internal/store/store.go: a producer posts a notification, or posts one again under
-- the same external key.
pub mod Post
pub mod Delivery
pub mod Redelivery
use Prim.Native.String.{◌++◌, [], ◌∷◌ as cons}
use tintwire.Prelude.{
  ℕ, ◌+◌, String, Bool, not, true, false, Option, none, some, List, [] as list_nil,
  ◌∷◌ as list_cons, ◌&&◌, ◌||◌, ◌==◌, string_eq, nat_eq, ltb, leb, if◌then◌else◌, update_where,
  delete_where, find_row, select_where, any_row, lookup, insert, without, trim_space, byte_length,
}
use tintwire.Store.Op.{
  Op, pure, fail, query, exec, require, require_some, transaction, ◌>>=◌, ◌>>◌, not_found,
  forbidden, invalid_input, constraint,
}
use tintwire.Store.Tables.{Channel}
use tintwire.Store.Snapshot.{Notification, state_rank}
use tintwire.Store.Notifications.{
  NotificationDb, Webhook, Store, Site, on_tables, set_rows, notification_row, add_event,
  append_map,
}

-- `IncomingNotification`
pub record IncomingNotification : Type 0 where
  pub channel : String
  pub text : String
  pub username : String
  pub icon_url : String
  pub attachments : String
  pub state : String
  pub external_key : String
  pub card : String
  pub raw_payload : String

-- the fields of the `Notification` that is returned
pub record Delivered : Type 0 where
  pub id : String
  pub channel_id : String
  pub channel_name : String
  pub state : String
  pub created_at : ℕ
  pub updated_at : ℕ

-- `x` unless it is empty
abbrev pub or_else : String → String → String
or_else x y = if x == "" then y else x

-- the input with the defaults of its state, attachments and user name
unfoldable pub with_defaults : IncomingNotification → IncomingNotification
with_defaults input = record input {
  state = or_else input.state "received";
  attachments = or_else input.attachments "[]";
  username = or_else input.username "webhook";
}

abbrev pub is_state : String → Bool
is_state s = s == "received" || s == "firing" || s == "acknowledged" || s == "resolved"

-- `strings.TrimPrefix(s, "#")`
unfoldable pub without_hash : String → String
without_hash [] = ""
without_hash (cons c s) = if cons c "" == "#" then s else cons c s

-- the state that a repeated post gives a row
unfoldable pub is_reopened : String → String → Bool
is_reopened current incoming = current == "resolved" && incoming == "firing"

unfoldable pub next_state : String → String → String
unfolding is_reopened
next_state current incoming =
    if not (is_reopened current incoming) && ltb (state_rank incoming) (state_rank current)
    then current
    else incoming

abbrev pub keyed_row : String → String → Store → Option Notification
keyed_row webhook_id key db =
    select_where (λ n. n.webhook_id == webhook_id && n.external_key == key) db.effects.notifications

abbrev pub or_locked : Option String → String
or_locked none = "locked"
or_locked (some policy) = policy

abbrev pub new_row : Webhook → Channel → IncomingNotification → String → ℕ → Notification
new_row hook channel input id now = record {
  id = id;
  channel_id = channel.id;
  webhook_id = hook.id;
  text = input.text;
  username = input.username;
  icon_url = input.icon_url;
  attachments = input.attachments;
  raw_payload = input.raw_payload;
  card = input.card;
  created_at = now;
  updated_at = now;
  external_key = input.external_key;
  state = input.state;
}

-- a time after the row was created
abbrev pub after_created : ℕ → Notification → ℕ
after_created now n = if leb now n.created_at then n.created_at + 1 else now

-- what the update of a row that was posted before writes
abbrev pub updated : Channel → IncomingNotification → String → ℕ → Notification → Notification
updated channel input state at n = record n {
  channel_id = channel.id;
  text = input.text;
  username = input.username;
  icon_url = input.icon_url;
  attachments = input.attachments;
  raw_payload = input.raw_payload;
  state = state;
  updated_at = at;
  card = input.card;
}

-- `DELETE FROM notification_user_state` of a notification that is new work again
abbrev pub forget_readers : Bool → String → Store → Store
forget_readers reopened id db =
    if reopened
    then on_tables (λ t. record t { user_states = delete_where (λ u. u.0.1 == id) t.user_states })
        db
    else db

abbrev pub set_incidents : (List (String × String) → List (String × String)) → Store → Store
set_incidents f = on_tables (λ t. record t { incidents = f t.incidents })

-- a heartbeat of the monitors of the producer
abbrev pub heartbeat : String → String → ℕ → Store → Store
heartbeat channel_id source at = on_tables λ t. record t {
  monitors =
      update_where (λ m. m.channel_id == channel_id && m.source == source)
        (λ m. record m { last_seen = at }) t.monitors;
}

module _ (site : Site) where
  open site use {number, card_key, props_key, sha256_hex, sha256_hex16}

  -- the incident key of a post: of the card, or else of the payload
  unfoldable pub incident_key : IncomingNotification → String
  incident_key input =
      or_else (trim_space (card_key input.card)) (trim_space (props_key input.raw_payload))

  unfoldable pub save_incident_key : String → IncomingNotification → Op Store (Unit {0})
  save_incident_key id input = do
    require (leb (byte_length (incident_key input)) 200) invalid_input
    exec (
        set_incidents
          (if incident_key input == "" then without id else insert id (incident_key input)))

  unfoldable pub notification_id_for_external_key : String → String → String
  notification_id_for_external_key webhook_id key =
      "ntf_" ++ sha256_hex16 (webhook_id ++ "\0" ++ key)

  -- `SELECT … FROM webhooks w JOIN channels c` with the hash of the token
  unfoldable pub webhook_row : String → Store → Option Webhook
  webhook_row token db =
      select_where (λ w. w.token_hash == sha256_hex token && not w.revoked) db.effects.webhooks

  -- the channel that the policy of the webhook lets the input name
  unfoldable pub choose_channel : String → String → Channel → Op Store Channel
  choose_channel token name own = do
    policy ← query (λ db.
        or_locked (lookup ("webhook_channel_policy:" ++ sha256_hex token) db.effects.settings))
    named ← query (λ db. select_where (λ c. c.name == name && c.is_public) db.effects.base.channels)
    if policy == "public" then require_some named forbidden else pure own

  unfoldable pub target_channel : String → IncomingNotification → Channel → Op Store Channel
  target_channel token input own =
      if without_hash (trim_space (input.channel)) == ""
      then pure own
      else choose_channel token (without_hash (trim_space (input.channel))) own

  -- the fields that both kinds of operation carry
  abbrev shared_fields :
      String → IncomingNotification → String → ℕ → List (String × String) → List (String × String)
  shared_fields id input state at rest =
      list_cons ("notification_id", id)
        (list_cons ("state", state)
          (list_cons ("text", input.text)
            (list_cons ("username", input.username)
              (list_cons ("icon_url", input.icon_url)
                (list_cons ("card_json", input.card)
                  (list_cons ("attachments_json", input.attachments)
                    (list_cons ("raw_payload_json", input.raw_payload)
                      (list_cons ("updated_at", number at) rest))))))))

  -- what follows a written row: its event, its operation in the log, the heartbeat and the incident
  unfoldable pub record_delivery :
      String
      → String
      → String
      → Channel
      → IncomingNotification
      → String
      → List (String × String)
      → String
      → Bool
      → ℕ
      → Op Store (Unit {0})
  record_delivery kind webhook_id id channel input state fields event_id reopened at = do
    exec (
        add_event (record {
          id = event_id;
          notification_id = id;
          state = state;
          raw_payload = input.raw_payload;
          created_at = at;
          actor_user_id = none;
        }))
    exec (forget_readers reopened id)
    append_map site kind (channel.id) "webhook" webhook_id (shared_fields id input state at fields)
        at
    exec (heartbeat (channel.id) (input.username) at)
    save_incident_key id input
