-- ===== src/Store/Notifications.antt =====
-- internal/store/store.go: notifications, their events and how users have read them. The tables stand beside
-- the log of replicated operations, to which a change is appended in its own transaction.
pub mod State
pub mod Incoming
pub mod Reading
pub mod Monitors
mod Tests
use Prim.Native.String.{◌++◌}
use tintwire.Prelude.{
  ℕ, String, Bool, true, ◌≡◌, refl, ap, eq_iff, arith, KeyType, Option, none, some, List, [], ◌∷◌,
  ◌&&◌, ◌==◌, string_eq, ltb, if◌then◌else◌, find_row, any_row,
}
use tintwire.Store.Op.{Op, exec}
use tintwire.Store.Tables.{Db}
use tintwire.Store.Snapshot.{Notification}
use tintwire.Store.Replication.{Log}
use tintwire.Store.Replication.Origin.{append_replication_operation}

-- a row of `webhooks`
pub record Webhook : Type 0 where
  pub id : String
  pub token_hash : String
  pub channel_id : String
  pub revoked : Bool  -- `revoked_at IS NOT NULL`

-- a row of `notification_events`; an event of no user has no actor
pub record NotificationEvent : Type 0 where
  pub id : String
  pub notification_id : String
  pub state : String
  pub raw_payload : String
  pub created_at : ℕ
  pub actor_user_id : Option String

-- a row of `notification_user_state`, whose key is the user and the notification
pub record UserState : Type 0 where
  pub read_at : ℕ
  pub unread : Bool
  pub dismissed : Bool  -- `dismissed_at IS NOT NULL`

-- a row of `slash_command_responses`, with the channel of its execution
pub record CommandResponse : Type 0 where
  pub channel_id : String
  pub response_type : String
  pub created_at : ℕ

-- a key of two columns
pub pair_of : (a b : String × String) → (a.0 == b.0 && a.1 == b.1) ≡ true → a ≡ b
pair_of (u, c) (v, d) h =
    let first : u ≡ v = (eq_iff _ _).0 (ground arith) in
    let second : c ≡ d = (eq_iff _ _).0 (ground arith) in rw (first, second) refl

pub pair_same : (a b : String × String) → a ≡ b → (a.0 == b.0 && a.1 == b.1) ≡ true
pair_same a b e =
    rw (ap (λ p. p.0) e, ap (λ p. p.1) e, (eq_iff b.0 b.0).1 refl, (eq_iff b.1 b.1).1 refl) refl

instance abbrev pub pair_eq : KeyType (String × String)
pair_eq = record {
  equals = λ a b. a.0 == b.0 && a.1 == b.1;
  decides = λ a b. (λ h. pair_of a b h, λ e. pair_same a b e);
}

-- `DigestConfig` of internal/store/workflows.go
pub record DigestConfig : Type 0 where
  pub time : String
  pub timezone : String

-- a row of `producer_monitors`
pub record ProducerMonitor : Type 0 where
  pub id : String
  pub channel_id : String
  pub name : String
  pub source : String
  pub period_seconds : ℕ
  pub grace_seconds : ℕ
  pub daily : DigestConfig
  pub last_seen : ℕ
  pub state : String
  pub notification_id : String

-- The tables of notifications beside `base`, those of users and channels; `incidents` has the key of a
-- notification's incident, `settings` is `app_settings`, `read_states` and `preferences` have the `read_at` and the
-- `level` of a user and a channel.
pub record NotificationDb : Type 0 where
  pub base : Db
  pub webhooks : List Webhook
  pub settings : List (String × String)
  pub notifications : List Notification
  pub events : List NotificationEvent
  pub incidents : List (String × String)
  pub responses : List CommandResponse
  pub user_states : List ((String × String) × UserState)
  pub read_states : List ((String × String) × ℕ)
  pub preferences : List ((String × String) × String)
  pub monitors : List ProducerMonitor

abbrev pub Store : Type 0
Store = Log NotificationDb

-- What a store is configured with, and what the code takes from `encoding/json` and `crypto/sha256`.
pub record Site : Type 0 where
  pub cluster_id : String
  pub node_id : String
  pub encode : List (String × String) → String  -- `json.Marshal` of a map
  pub number : ℕ → String  -- a number in such a map
  pub card_key : String → String  -- `incident_key` of a card, or ""
  pub props_key : String → String  -- `props.incident_key` of a payload, or ""
  pub sha256_hex : String → String
  pub sha256_hex16 : String → String  -- of the first 16 bytes of the digest

abbrev pub on_tables : (NotificationDb → NotificationDb) → Store → Store
on_tables f db = record db { effects = f db.effects }

abbrev pub set_rows : (List Notification → List Notification) → Store → Store
set_rows f = on_tables (λ t. record t { notifications = f t.notifications })

abbrev pub notification_row : String → Store → Option Notification
notification_row id db = find_row (λ n. n.id) id db.effects.notifications

-- `insertNotificationEvent`, and the `INSERT` of a user's event
abbrev pub add_event : NotificationEvent → Store → Store
add_event e = on_tables (λ t. record t { events = e ∷ t.events })

module _ (site : Site) where
  open site use {cluster_id, node_id, encode}

  -- `appendReplicationOperation` with the payload that a map gives
  abbrev pub append_map :
      String → String → String → String → List (String × String) → ℕ → Op Store (Unit {0})
  append_map kind channel_id actor_type actor_id fields now =
      append_replication_operation cluster_id node_id kind channel_id actor_type actor_id
        (encode fields) now
