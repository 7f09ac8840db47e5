-- ===== src/Store/Notifications/Tests.antt =====
-- internal/store: notifications at concrete inputs.
use tintwire.Prelude.{
  ℕ, String, ◌≡◌, refl, true, false, string_eq, [], ◌∷◌, lookup, insert, without, trim_space,
  byte_length, leb, ◌&&◌, if◌then◌else◌, arith,
}
use tintwire.Store.Op.{
  ok, err, invalid_transition, pure, query, exec, require, require_some, transaction, ◌>>=◌,
}
use tintwire.Store.Tables.{User}
use tintwire.Store.Snapshot.{Notification, state_rank}
use tintwire.Store.Replication.Origin.{append_replication_operation}
use tintwire.Store.Notifications.{NotificationDb, Store, Site, ProducerMonitor, pair_eq}
use tintwire.Store.Notifications.State.{
  is_valid_transition, is_target_state, write_state, set_notification_state,
}
use tintwire.Store.Notifications.State.Raise.{granted, answered_by_rank, Granted}
use tintwire.Store.Notifications.Incoming.{
  IncomingNotification, Delivered, with_defaults, without_hash, is_reopened, next_state,
  incident_key, save_incident_key, notification_id_for_external_key, webhook_row, choose_channel,
  target_channel, record_delivery,
}
use tintwire.Store.Notifications.Incoming.Post.{
  update_existing, new_id, insert_new, deliver, create_from_webhook,
}
use tintwire.Store.Notifications.Incoming.Redelivery.{redelivered, Redelivered}
use tintwire.Store.Notifications.Reading.{raise_read, clear_unread, may_read, mark_channel_read}
use tintwire.Store.Notifications.Reading.Marked.{marked_read, CaughtUp}
use tintwire.Store.Notifications.Monitors.Check.{transition_monitor}
use tintwire.Store.Notifications.Monitors.Once.{transition_once, heartbeat_wins}

abbrev site : Site
site = record {
  cluster_id = "";
  node_id = "n1";
  encode = λ fields. "{}";
  number = λ n. "";
  card_key = λ card. "";
  props_key = λ payload. "disk";
  sha256_hex = λ s. s;
  sha256_hex16 = λ s. s;
}

abbrev admin : User
admin = record { id = "u1"; username = "ada"; is_admin = true; disabled = false }

abbrev monitor : ProducerMonitor
monitor = record {
  id = "m1";
  channel_id = "c1";
  name = "backup";
  source = "cron";
  period_seconds = 60;
  grace_seconds = 0;
  daily = record { time = ""; timezone = "" };
  last_seen = 5;
  state = "healthy";
  notification_id = "";
}

abbrev tables : NotificationDb
tables = record {
  base = record {
    users = admin ∷ [];
    channels = record { id = "c1"; name = "ops"; is_public = true } ∷ [];
    memberships = [];
    agents = [];
    bot_token_users = [];
    bindings = [];
    commands = [];
    messages = [];
    audit = [];
  };
  webhooks = record { id = "w1"; token_hash = "token"; channel_id = "c1"; revoked = false } ∷ [];
  settings = [];
  notifications = [];
  events = [];
  incidents = [];
  responses = [];
  user_states = [];
  read_states = [];
  preferences = [];
  monitors = monitor ∷ [];
}

abbrev store : Store
store = record { effects = tables; operations = []; cursors = []; quarantine = [] }

-- a post under the key "disk"
abbrev post : String → IncomingNotification
post state = record {
  channel = "";
  text = "disk full";
  username = "cron";
  icon_url = "";
  attachments = "";
  state = state;
  external_key = "disk";
  card = "";
  raw_payload = "{}";
}

abbrev delivered : String → ℕ → Delivered
delivered state at = record {
  id = "ntf_w1\0disk";
  channel_id = "c1";
  channel_name = "ops";
  state = state;
  created_at = 10;
  updated_at = at;
}

abbrev alert : Notification
alert = record {
  id = "a1";
  channel_id = "c1";
  webhook_id = "w1";
  text = "disk full";
  username = "cron";
  icon_url = "";
  attachments = "[]";
  raw_payload = "{}";
  card = "";
  created_at = 10;
  updated_at = 10;
  external_key = "disk";
  state = "firing";
}

-- the store with one alert
abbrev firing : Store
firing = record store { effects = record tables { notifications = alert ∷ [] } }

redelivered_example :
    Redelivered site
      (create_from_webhook site "token" (post "resolved") "x" "e1" 10 store).0
      (create_from_webhook site "token"
        (post "firing")
        "y"
        "e2"
        20
        (create_from_webhook site "token" (post "resolved") "x" "e1" 10 store).0).0
      (with_defaults (post "firing")).state
      (delivered "resolved" 10)
      (delivered "firing" 20)
unfolding create_from_webhook deliver webhook_row target_channel without_hash with_defaults
    choose_channel insert_new update_existing new_id notification_id_for_external_key
    record_delivery save_incident_key incident_key trim_space byte_length insert lookup without
    is_reopened next_state state_rank append_replication_operation pure query exec require
    require_some transaction ◌>>=◌
redelivered_example =
    redelivered site store "token" (post "resolved") (post "firing") "x" "e1" "y" "e2" 10 20
      (delivered "resolved" 10) (delivered "firing" 20) refl refl refl refl

granted_example :
    Granted firing "a1" admin "acknowledged" "e1"
      (set_notification_state site "a1" admin "acknowledged" "e1" 9 firing).0
unfolding set_notification_state is_target_state is_valid_transition write_state
    append_replication_operation pure query exec require require_some transaction ◌>>=◌
granted_example = granted site firing "a1" admin "acknowledged" "e1" 9 refl

answered_by_rank_example :
    (set_notification_state site "a1" admin "acknowledged" "e1" 9 firing).1 ≡ (
      if leb 3 (state_rank "acknowledged")
        && leb (state_rank alert.state) (state_rank "acknowledged")
      then ok tt
      else err invalid_transition)
unfolding state_rank
answered_by_rank_example =
    answered_by_rank site firing "a1" admin "acknowledged" "e1" 9 alert refl refl refl refl
      (omega arith)

marked_read_example :
    CaughtUp admin "c1" firing.effects (mark_channel_read admin "c1" 3 firing.effects).0
unfolding mark_channel_read may_read raise_read clear_unread query exec require transaction ◌>>=◌
marked_read_example = marked_read admin "c1" 3 firing.effects refl

transition_once_example :
    transition_monitor site monitor "missing" "e2" 80000
      (transition_monitor site monitor "missing" "e1" 70000 tables).0
    ≡ ((transition_monitor site monitor "missing" "e1" 70000 tables).0, ok "")
transition_once_example =
    transition_once site monitor "missing" "missing" "e1" "e2" 70000 80000 tables refl

-- the monitor as it was read before its last heartbeat
abbrev stale : ProducerMonitor
stale = record monitor { last_seen = 4 }

heartbeat_wins_example : transition_monitor site stale "missing" "e1" 70000 tables ≡ (tables, ok "")
heartbeat_wins_example = heartbeat_wins site stale "missing" "e1" 70000 tables refl
