-- ===== src/Store/Notifications/Monitors/Check.antt =====
-- internal/store/monitors.go: a monitor whose state is no longer the one of its row is transitioned, with the
-- alert that says so.
use Prim.Native.String.{◌++◌}
use tintwire.Prelude.{
  ℕ, String, Bool, true, none, List, [], ◌∷◌, ◌&&◌, ◌==◌, string_eq, nat_eq, ltb, if◌then◌else◌,
  any_row, count_where, update_where, delete_where,
}
use tintwire.Store.Op.{Op, pure, query, exec, transaction, ◌>>=◌, ◌>>◌}
use tintwire.Store.Snapshot.{Notification}
use tintwire.Store.Notifications.{NotificationDb, Webhook, ProducerMonitor, Site}
use tintwire.Store.Notifications.Monitors.{set_monitors, deadline, listed, Calendar}

-- the row of the monitor `m`, as `m` was read
abbrev pub is_as_read : ProducerMonitor → ProducerMonitor → Bool
is_as_read m r = r.id == m.id && r.state == m.state && r.last_seen == m.last_seen

abbrev pub lifecycle : String → String
lifecycle state = if state == "healthy" then "resolved" else "firing"

abbrev pub severity : String → String
severity state = if state == "healthy" then "success" else "warning"

abbrev pub summary : ProducerMonitor → String → String
summary m state =
    if state == "healthy"
    then "Notifications from " ++ m.source ++ " have resumed."
    else "Expected notification from " ++ m.source ++ " did not arrive before its deadline."

abbrev pub notification_id_of : ProducerMonitor → String
notification_id_of m = "ntf_" ++ m.id

abbrev pub hook_of : ProducerMonitor → String
hook_of m = "whk_" ++ m.id

abbrev pub move_to : ProducerMonitor → String → ProducerMonitor → ProducerMonitor
move_to m state r = record r { state = state; notification_id = notification_id_of m }

module _ (site : Site) where
  open site use {encode, number, sha256_hex}

  abbrev pub monitor_card : ProducerMonitor → String → String
  monitor_card m state = encode (
      ("version", number 1)
      ∷ ("title", m.name)
      ∷ ("summary", summary m state)
      ∷ ("severity", severity state)
      ∷ ("source", "Tintwire monitor")
      ∷ [])

  -- `ON CONFLICT(id) DO NOTHING`
  abbrev pub add_hook : ProducerMonitor → List Webhook → List Webhook
  add_hook m rows =
      if any_row (λ w. w.id == hook_of m) rows
      then rows
      else record {
        id = hook_of m;
        token_hash = sha256_hex ("internal-monitor:" ++ m.id);
        channel_id = m.channel_id;
        revoked = true;
      }
        ∷ rows

  abbrev pub with_alert : ProducerMonitor → String → ℕ → Notification → Notification
  with_alert m state now n = record n {
    text = summary m state;
    raw_payload = monitor_card m state;
    updated_at = now;
    state = lifecycle state;
    card = monitor_card m state;
  }

  -- `ON CONFLICT(id) DO UPDATE`
  abbrev pub save_alert : ProducerMonitor → String → ℕ → List Notification → List Notification
  save_alert m state now rows =
      if any_row (λ n. n.id == notification_id_of m) rows
      then update_where (λ n. n.id == notification_id_of m) (with_alert m state now) rows
      else record {
        id = notification_id_of m;
        channel_id = m.channel_id;
        webhook_id = hook_of m;
        text = summary m state;
        username = "Tintwire monitor";
        icon_url = "";
        attachments = "[]";
        raw_payload = monitor_card m state;
        card = monitor_card m state;
        created_at = now;
        updated_at = now;
        external_key = "";
        state = lifecycle state;
      }
        ∷ rows

  -- the statements that follow the transition of the row
  unfoldable pub raise_alert :
      ProducerMonitor → String → String → ℕ → NotificationDb → NotificationDb
  raise_alert m state event_id now db = record db {
    webhooks = add_hook m db.webhooks;
    notifications = save_alert m state now db.notifications;
    user_states =
        if lifecycle state == "firing"
        then delete_where (λ u. u.0.1 == notification_id_of m) db.user_states
        else db.user_states;
    events =
        record {
          id = event_id;
          notification_id = notification_id_of m;
          state = lifecycle state;
          raw_payload = monitor_card m state;
          created_at = now;
          actor_user_id = none;
        }
        ∷ db.events;
  }

  abbrev pub commit_transition : ProducerMonitor → String → String → ℕ → Op NotificationDb String
  commit_transition m state event_id now = do
    exec (set_monitors (update_where (is_as_read m) (move_to m state)))
    exec (raise_alert m state event_id now)
    pure (notification_id_of m)

  -- `transitionMonitor`; an update of any other number of rows than one is rolled back.
  unfoldable pub transition_monitor :
      ProducerMonitor → String → String → ℕ → Op NotificationDb String
  transition_monitor m state event_id now = do
    count ← query (λ db. count_where (is_as_read m) db.monitors)
    if count == 1 then transaction (commit_transition m state event_id now) else pure ""

  module _ (calendar : Calendar) where
    abbrev pub state_at : ProducerMonitor → ℕ → String
    state_at m now = if ltb (deadline calendar m) now then "missing" else "healthy"

    abbrev pub add_changed : String → List String → List String
    add_changed id ids = if id == "" then ids else id ∷ ids

    -- a round of the loop, with the rest of the loop
    unfoldable pub check_monitor :
        ProducerMonitor
        → String
        → ℕ
        → Op NotificationDb (List String)
        → Op NotificationDb (List String)
    check_monitor m event_id now rest = if state_at m now == m.state then rest else do
      id ← transition_monitor m (state_at m now) event_id now
      ids ← rest
      pure (add_changed id ids)

    -- The loop; `event_ids` has the result of `newID` for the event of each monitor.
    unfoldable pub check_all :
        (String → String) → ℕ → List ProducerMonitor → Op NotificationDb (List String)
    check_all event_ids now [] = pure []
    check_all event_ids now (m ∷ more) =
        check_monitor m (event_ids m.id) now (check_all event_ids now more)

    -- `CheckMonitors`, as an administrator
    unfoldable pub check_monitors : (String → String) → ℕ → Op NotificationDb (List String)
    check_monitors event_ids now = do
      rows ← query (λ db. listed db.monitors)
      check_all event_ids now rows
