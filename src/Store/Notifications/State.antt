-- ===== src/Store/Notifications/State.antt =====
-- `SetNotificationState` of internal/store/store.go: a user acknowledges or resolves a notification.
pub mod Raise
use tintwire.Prelude.{
  ℕ, ◌+◌, String, Bool, some, [], ◌∷◌, ◌&&◌, ◌||◌, ◌==◌, string_eq, nat_eq, leb, if◌then◌else◌,
  update_where, any_row,
}
use tintwire.Store.Op.{
  Op, pure, query, exec, require, require_some, transaction, ◌>>=◌, ◌>>◌, not_found, forbidden,
  invalid_transition, constraint,
}
use tintwire.Store.Tables.{User}
use tintwire.Store.Authority.{is_operator}
use tintwire.Store.Snapshot.{Notification}
use tintwire.Store.Notifications.{Store, Site, set_rows, notification_row, add_event, append_map}

unfoldable pub is_target_state : String → Bool
is_target_state state = state == "acknowledged" || state == "resolved"

unfoldable pub is_valid_transition : String → String → Bool
is_valid_transition current next =
    (current == "received" || current == "firing") && (next == "acknowledged" || next == "resolved")
    || current == "acknowledged" && next == "resolved"

abbrev pub may_set_state : User → String → Store → Bool
may_set_state actor channel_id db =
    actor.is_admin || is_operator db.effects.base actor.id channel_id

-- an `updated_at` later than the row's
abbrev pub after_update : ℕ → Notification → ℕ
after_update now n = if leb now n.updated_at then n.updated_at + 1 else now

abbrev pub with_state : String → ℕ → Notification → Notification
with_state state at n = record n { state = state; updated_at = at }

-- the key of `users` that `actor_user_id` references
abbrev pub is_user : String → Store → Bool
is_user id db = any_row (λ u. u.id == id) db.effects.base.users

module _ (site : Site) where
  open site use {number}

  -- the statements of a transition
  unfoldable pub write_state : Notification → User → String → String → ℕ → Op Store (Unit {0})
  write_state n actor next event_id at = do
    exec (set_rows (update_where (λ r. r.id == n.id) (with_state next at)))
    known ← query (is_user (actor.id))
    require known constraint
    exec (
        add_event (record {
          id = event_id;
          notification_id = n.id;
          state = next;
          raw_payload = "{}";
          created_at = at;
          actor_user_id = some (actor.id);
        }))
    append_map site "notification.state" (n.channel_id) "user" (actor.id)
        (("notification_id", n.id)
          ∷ ("state", next)
          ∷ ("event_id", event_id)
          ∷ ("updated_at", number at)
          ∷ [])
        at

  abbrev pub change_state : Notification → User → String → String → ℕ → Op Store (Unit {0})
  change_state n actor next event_id now = do
    require (is_valid_transition (n.state) next) invalid_transition
    write_state n actor next event_id (after_update now n)

  -- `SetNotificationState`
  unfoldable pub set_notification_state : String → User → String → String → ℕ → Op Store (Unit {0})
  unfolding write_state
  set_notification_state id actor next event_id now = do
    require (is_target_state next) invalid_transition
    transaction (do
      row ← query (notification_row id)
      n ← require_some row not_found
      allowed ← query (may_set_state actor (n.channel_id))
      require allowed forbidden
      if n.state == next then pure tt else change_state n actor next event_id now)
