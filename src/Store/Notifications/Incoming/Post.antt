-- ===== src/Store/Notifications/Incoming/Post.antt =====
-- `CreateFromWebhook` of internal/store/store.go: the row of a post is written or rewritten in one transaction.
use tintwire.Prelude.{
  ℕ, String, not, false, Option, none, some, [] as list_nil, ◌∷◌ as list_cons, ◌==◌, string_eq,
  nat_eq, if◌then◌else◌, update_where, find_row, any_row,
}
use tintwire.Store.Op.{
  Op, pure, query, exec, require, require_some, transaction, ◌>>=◌, ◌>>◌, not_found, invalid_input,
  constraint,
}
use tintwire.Store.Tables.{Channel}
use tintwire.Store.Snapshot.{Notification}
use tintwire.Store.Notifications.{Webhook, Store, Site, set_rows}
use tintwire.Store.Notifications.Incoming.{
  with_defaults, is_state, is_reopened, next_state, keyed_row, new_row, after_created, updated,
  notification_id_for_external_key, webhook_row, target_channel, record_delivery,
  IncomingNotification, Delivered,
}

module _ (site : Site) where
  open site use {number}

  -- the rest of `CreateFromWebhook` when the row of the external key exists
  unfoldable pub update_existing :
      Webhook → Channel → IncomingNotification → String → ℕ → Notification → Op Store Delivered
  update_existing hook channel input event_id now n = do
    exec (
        set_rows (
          update_where (λ r. r.id == n.id)
            (updated channel input (next_state n.state input.state) (after_created now n))))
    record_delivery site "notification.updated" (hook.id) (n.id) channel input
        (next_state (n.state) (input.state)) list_nil event_id (is_reopened (n.state) (input.state))
        (after_created now n)
    pure (record {
      id = n.id;
      channel_id = channel.id;
      channel_name = channel.name;
      state = next_state n.state input.state;
      created_at = n.created_at;
      updated_at = after_created now n;
    })

  -- the id of a new row; `fresh` is the result of `newID`
  unfoldable pub new_id : Webhook → IncomingNotification → String → String
  new_id hook input fresh =
      if input.external_key == ""
      then fresh
      else notification_id_for_external_key site hook.id input.external_key

  -- the rest of `CreateFromWebhook` for a new row
  unfoldable pub insert_new :
      Webhook → Channel → IncomingNotification → String → String → ℕ → Op Store Delivered
  insert_new hook channel input id event_id now = do
    taken ← query (λ db. any_row (λ n. n.id == id) db.effects.notifications)
    require (not taken) constraint
    exec (set_rows (λ rows. list_cons (new_row hook channel input id now) rows))
    record_delivery site "notification.created" (hook.id) id channel input (input.state)
        (list_cons ("external_key", input.external_key)
          (list_cons ("channel_name", channel.name)
            (list_cons ("created_at", number now) list_nil)))
        event_id false now
    pure (record {
      id = id;
      channel_id = channel.id;
      channel_name = channel.name;
      state = input.state;
      created_at = now;
      updated_at = now;
    })

  abbrev pub write_row :
      Webhook
      → Channel
      → IncomingNotification
      → String
      → String
      → ℕ
      → Option Notification
      → Op Store Delivered
  write_row hook channel input fresh event_id now none =
      insert_new hook channel input (new_id hook input fresh) event_id now
  write_row hook channel input fresh event_id now (some n) =
      update_existing hook channel input event_id now n

  -- the row of the external key, where there is one
  abbrev pub posted_before : Webhook → IncomingNotification → Store → Option Notification
  posted_before hook input db =
      if input.external_key == "" then none else keyed_row hook.id input.external_key db

  -- the transaction of `CreateFromWebhook`, on an input with its defaults
  unfoldable pub deliver : String → IncomingNotification → String → String → ℕ → Op Store Delivered
  deliver token input fresh event_id now = do
    found ← query (webhook_row site token)
    hook ← require_some found not_found
    own ← query (λ db. find_row (λ c. c.id) hook.channel_id db.effects.base.channels)
    home ← require_some own not_found
    channel ← target_channel site token input home
    before ← query (posted_before hook input)
    write_row hook channel input fresh event_id now before

  -- `CreateFromWebhook`
  unfoldable pub create_from_webhook :
      String → IncomingNotification → String → String → ℕ → Op Store Delivered
  create_from_webhook token input fresh event_id now = do
    require (is_state ((with_defaults input).state)) invalid_input
    transaction (deliver token (with_defaults input) fresh event_id now)
