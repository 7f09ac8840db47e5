-- ===== src/Store/Notifications/Reading.antt =====
-- internal/store/store.go and timeline.go: what a user has read, and how much is unread.
pub mod Marked
pub mod Times
use tintwire.Prelude.{
  ℕ, ◌+◌, max, String, Bool, true, false, not, Option, none, some, List, [], ◌∷◌, ◌&&◌, ◌||◌, ◌==◌,
  string_eq, ltb, if◌then◌else◌, any_row, find_row, count_where, find, upsert, update_all,
}
use tintwire.Store.Op.{
  Op, pure, query, exec, require, require_some, transaction, ◌>>=◌, ◌>>◌, forbidden, invalid_input,
  constraint,
}
use tintwire.Store.Tables.{User, Channel, Message}
use tintwire.Store.Authority.{is_member}
use tintwire.Store.Snapshot.{Notification}
use tintwire.Store.Notifications.{NotificationDb, UserState, CommandResponse, pair_eq}

-- `COALESCE((SELECT MAX(value) FROM rows WHERE p), 0)`
unfoldable pub max_where {ℓ} : {R : Type ℓ} → (R → Bool) → (R → ℕ) → List R → ℕ
max_where p value [] = 0
max_where p value (r ∷ rs) =
    let rest = max_where p value rs in if p r then max (value r) rest else rest

abbrev pub zero_or : Option ℕ → ℕ
zero_or none = 0
zero_or (some n) = n

-- the columns of a user who has no row for a notification
abbrev pub or_fresh : Option UserState → UserState
or_fresh none = record { read_at = 0; unread = false; dismissed = false }
or_fresh (some u) = u

abbrev pub is_in_channel : String → CommandResponse → Bool
is_in_channel channel_id r = r.channel_id == channel_id && r.response_type == "in_channel"

abbrev pub is_live_in : String → Message → Bool
is_live_in channel_id m = m.channel_id == channel_id && not m.deleted

-- the time by which everything in a channel has been read
unfoldable pub read_time : String → ℕ → NotificationDb → ℕ
read_time channel_id at db = max at (
    max (max_where (λ n. n.channel_id == channel_id) (λ n. n.updated_at) db.notifications) (
      max (max_where (is_live_in channel_id) (λ m. m.created_at) db.base.messages)
        (max_where (is_in_channel channel_id) (λ r. r.created_at) db.responses)))

-- `INSERT INTO channel_read_state … ON CONFLICT DO UPDATE SET read_at=MAX(read_at, excluded.read_at)`
unfoldable pub raise_read : String → String → ℕ → NotificationDb → NotificationDb
raise_read user_id channel_id at db = record db {
  read_states =
      upsert (user_id, channel_id) (λ old. max (zero_or old) (read_time channel_id at db))
        db.read_states;
}

unfoldable pub raise_all : String → ℕ → List Channel → NotificationDb → NotificationDb
raise_all user_id at [] db = db
raise_all user_id at (c ∷ channels) db =
    raise_all user_id at channels (raise_read user_id c.id at db)

abbrev pub is_marked : (String → Bool) → String → String × String → Bool
is_marked chosen user_id key = key.0 == user_id && chosen key.1

abbrev pub with_read : Bool → UserState → UserState
with_read marked u = if marked then record u { unread = false } else u

-- `UPDATE notification_user_state SET unread=0` of a user's chosen notifications
unfoldable pub clear_unread : String → (String → Bool) → NotificationDb → NotificationDb
clear_unread user_id chosen db = record db {
  user_states = update_all (λ key u. with_read (is_marked chosen user_id key) u) db.user_states;
}

-- the reference of `user_id`
abbrev pub has_user : String → NotificationDb → Bool
has_user user_id db = any_row (λ u. u.id == user_id) db.base.users

-- `MarkAllRead`
unfoldable pub mark_all_read : String → ℕ → Op NotificationDb (Unit {0})
mark_all_read user_id at = do
  require (not (user_id == "")) invalid_input
  transaction (do
    known ← query (λ db. has_user user_id db || not (any_row (λ c. true) db.base.channels))
    require known constraint
    exec (λ db. raise_all user_id at db.base.channels db)
    exec (clear_unread user_id (λ id. true)))

-- `? OR c.visibility='public' OR EXISTS(SELECT 1 FROM channel_memberships …)`
unfoldable pub may_read : User → Channel → NotificationDb → Bool
may_read user c db = user.is_admin || c.is_public || is_member db.base user.id c.id

abbrev pub reads_channel : User → String → NotificationDb → Bool
reads_channel user channel_id db =
    any_row (λ c. c.id == channel_id && may_read user c db) db.base.channels

abbrev pub is_notification_of : String → NotificationDb → String → Bool
is_notification_of channel_id db id =
    any_row (λ n. n.id == id && n.channel_id == channel_id) db.notifications

-- `MarkChannelRead`
unfoldable pub mark_channel_read : User → String → ℕ → Op NotificationDb (Unit {0})
mark_channel_read user channel_id at = do
  require (not (user.id == "") && not (channel_id == "")) invalid_input
  transaction (do
    allowed ← query (reads_channel user channel_id)
    require allowed forbidden
    known ← query (has_user (user.id))
    require known constraint
    exec (raise_read (user.id) channel_id at)
    exec (λ db. clear_unread user.id (is_notification_of channel_id db) db))

-- what an action of the inbox writes to the row of the user and the notification
unfoldable pub inbox_change : String → ℕ → Option (UserState → UserState)
inbox_change action at =
    if action == "read"
    then some (λ u. record u { read_at = max u.read_at at; unread = false })
    else if action == "unread"
    then some (λ u. record u { unread = true })
    else if action == "dismiss"
    then some (λ u. record { read_at = max u.read_at at; unread = false; dismissed = true })
    else if action == "restore"
    then some (λ u. record u { dismissed = false })
    else none

-- the keys that a row of `notification_user_state` references
abbrev pub has_keys : String → String → NotificationDb → Bool
has_keys user_id id db = has_user user_id db && any_row (λ n. n.id == id) db.notifications

-- `SetNotificationInboxState`
unfoldable pub set_notification_inbox_state :
    String → String → String → ℕ → Op NotificationDb (Unit {0})
set_notification_inbox_state user_id id action at = do
  require (not (user_id == "")) invalid_input
  change ← require_some (inbox_change action at) invalid_input
  allowed ← query (has_keys user_id id)
  require allowed constraint
  exec (λ db. record db {
    user_states = upsert (user_id, id) (λ old. change (or_fresh old)) db.user_states;
  })

abbrev pub read_at : String → String → NotificationDb → ℕ
read_at user_id channel_id db = zero_or (find (user_id, channel_id) db.read_states)

abbrev pub or_all : Option String → String
or_all none = "all"
or_all (some level) = level

abbrev pub is_muted : String → String → NotificationDb → Bool
is_muted user_id channel_id db = or_all (find (user_id, channel_id) db.preferences) == "muted"

-- the condition on the joined channel
abbrev pub shows : User → NotificationDb → Option Channel → Bool
shows user db none = false
shows user db (some c) = not (is_muted user.id c.id db) && may_read user c db

abbrev pub channel_shows : User → String → NotificationDb → Bool
channel_shows user channel_id db = shows user db (find_row (λ c. c.id) channel_id db.base.channels)

abbrev pub unread_by : UserState → ℕ → ℕ → Bool
unread_by u channel_read updated_at =
    (u.unread || ltb (max channel_read u.read_at) updated_at) && not u.dismissed

-- a row of the count of `UnreadCount`
unfoldable pub is_unread : User → NotificationDb → Notification → Bool
is_unread user db n =
    unread_by (or_fresh (find (user.id, n.id) db.user_states)) (read_at user.id n.channel_id db)
      n.updated_at
    && channel_shows user n.channel_id db

-- a row of the count of `messageUnreadCount`
unfoldable pub is_unread_message : User → NotificationDb → Message → Bool
is_unread_message user db m =
    not m.deleted
    && ltb (read_at user.id m.channel_id db) m.created_at
    && not (m.author_user_id == user.id)
    && channel_shows user m.channel_id db

-- a row of the count of `commandUnreadCount`
unfoldable pub is_unread_response : User → NotificationDb → CommandResponse → Bool
is_unread_response user db r =
    r.response_type == "in_channel"
    && ltb (read_at user.id r.channel_id db) r.created_at
    && channel_shows user r.channel_id db

-- `UnreadCount`
unfoldable pub unread_count : User → Op NotificationDb ℕ
unread_count user =
    if user.id == ""
    then pure 0
    else query (λ db.
      count_where (is_unread user db) db.notifications
      + count_where (is_unread_message user db) db.base.messages
      + count_where (is_unread_response user db) db.responses)
