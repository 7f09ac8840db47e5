-- ===== src/Store/Notifications/Reading/Marked.antt =====
-- `MarkChannelRead` of internal/store/store.go: nothing of the channel is left unread.
use tintwire.Prelude.{
  ℕ, ◌≤◌, ◌≢◌, max, String, ◌≡◌, refl, sym, true, false, ◌&&◌, ◌==◌, string_eq, arith, eq_iff,
  Bool-cases, Option-cases, inl, inr, Memᴰ, any_row_of_mem, find, find-upsert, find-update_all,
}
use tintwire.Store.Op.{ok}
use tintwire.Store.Ensures.{
  Ensures, query_then-Ensures, require_then-Ensures, exec_then-Ensures, exec-Ensures,
  transaction-Ensures,
}
use tintwire.Store.Tables.{User, Message}
use tintwire.Store.Snapshot.{Notification}
use tintwire.Store.Notifications.{NotificationDb, UserState, CommandResponse, pair_eq}
use tintwire.Store.Notifications.Reading.{
  zero_or, or_fresh, read_time, raise_read, is_marked, with_read, clear_unread, may_read,
  reads_channel, is_notification_of, mark_channel_read, read_at, unread_by, is_unread,
  is_unread_message, is_unread_response,
}
use tintwire.Store.Notifications.Reading.Times.{
  marked, read_at-marked, read_at-grows, updated-le, message-le, response-le,
}

-- What a user sees of a channel that was marked read.
pub record CaughtUp (user : User) (channel_id : String) (s t : NotificationDb) : Type 0 where
  pub allowed : reads_channel user channel_id s ≡ true
  pub notifications :
      (n : Notification)
      → Memᴰ n t.notifications
      → n.channel_id ≡ channel_id
      → is_unread user t n ≡ false
  pub messages :
      (m : Message)
      → Memᴰ m t.base.messages
      → m.channel_id ≡ channel_id
      → is_unread_message user t m ≡ false
  pub responses :
      (r : CommandResponse)
      → Memᴰ r t.responses
      → r.channel_id ≡ channel_id
      → is_unread_response user t r ≡ false
  pub grows : (u c : String) → read_at u c s ≤ read_at u c t
  pub others : (u : User) (n : Notification) → u.id ≢ user.id → is_unread u t n ≡ is_unread u s n

unread_by-old :
    (u : UserState) (channel_read updated : ℕ)
    → u.unread ≡ false
    → updated ≤ channel_read
    → unread_by u channel_read updated ≡ false
unread_by-old u channel_read updated seen h = rw seen (ground arith)

module _ (user : User) (channel_id : String) (at : ℕ) (s : NotificationDb) where
  flag-cleared :
      (n : Notification)
      → Memᴰ n s.notifications
      → n.channel_id ≡ channel_id
      → (or_fresh (find (user.id, n.id) (marked user.id channel_id at s).user_states)).unread
        ≡ false
  unfolding clear_unread raise_read
  flag-cleared n m here =
      let chosen : is_notification_of channel_id s n.id ≡ true =
        any_row_of_mem (λ r. r.id == n.id && r.channel_id == channel_id) s.notifications n m
          (rw ((eq_iff n.id n.id).1 refl, (eq_iff _ _).1 here) refl) in
      rw
        (find-update_all
          (λ key u. with_read (is_marked (is_notification_of channel_id s) user.id key) u)
          (user.id, n.id) s.user_states)
        (elim (Option-cases (find (user.id, n.id) s.user_states)) [
          | inl absent ↦ rw absent refl
          | inr (u, found) ↦ rw (found, (eq_iff user.id user.id).1 refl, chosen) refl
        ])

  marked-notification :
      (n : Notification)
      → Memᴰ n s.notifications
      → n.channel_id ≡ channel_id
      → is_unread user (marked user.id channel_id at s) n ≡ false
  unfolding is_unread
  marked-notification n m here =
      let t = marked user.id channel_id at s in
      rw
        (unread_by-old (or_fresh (find (user.id, n.id) t.user_states))
          (read_at user.id n.channel_id t) n.updated_at (flag-cleared n m here)
          (rw here (
            omega (
              arith,
              updated-le channel_id at s n m here,
              read_at-marked user.id channel_id at s,
            ))))
        refl

  marked-message :
      (m : Message)
      → Memᴰ m s.base.messages
      → m.channel_id ≡ channel_id
      → is_unread_message user (marked user.id channel_id at s) m ≡ false
  unfolding is_unread_message
  marked-message m mem here = elim (Bool-cases m.deleted) [
    | inl gone ↦ rw gone refl
    | inr live ↦
        let t = marked user.id channel_id at s in
        let old : m.created_at ≤ read_at user.id m.channel_id t = rw here (
          omega (
            arith,
            message-le channel_id at s m mem here live,
            read_at-marked user.id channel_id at s,
          )) in
        ground arith
  ]

  marked-response :
      (r : CommandResponse)
      → Memᴰ r s.responses
      → r.channel_id ≡ channel_id
      → is_unread_response user (marked user.id channel_id at s) r ≡ false
  unfolding is_unread_response
  marked-response r mem here = elim (Bool-cases (r.response_type == "in_channel")) [
    | inr other ↦ rw other refl
    | inl shown ↦
        let t = marked user.id channel_id at s in
        let old : r.created_at ≤ read_at user.id r.channel_id t = rw here (
          omega (
            arith,
            response-le channel_id at s r mem here shown,
            read_at-marked user.id channel_id at s,
          )) in
        ground arith
  ]

  marked-other :
      (u : User) (n : Notification)
      → u.id ≢ user.id
      → is_unread u (marked user.id channel_id at s) n ≡ is_unread u s n
  unfolding is_unread clear_unread raise_read may_read
  marked-other u n other =
      let apart : (user.id == u.id) ≡ false = elim (Bool-cases (user.id == u.id)) [
        | inl same ↦ absurd (other (sym ((eq_iff _ _).0 same)))
        | inr away ↦ away
      ] in
      let apart' : (u.id == user.id) ≡ false = elim (Bool-cases (u.id == user.id)) [
        | inl same ↦ absurd (other ((eq_iff _ _).0 same))
        | inr away ↦ away
      ] in
      rw
        (
          find-update_all
              (λ key w. with_read (is_marked (is_notification_of channel_id s) user.id key) w)
              (u.id, n.id) s.user_states,
          find-upsert (user.id, channel_id) (u.id, n.channel_id)
              (λ old. max (zero_or old) (read_time channel_id at s)) s.read_states,
          apart,
          apart',
        )
        (elim (Option-cases (find (u.id, n.id) s.user_states)) [
          | inl absent ↦ rw absent refl
          | inr (w, found) ↦ rw found refl
        ])

  marked-CaughtUp :
      reads_channel user channel_id s ≡ true
      → CaughtUp user channel_id s (marked user.id channel_id at s)
  unfolding clear_unread raise_read
  marked-CaughtUp allowed = record {
    allowed = allowed;
    notifications = marked-notification;
    messages = marked-message;
    responses = marked-response;
    grows = λ u c. read_at-grows user.id channel_id u c at s;
    others = marked-other;
  }

  mark-Ensures :
      Ensures (λ _ t. CaughtUp user channel_id s t) (mark_channel_read user channel_id at) s
  unfolding mark_channel_read
  mark-Ensures = require_then-Ensures _ _ _ _ λ named. transaction-Ensures _ _ (
      query_then-Ensures _ _ _ (
        require_then-Ensures _ _ _ _ λ allowed. query_then-Ensures _ _ _ (
          require_then-Ensures _ _ _ _
            λ known. exec_then-Ensures _ _ _ (exec-Ensures _ _ (marked-CaughtUp allowed)))))

-- When a user has marked a channel read, the user may read it, and no notification, message or command
-- response of the channel counts as unread for the user, whatever the clock says. The time up to which any
-- user has read any channel has not gone back, and what is unread for another user has not changed.
pub marked_read :
    (user : User) (channel_id : String) (at : ℕ) (s : NotificationDb)
    → (mark_channel_read user channel_id at s).1 ≡ ok tt
    → CaughtUp user channel_id s (mark_channel_read user channel_id at s).0
marked_read user channel_id at s done = (mark-Ensures user channel_id at s).from tt done
