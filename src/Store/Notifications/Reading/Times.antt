-- ===== src/Store/Notifications/Reading/Times.antt =====
-- `MarkChannelRead` of internal/store/store.go: the time up to which a channel is read.
use mathlib.Core.List.Memᴰ
use tintwire.Prelude.{
  ℕ, ◌≤◌, max, String, ◌≡◌, refl, Bool, true, false, List, [], ◌∷◌, ◌&&◌, ◌==◌, string_eq,
  if◌then◌else◌, arith, eq_iff, Bool-cases, inl, inr, Memᴰ, find-upsert,
}
use tintwire.Store.Tables.{Message}
use tintwire.Store.Snapshot.{Notification}
use tintwire.Store.Notifications.{NotificationDb, CommandResponse, pair_eq}
use tintwire.Store.Notifications.Reading.{
  max_where, zero_or, is_in_channel, is_live_in, read_time, raise_read, clear_unread,
  is_notification_of, read_at,
}

max_where-le {ℓ} :
    {R : Type ℓ} (p : R → Bool) (value : R → ℕ) (rs : List R) (r : R)
    → Memᴰ r rs
    → p r ≡ true
    → value r ≤ max_where p value rs
unfolding max_where
max_where-le p value [] r m h = absurd (Memᴰ.not-nil m)
max_where-le p value (s ∷ rs) r m h = elim (Memᴰ.cases_cons m) [
  | inl here ↦ rw (← here, h) (omega arith)
  | inr later ↦
      let k = max_where-le p value rs r later h in
      elim (Bool-cases (p s)) [
        | inl counted ↦ rw counted (omega (arith, k))
        | inr skipped ↦ rw skipped k
      ]
]

-- the tables after the channel has been marked
abbrev pub marked : String → String → ℕ → NotificationDb → NotificationDb
marked user_id channel_id at s =
    clear_unread user_id (is_notification_of channel_id (raise_read user_id channel_id at s))
      (raise_read user_id channel_id at s)

read_at-raise :
    (user_id channel_id u c : String) (at : ℕ) (s : NotificationDb)
    → read_at u c (raise_read user_id channel_id at s) ≡ (
        if user_id == u && channel_id == c
        then max (read_at user_id channel_id s) (read_time channel_id at s)
        else read_at u c s)
unfolding raise_read
read_at-raise user_id channel_id u c at s =
    rw
      (find-upsert (user_id, channel_id) (u, c)
        (λ old. max (zero_or old) (read_time channel_id at s)) s.read_states)
      (elim (Bool-cases (user_id == u && channel_id == c)) [
        | inl here ↦ rw here refl
        | inr there ↦ rw there refl
      ])

pub read_at-marked :
    (user_id channel_id : String) (at : ℕ) (s : NotificationDb)
    → read_time channel_id at s ≤ read_at user_id channel_id (marked user_id channel_id at s)
unfolding clear_unread
read_at-marked user_id channel_id at s =
    rw
      (
        read_at-raise user_id channel_id user_id channel_id at s,
        (eq_iff user_id user_id).1 refl,
        (eq_iff channel_id channel_id).1 refl,
      )
      (omega arith)

pub read_at-grows :
    (user_id channel_id u c : String) (at : ℕ) (s : NotificationDb)
    → read_at u c s ≤ read_at u c (marked user_id channel_id at s)
unfolding clear_unread
read_at-grows user_id channel_id u c at s =
    rw (read_at-raise user_id channel_id u c at s)
      (elim (Bool-cases (user_id == u && channel_id == c)) [
        | inl here ↦
            let first : user_id ≡ u = (eq_iff _ _).0 (ground arith) in
            let second : channel_id ≡ c = (eq_iff _ _).0 (ground arith) in
            rw (here, ← first, ← second) (omega arith)
        | inr there ↦ rw there (omega arith)
      ])

-- nothing in the channel is later than its read time
module _ (channel_id : String) (at : ℕ) (s : NotificationDb) where
  pub updated-le :
      (n : Notification)
      → Memᴰ n s.notifications
      → n.channel_id ≡ channel_id
      → n.updated_at ≤ read_time channel_id at s
  unfolding read_time
  updated-le n m here =
      let k =
        max_where-le (λ n. n.channel_id == channel_id) (λ n. n.updated_at) s.notifications n m
          ((eq_iff _ _).1 here) in
      omega (arith, k)

  pub message-le :
      (r : Message)
      → Memᴰ r s.base.messages
      → r.channel_id ≡ channel_id
      → r.deleted ≡ false
      → r.created_at ≤ read_time channel_id at s
  unfolding read_time
  message-le r m here live =
      let k =
        max_where-le (is_live_in channel_id) (λ r. r.created_at) s.base.messages r m
          (rw (live, (eq_iff _ _).1 here) refl) in
      omega (arith, k)

  pub response-le :
      (r : CommandResponse)
      → Memᴰ r s.responses
      → r.channel_id ≡ channel_id
      → (r.response_type == "in_channel") ≡ true
      → r.created_at ≤ read_time channel_id at s
  unfolding read_time
  response-le r m here shown =
      let k =
        max_where-le (is_in_channel channel_id) (λ r. r.created_at) s.responses r m
          (rw (shown, (eq_iff _ _).1 here) refl) in
      omega (arith, k)
