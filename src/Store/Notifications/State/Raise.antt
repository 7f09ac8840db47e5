-- ===== src/Store/Notifications/State/Raise.antt =====
-- `SetNotificationState` of internal/store/store.go: a user's transition raises the state of one row.
use mathlib.Core.Option
use tintwire.Prelude.{
  ℕ, ◌<◌, ◌≢◌, String, ◌≡◌, refl, sym, ap, ◌∙◌, true, some, ◌∷◌, ◌==◌, string_eq, if◌then◌else◌,
  nat_eq, leb, false, ◌&&◌, ◌⊎◌, arith, eq_iff, Bool-cases, Option-cases, inl, inr, update_where,
  select_where-holds, find_row-update_where,
}
use tintwire.Store.Op.{
  ok, err, invalid_transition, pure, query, exec, require, require_some, transaction, ◌>>=◌,
}
use tintwire.Store.Ensures.{
  Ensures, query_then-Ensures, require_then-Ensures, exec_then-Ensures, pure-Ensures,
  transaction-Ensures, require_some_then-Ensures,
}
use tintwire.Store.Tables.{User}
use tintwire.Store.Snapshot.{Notification, state_rank}
use tintwire.Store.Replication.Apart.{append-Keeps, kept-Ensures}
use tintwire.Store.Replication.Origin.{append_replication_operation}
use tintwire.Store.Notifications.{NotificationEvent, Store, Site, notification_row}
use tintwire.Store.Notifications.State.{
  is_target_state, is_valid_transition, is_user, may_set_state, after_update, with_state,
  write_state, change_state, set_notification_state,
}

-- the event of a user's transition
abbrev pub user_event : String → String → User → String → ℕ → NotificationEvent
user_event event_id id actor state at = record {
  id = event_id;
  notification_id = id;
  state = state;
  raw_payload = "{}";
  created_at = at;
  actor_user_id = some actor.id;
}

-- How the row `n` has changed: its state is later in the order of states, its time is later, and the
-- event of the actor has been recorded.
pub record Changed (s : Store) (n : Notification) (actor : User) (next event_id : String)
    (t : Store) : Type 0 where
  pub row : Notification
  pub found : notification_row n.id t ≡ some row
  pub state : row.state ≡ next
  pub higher : state_rank n.state < state_rank row.state
  pub later : n.updated_at < row.updated_at
  pub events :
      t.effects.events ≡ user_event event_id n.id actor next row.updated_at ∷ s.effects.events
  pub others : (k : String) → k ≢ n.id → notification_row k t ≡ notification_row k s

-- What a successful request has found, and what it leaves.
pub record Granted (s : Store) (id : String) (actor : User) (next event_id : String) (t : Store)
    : Type 0 where
  pub row : Notification
  pub found : notification_row id s ≡ some row
  pub allowed : may_set_state actor row.channel_id s ≡ true
  pub outcome : ((row.state ≡ next) × (t ≡ s)) ⊎ Changed s row actor next event_id t

transition-higher :
    (current next : String)
    → is_valid_transition current next ≡ true
    → state_rank current < state_rank next
unfolding state_rank is_valid_transition
transition-higher current next h = elim (Bool-cases (next == "acknowledged")) [
  | inl here ↦
      let same : next ≡ "acknowledged" = (eq_iff _ _).0 here in
      rw same (let k = rw same at h in ground arith)
  | inr there ↦
      let last : (next == "resolved") ≡ true = ground arith in
      let same : next ≡ "resolved" = (eq_iff _ _).0 last in
      rw same (let k = rw same at h in ground arith)
]

-- From a known state, the transitions to another target state are those to a higher rank.
valid-by_rank :
    (current next : String)
    → 0 < state_rank current
    → is_target_state next ≡ true
    → (current == next) ≡ false
    → is_valid_transition current next ≡ leb (state_rank current) (state_rank next)
unfolding state_rank is_valid_transition is_target_state
valid-by_rank current next known target away = elim (Bool-cases (next == "acknowledged")) [
  | inl here ↦
      let same : next ≡ "acknowledged" = (eq_iff _ _).0 here in
      rw same (let k = rw same at away in ground arith)
  | inr there ↦
      let last : (next == "resolved") ≡ true = ground arith in
      let same : next ≡ "resolved" = (eq_iff _ _).0 last in
      rw same (let k = rw same at away in ground arith)
]

target-by_rank : (next : String) → is_target_state next ≡ leb 3 (state_rank next)
unfolding state_rank is_target_state
target-by_rank next = elim (Bool-cases (next == "received")) [
  | inl a ↦ rw ((eq_iff _ _).0 a) refl
  | inr not_received ↦ elim (Bool-cases (next == "firing")) [
    | inl b ↦ rw ((eq_iff _ _).0 b) refl
    | inr not_firing ↦ ground arith
  ]
]

module _ (site : Site) where
  -- The tables after the statements of a transition.
  written :
      (s t : Store) (n : Notification) (actor : User) (next event_id : String) (at : ℕ)
      → notification_row n.id s ≡ some n
      → state_rank n.state < state_rank next
      → n.updated_at < at
      → t.effects ≡ record s.effects {
        notifications =
            update_where (λ r. r.id == n.id) (with_state next at) s.effects.notifications;
        events = user_event event_id n.id actor next at ∷ s.effects.events;
      }
      → Changed s n actor next event_id t
  written s t n actor next event_id at found higher later e =
      let row : (k : String)
          → notification_row k t
            ≡ Option.map (λ r. if r.id == n.id then with_state next at r else r)
                (notification_row k s) =
        λ k. rw e (
          find_row-update_where (λ r. r.id) (λ r. r.id == n.id) (with_state next at)
            s.effects.notifications k (λ r. refl)) in
      record {
        row = with_state next at n;
        found = rw (row n.id, found, (eq_iff n.id n.id).1 refl) refl;
        state = refl;
        higher = higher;
        later = later;
        events = rw e refl;
        others = λ k other. rw (row k) (elim (Option-cases (notification_row k s)) [
          | inl absent ↦ rw absent refl
          | inr (r, there) ↦ elim (Bool-cases (r.id == n.id)) [
            | inl here ↦
                let key : r.id ≡ k =
                  (eq_iff _ _).0
                    (select_where-holds (λ r. r.id == k) s.effects.notifications r there) in
                absurd (other (sym key ∙ (eq_iff _ _).0 here))
            | inr apart ↦ rw (there, apart) refl
          ]
        ]);
      }

  write-Ensures :
      (s : Store) (n : Notification) (actor : User) (next event_id : String) (at : ℕ)
      → notification_row n.id s ≡ some n
      → state_rank n.state < state_rank next
      → n.updated_at < at
      → Ensures
          (λ _ t. Changed s n actor next event_id t)
          (write_state site n actor next event_id at)
          s
  unfolding write_state
  write-Ensures s n actor next event_id at found higher later = exec_then-Ensures _ _ _ (
      query_then-Ensures _ _ _ (
        require_then-Ensures _ _ _ _ λ known. exec_then-Ensures _ _ _ (
          kept-Ensures _ _ (append-Keeps _ _ _ _ _ _ _ _ _)
            λ _ t e. written s t n actor next event_id at found higher later e)))

  change-Ensures :
      (s : Store) (n : Notification) (actor : User) (next event_id : String) (now : ℕ)
      → notification_row n.id s ≡ some n
      → Ensures
          (λ _ t. ((n.state ≡ next) × (t ≡ s)) ⊎ Changed s n actor next event_id t)
          (if n.state == next then pure tt else change_state site n actor next event_id now)
          s
  change-Ensures s n actor next event_id now found = elim (Bool-cases (n.state == next)) [
    | inl there ↦ rw there (pure-Ensures _ _ (inl ((eq_iff _ _).0 there, refl)))
    | inr away ↦ rw away (
        require_then-Ensures _ _ _ _ λ valid. record {
          from = λ u done. inr (
              (write-Ensures s n actor next event_id (after_update now n) found
                  (transition-higher n.state next valid) (ground arith)).from
                u done);
        })
  ]

  set-Ensures :
      (s : Store) (id : String) (actor : User) (next event_id : String) (now : ℕ)
      → Ensures
          (λ _ t. Granted s id actor next event_id t)
          (set_notification_state site id actor next event_id now)
          s
  unfolding set_notification_state
  set-Ensures s id actor next event_id now = require_then-Ensures _ _ _ _ λ target.
      transaction-Ensures _ _ (
        query_then-Ensures _ _ _ (
          require_some_then-Ensures _ _ _ _ λ n found. query_then-Ensures _ _ _ (
            require_then-Ensures _ _ _ _ λ allowed. record {
              from = λ u done.
                  let key : n.id ≡ id =
                    (eq_iff _ _).0
                      (select_where-holds (λ r. r.id == id) s.effects.notifications n found) in
                  record {
                    row = n;
                    found = found;
                    allowed = allowed;
                    outcome =
                        (change-Ensures s n actor next event_id now
                            (ap (λ k. notification_row k s) key ∙ found)).from
                          u done;
                  };
            })))

  -- A user's request that succeeds found the row, and the user is an administrator or operates its channel.
  -- Either the row was in the wanted state and nothing has changed, or its state has risen to it,
  -- its `updated_at` has grown, the event names the user, and no other row has changed.
  pub granted :
      (s : Store) (id : String) (actor : User) (next event_id : String) (now : ℕ)
      → (set_notification_state site id actor next event_id now s).1 ≡ ok tt
      → Granted s id actor next event_id
          (set_notification_state site id actor next event_id now s).0
  granted s id actor next event_id now done =
      (set-Ensures s id actor next event_id now).from tt done

  -- On a node without a cluster, the request of a known user who is an administrator or operates the
  -- channel of the row, for a row in one of the four states, succeeds exactly if the wanted state is
  -- acknowledged or resolved and is not before the row's in the order received, firing, acknowledged,
  -- resolved; all other requests are refused as invalid transitions.
  pub answered_by_rank :
      (s : Store) (id : String) (actor : User) (next event_id : String) (now : ℕ) (n : Notification)
      → site.cluster_id ≡ ""
      → notification_row id s ≡ some n
      → may_set_state actor n.channel_id s ≡ true
      → is_user actor.id s ≡ true
      → 0 < state_rank n.state
      → (set_notification_state site id actor next event_id now s).1 ≡ (
          if leb 3 (state_rank next) && leb (state_rank n.state) (state_rank next)
          then ok tt
          else err invalid_transition)
  unfolding set_notification_state write_state append_replication_operation pure query exec require
      require_some transaction ◌>>=◌
  answered_by_rank s id actor next event_id now n alone found allowed known ranked =
      elim (Bool-cases (is_target_state next)) [
        | inr other ↦ rw (← target-by_rank next, other, require) refl
        | inl target ↦ elim (Bool-cases (n.state == next)) [
          | inl there ↦
              let same : n.state ≡ next = (eq_iff _ _).0 there in
              let level : leb (state_rank n.state) (state_rank next) ≡ true =
                rw same (ground arith) in
              rw (← target-by_rank next, level, target, require, found, require_some, allowed)
                (rw (require, there) refl)
          | inr away ↦
              let valid = valid-by_rank n.state next ranked target away in
              elim (Bool-cases (leb (state_rank n.state) (state_rank next))) [
                | inl up ↦
                    rw (← target-by_rank next, up, target, require, found, require_some, allowed)
                      (rw (require, away, valid, up, require, known, require, alone) refl)
                | inr down ↦
                    rw (← target-by_rank next, down, target, require, found, require_some, allowed)
                      (rw (require, away, valid, down, require) refl)
              ]
        ]
      ]
