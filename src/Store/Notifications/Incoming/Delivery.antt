-- ===== src/Store/Notifications/Incoming/Delivery.antt =====
-- `CreateFromWebhook` of internal/store/store.go: what a delivery leaves in the tables.
use tintwire.Prelude.{
  ℕ, ◌<◌, String, ◌≡◌, refl, Bool, false, none, some, List, ◌∷◌, ◌&&◌, ◌==◌, string_eq, nat_eq,
  arith, eq_iff, Bool-cases, Option-cases, inl, inr, length, update_where, select_where,
  select_where-update_where, length-update_where,
}
use tintwire.Store.Keeps.{
  Keeps, exec-Keeps, bind-Keeps, query-Keeps, require-Keeps, pure-Keeps, branch-Keeps,
  require_some-Keeps,
}
use tintwire.Store.Ensures.{
  Ensures, query_then-Ensures, require_then-Ensures, exec_then-Ensures, pure-Ensures, call-Ensures,
}
use tintwire.Store.Tables.{Channel}
use tintwire.Store.Snapshot.{Notification}
use tintwire.Store.Replication.Apart.{append-Keeps}
use tintwire.Store.Notifications.{NotificationDb, Webhook, Store, Site, set_rows}
use tintwire.Store.Notifications.Incoming.{
  IncomingNotification, Delivered, next_state, keyed_row, new_row, updated, after_created,
  save_incident_key, choose_channel, target_channel, record_delivery,
}
use tintwire.Store.Notifications.Incoming.Post.{
  update_existing, insert_new, write_row, posted_before,
}

-- The tables that `record_delivery` leaves alone.
abbrev Same : NotificationDb → NotificationDb → Type 0
Same s t = (t.notifications ≡ s.notifications) × (t.webhooks ≡ s.webhooks) × (t.base ≡ s.base)

-- How a delivery under an external key of one webhook has changed the tables.
pub record Posted (s : Store) (webhook_id key : String) (incoming : String) (d : Delivered)
    (t : Store) : Type 0 where
  pub webhooks : t.effects.webhooks ≡ s.effects.webhooks
  pub row :
      (n : Notification) × (keyed_row webhook_id key t ≡ some n)
      × (n.id ≡ d.id)
      × (n.state ≡ d.state)
  pub earlier :
      (o : Notification)
      → keyed_row webhook_id key s ≡ some o
      → (d.id ≡ o.id)
        × (d.created_at ≡ o.created_at)
        × (d.created_at < d.updated_at)
        × (d.state ≡ next_state o.state incoming)
        × (length t.effects.notifications ≡ length s.effects.notifications)

module _ (site : Site) where
  record_delivery-Keeps :
      (s : NotificationDb) (kind webhook_id id : String) (channel : Channel)
      (input : IncomingNotification) (state : String) (fields : List (String × String))
      (event_id : String) (reopened : Bool) (at : ℕ)
      → Keeps
          (λ (t : Store). Same s t.effects)
          (record_delivery site kind webhook_id id channel input state fields event_id reopened at)
  unfolding record_delivery save_incident_key
  record_delivery-Keeps s kind webhook_id id channel input state fields event_id reopened at =
      bind-Keeps _ _ (exec-Keeps _ λ t h. h) λ _.
        bind-Keeps _ _
          (exec-Keeps _
            λ t h. elim (Bool-cases reopened) [ inl again ↦ rw again h | inr once ↦ rw once h ])
          λ _. bind-Keeps _ _ (append-Keeps (Same s) _ _ _ _ _ _ _ _) λ _.
            bind-Keeps _ _ (exec-Keeps _ λ t h. h)
              λ _. bind-Keeps _ _ (require-Keeps _ _) λ _. exec-Keeps _ λ t h. h

  -- The row that a delivery has written is the one of its webhook and external key.
  inserted-row :
      (n : Notification) (rows : List Notification)
      → select_where
          (λ r. r.webhook_id == n.webhook_id && r.external_key == n.external_key)
          (n ∷ rows)
        ≡ some n
  inserted-row n rows =
      rw ((eq_iff n.webhook_id n.webhook_id).1 refl, (eq_iff n.external_key n.external_key).1 refl)
        refl

  -- What a delivery to the existing row `n` writes.
  existing-Posted :
      (s t : Store) (hook : Webhook) (channel : Channel) (input : IncomingNotification) (now : ℕ)
      (n : Notification)
      → keyed_row hook.id input.external_key s ≡ some n
      → Same
          (set_rows
            (update_where
              (λ r. r.id == n.id)
              (updated channel input (next_state n.state input.state) (after_created now n)))
            s).effects
          t.effects
      → Posted s hook.id input.external_key input.state
          (record {
            id = n.id;
            channel_id = channel.id;
            channel_name = channel.name;
            state = next_state n.state input.state;
            created_at = n.created_at;
            updated_at = after_created now n;
          })
          t
  existing-Posted s t hook channel input now n found (rows, hooks, base) =
      let f = updated channel input (next_state n.state input.state) (after_created now n) in
      let after : keyed_row hook.id input.external_key t ≡ some (f n) =
        rw
          (
            rows,
            select_where-update_where
                (λ r. r.webhook_id == hook.id && r.external_key == input.external_key)
                (λ r. r.id == n.id) f s.effects.notifications (λ r. refl),
            found,
            (eq_iff n.id n.id).1 refl,
          )
          refl in
      record {
        webhooks = hooks;
        row = (f n, after, refl, refl);
        earlier = λ o e.
            let same : n ≡ o = cc (found, e) in
            rw (← same) (
              refl,
              refl,
              ground arith,
              refl,
              rw rows (length-update_where (λ r. r.id == n.id) f s.effects.notifications),
            );
      }

  record_delivery-Ensures :
      (s : Store) (kind webhook_id id : String) (channel : Channel) (input : IncomingNotification)
      (state : String) (fields : List (String × String)) (event_id : String) (reopened : Bool)
      (at : ℕ)
      → Ensures
          (λ _ t. Same s.effects t.effects)
          (record_delivery site kind webhook_id id channel input state fields event_id reopened at)
          s
  record_delivery-Ensures s kind webhook_id id channel input state fields event_id reopened at =
      record {
        from = λ u e.
            (record_delivery-Keeps s.effects kind webhook_id id channel input state fields event_id
                reopened at).from
              s (refl, refl, refl);
      }

  update-Ensures :
      (s : Store) (hook : Webhook) (channel : Channel) (input : IncomingNotification)
      (event_id : String) (now : ℕ) (n : Notification)
      → keyed_row hook.id input.external_key s ≡ some n
      → Ensures
          (Posted s hook.id input.external_key input.state)
          (update_existing site hook channel input event_id now n)
          s
  unfolding update_existing
  update-Ensures s hook channel input event_id now n found = exec_then-Ensures _ _ _ (
      call-Ensures _ _ _ (record_delivery-Ensures _ _ _ _ _ _ _ _ _ _ _)
        λ _ t same. pure-Ensures _ _ (existing-Posted s t hook channel input now n found same))

  insert-Ensures :
      (s : Store) (hook : Webhook) (channel : Channel) (input : IncomingNotification)
      (id event_id : String) (now : ℕ)
      → keyed_row hook.id input.external_key s ≡ none
      → Ensures
          (Posted s hook.id input.external_key input.state)
          (insert_new site hook channel input id event_id now)
          s
  unfolding insert_new
  insert-Ensures s hook channel input id event_id now absent = query_then-Ensures _ _ _ (
      require_then-Ensures _ _ _ _ λ free. exec_then-Ensures _ _ _ (
        call-Ensures _ _ _ (record_delivery-Ensures _ _ _ _ _ _ _ _ _ _ _)
          λ _ t (rows, hooks, base). pure-Ensures _ _ (record {
            webhooks = hooks;
            row = (
              new_row hook channel input id now,
              rw rows (inserted-row (new_row hook channel input id now) s.effects.notifications),
              refl,
              refl,
            );
            earlier = λ o e. cc (absent, e);
          })))

  pub write-Ensures :
      (s : Store) (hook : Webhook) (channel : Channel) (input : IncomingNotification)
      (fresh event_id : String) (now : ℕ)
      → (input.external_key == "") ≡ false
      → Ensures
          (Posted s hook.id input.external_key input.state)
          (write_row site hook channel input fresh event_id now (posted_before site hook input s))
          s
  write-Ensures s hook channel input fresh event_id now keyed =
      rw keyed (elim (Option-cases (keyed_row hook.id input.external_key s)) [
        | inl absent ↦ rw absent (insert-Ensures s hook channel input _ event_id now absent)
        | inr (n, found) ↦ rw found (update-Ensures s hook channel input event_id now n found)
      ])

  pub target_channel-Keeps :
      (s : Store) (token : String) (input : IncomingNotification) (own : Channel)
      → Keeps (λ t. t ≡ s) (target_channel site token input own)
  unfolding target_channel choose_channel
  target_channel-Keeps s token input own = branch-Keeps _ _ _ (pure-Keeps _) (
      bind-Keeps _ _ (query-Keeps _) λ policy.
        bind-Keeps _ _ (query-Keeps _)
          λ named. branch-Keeps _ _ _ (require_some-Keeps _ _) (pure-Keeps _))
