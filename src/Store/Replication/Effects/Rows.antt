-- ===== src/Store/Replication/Effects/Rows.antt =====
-- internal/store/replication.go: no received operation loses a notification.
use tintwire.Prelude.{
  String, ◌≡◌, refl, sym, ◌∙◌, Bool, true, false, Option, some, ◌∷◌, ◌==◌, string_eq, if◌then◌else◌,
  arith, eq_iff, Bool-cases, inl, inr, find_row, update_where, find_row-update_where, any_row,
  select_where-mem, any_row_of_mem, select_where-holds,
}
use tintwire.Store.Op.{exec}
use tintwire.Store.Keeps.{
  Keeps, exec-Keeps, query_then-Keeps, bind-Keeps, require-Keeps, pure-Keeps, fail-Keeps,
  query-Keeps, branch-Keeps, require_some-Keeps,
}
use tintwire.Store.Snapshot.{Notification}
use tintwire.Store.Replication.{ReplicationOperation}
use tintwire.Store.Replication.Effects.{
  ReplicatedNotification, Inbox, Wire, insert_channel, insert_webhook, set_inbox, clashes,
  created_row, created_change, merge_created, insert_or_merge, create_notification, updated_row,
  update_notification, raise_notification_state, raised_row, apply_effect,
}

-- A row's identity: the columns that no operation changes.
pub record SameIdentity (a b : Notification) : Type 0 where
  pub id : a.id ≡ b.id
  pub webhook_id : a.webhook_id ≡ b.webhook_id
  pub external_key : a.external_key ≡ b.external_key

abbrev pub inbox_row : String → Inbox → Option Notification
inbox_row id db = find_row (λ n. n.id) id db.notifications

-- Every row of `before` is still there, with its identity.
pub record KeepsRows (before db : Inbox) : Type 0 where
  pub row :
      (id : String) (r : Notification)
      → inbox_row id before ≡ some r
      → (r' : Notification) × (inbox_row id db ≡ some r') × SameIdentity r' r

module _ (wire : Wire) (before : Inbox) where
  update-KeepsRows :
      (p : Notification → Bool) (f : Notification → Notification)
      → ((n : Notification) → SameIdentity (f n) n)
      → Keeps (KeepsRows before) (exec (set_inbox (update_where p f)))
  update-KeepsRows p f same = exec-Keeps _ λ db h. record {
    row = λ id r found.
        let (s, e, v) = h.row id r found in
        (
          (if p s then f s else s),
          rw (find_row-update_where (λ n. n.id) p f db.notifications id (λ n. (same n).id), e) refl,
          elim (Bool-cases (p s)) [
            | inl hit ↦ rw hit (
                let w = same s in
                record {
                  id = w.id ∙ v.id;
                  webhook_id = w.webhook_id ∙ v.webhook_id;
                  external_key = w.external_key ∙ v.external_key;
                })
            | inr missed ↦ rw missed v
          ],
        );
  }

  created_change-same :
      (local incoming n : Notification) → SameIdentity (created_change wire local incoming n) n
  unfolding created_change
  created_change-same local incoming n = ground arith

  others-KeepRows :
      (f : Inbox → Inbox)
      → ((db : Inbox) → (f db).notifications ≡ db.notifications)
      → Keeps (KeepsRows before) (exec f)
  others-KeepRows f same =
      exec-Keeps _ λ db h. record { row = λ id r found. rw (same db) (h.row id r found) }

  insert_channel-KeepRows : (id name : String) → Keeps (KeepsRows before) (insert_channel id name)
  unfolding insert_channel
  insert_channel-KeepRows id name = bind-Keeps _ _ (query-Keeps _) λ known.
      bind-Keeps _ _ (query-Keeps _)
        λ taken. bind-Keeps _ _ (require-Keeps _ _) λ _. others-KeepRows _ λ db. ground arith

  insert_webhook-KeepRows : (id hash : String) → Keeps (KeepsRows before) (insert_webhook id hash)
  unfolding insert_webhook
  insert_webhook-KeepRows id hash = bind-Keeps _ _ (query-Keeps _) λ known.
      bind-Keeps _ _ (query-Keeps _)
        λ taken. bind-Keeps _ _ (require-Keeps _ _) λ _. others-KeepRows _ λ db. ground arith

  merge_created-KeepRows :
      (incoming : Notification) → Keeps (KeepsRows before) (merge_created wire incoming)
  unfolding merge_created
  merge_created-KeepRows incoming = bind-Keeps _ _ (require-Keeps _ _) λ _.
      bind-Keeps _ _ (query-Keeps _) λ row. bind-Keeps _ _ (require_some-Keeps row _) λ local.
        bind-Keeps _ _ (require-Keeps _ _)
          λ _. update-KeepsRows _ _ (created_change-same local incoming)

  new_row :
      (db : Inbox) (incoming : Notification)
      → any_row (clashes incoming) db.notifications ≡ false
      → KeepsRows before db
      → KeepsRows before (set_inbox (λ rows. incoming ∷ rows) db)
  new_row db incoming free h = record {
    row = λ id r found.
        let (s, e, v) = h.row id r found in
        (
          s,
          elim (Bool-cases (incoming.id == id)) [
            | inl same ↦
                let here : s.id ≡ id =
                  (eq_iff _ _).0 (select_where-holds (λ n. n.id == id) db.notifications s e) in
                let k : incoming.id ≡ id = (eq_iff _ _).0 same in
                let hit : (s.id == incoming.id) ≡ true = (eq_iff _ _).1 (here ∙ sym k) in
                cc (
                  free,
                  any_row_of_mem (clashes incoming) db.notifications s
                      (select_where-mem (λ n. n.id == id) db.notifications s e) (rw hit refl),
                )
            | inr other ↦ rw other e
          ],
          v,
        );
  }

  insert_or_merge-KeepRows :
      (incoming : Notification) (db : Inbox) (clash : Bool)
      → any_row (clashes incoming) db.notifications ≡ clash
      → KeepsRows before db
      → KeepsRows before (insert_or_merge wire incoming clash db).0
  unfolding insert_or_merge
  insert_or_merge-KeepRows incoming db true e h = (merge_created-KeepRows incoming).from db h
  insert_or_merge-KeepRows incoming db false e h = unfold exec in new_row db incoming e h

  create-KeepRows :
      (op : ReplicationOperation) (p : ReplicatedNotification)
      → Keeps (KeepsRows before) (create_notification wire op p)
  unfolding create_notification
  create-KeepRows op p = bind-Keeps _ _ (require-Keeps _ _) λ _.
      bind-Keeps _ _ (insert_channel-KeepRows _ _) λ _.
        bind-Keeps _ _ (insert_webhook-KeepRows _ _)
          λ _. query_then-Keeps _ _ λ db h. insert_or_merge-KeepRows (created_row op p) db _ refl h

  update-KeepRows :
      (op : ReplicationOperation) (p : ReplicatedNotification)
      → Keeps (KeepsRows before) (update_notification wire op p)
  unfolding update_notification
  update-KeepRows op p = bind-Keeps _ _ (query-Keeps _) λ changed.
      bind-Keeps _ _ (update-KeepsRows _ (updated_row wire op p) λ n. ground arith)
        λ _. require-Keeps _ _

  raise-KeepRows :
      (p : ReplicatedNotification) → Keeps (KeepsRows before) (raise_notification_state wire p)
  unfolding raise_notification_state
  raise-KeepRows p = bind-Keeps _ _ (query-Keeps _) λ row.
      bind-Keeps _ _ (require_some-Keeps row _) λ current.
        branch-Keeps _ _ _ (update-KeepsRows _ (raised_row wire p) λ n. ground arith) (pure-Keeps _)

  effect-KeepRows : (op : ReplicationOperation) → Keeps (KeepsRows before) (apply_effect wire op)
  unfolding apply_effect
  effect-KeepRows op = bind-Keeps _ _ (require_some-Keeps _ _) λ p.
      bind-Keeps _ _ (require-Keeps _ _) λ _. branch-Keeps _ _ _ (create-KeepRows op p) (
        branch-Keeps _ _ _ (update-KeepRows op p)
          (branch-Keeps _ _ _ (raise-KeepRows p) (fail-Keeps _)))

-- The effect of a received operation, also one that fails half way, loses no notification and changes no
-- notification's id, webhook or external key.
pub apply_effect-KeepsRows :
    (wire : Wire) (db : Inbox) (op : ReplicationOperation)
    → KeepsRows db (apply_effect wire op db).0
apply_effect-KeepsRows wire db op = (effect-KeepRows wire db op).from db (record {
  row = λ id r found. (r, found, record { id = refl; webhook_id = refl; external_key = refl });
})
