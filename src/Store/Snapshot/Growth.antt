-- ===== src/Store/Snapshot/Growth.antt =====
-- internal/store/replication_snapshot.go: applying a snapshot loses nothing.
use mathlib.Core.Path.{subst}
use tintwire.Prelude.{
  ℕ, ◌≤◌, max, String, ◌≡◌, refl, sym, ◌∙◌, true, Option, none, some, List, [], ◌∷◌, ◌==◌,
  string_eq, nat_eq, if◌then◌else◌, arith, eq_iff, Bool-cases, inl, inr, find_row, update_where,
  find_row-update_where, select_where-holds, lookup, lookup-insert,
}
use tintwire.Store.Op.{exec, require, ◌>>=◌}
use tintwire.Store.Keeps.{
  Keeps, keeps_rules, exec-Keeps, query_then-Keeps, bind-Keeps, require-Keeps, pure-Keeps,
}
use tintwire.Store.Snapshot.{
  Notification, Snapshot, Replica, Status, Codec, state_rank, merge_change, merge_row,
  same_identity, set_notifications, store_row, merge_notification, merge_notifications,
  cursor_or_zero, raise_cursor, raise_cursors, apply_snapshot,
}
use tintwire.Store.Snapshot.Join.{merge_row-IsJoin}

-- How a row may change when snapshots are merged into it.
pub record Later (r r' : Notification) : Type 0 where
  pub id : r'.id ≡ r.id
  pub webhook_id : r'.webhook_id ≡ r.webhook_id
  pub external_key : r'.external_key ≡ r.external_key
  pub rank : state_rank r.state ≤ state_rank r'.state
  pub updated_at : r.updated_at ≤ r'.updated_at
  pub created_at : r'.created_at ≤ r.created_at

Later-refl : (r : Notification) → Later r r
Later-refl r = ground arith

Later-trans : (a b c : Notification) → Later a b → Later b c → Later a c
Later-trans a b c p q = ground arith

merge_row-Later : (codec : Codec) (r i : Notification) → Later r (merge_row codec r i)
merge_row-Later codec r i =
    let j = merge_row-IsJoin codec r i in
    record {
      id = j.id;
      webhook_id = j.webhook_id;
      external_key = j.external_key;
      rank = rw j.state (ground arith);
      updated_at = omega (arith, j.updated_at);
      created_at = omega (arith, j.created_at);
    }

abbrev pub find_notification : String → Replica → Option Notification
find_notification id db = find_row (λ n. n.id) id db.notifications

abbrev pub cursor_of : Replica → String → ℕ
cursor_of db origin = cursor_or_zero (lookup origin db.cursors)

-- Since `before`, no row is lost or moved back, and no cursor is lowered.
pub record Grown (before db : Replica) : Type 0 where
  pub row :
      (id : String) (r : Notification)
      → find_notification id before ≡ some r
      → (r' : Notification) × (find_notification id db ≡ some r') × Later r r'
  pub cursor : (origin : String) → cursor_of before origin ≤ cursor_of db origin

raise_cursors-le :
    (more cursors : List (String × ℕ)) (origin : String)
    → cursor_or_zero (lookup origin cursors)
      ≤ cursor_or_zero (lookup origin (raise_cursors more cursors))
unfolding raise_cursors
raise_cursors-le [] cursors origin = omega arith
raise_cursors-le ((o, s) ∷ more) cursors origin = ground (
  arith,
  lookup-insert o origin (max (cursor_or_zero (lookup o cursors)) s) cursors,
  eq_iff o origin,
  raise_cursors-le more (raise_cursor o s cursors) origin,
)

module _ (codec : Codec) (before : Replica) where
  insert-Grown :
      (db : Replica) (incoming : Notification)
      → find_notification incoming.id db ≡ none
      → Grown before db
      → Grown before (set_notifications (λ rows. incoming ∷ rows) db)
  insert-Grown db incoming absent h = record {
    row = λ id r found.
        let (s, e, v) = h.row id r found in
        (
          s,
          elim (Bool-cases (incoming.id == id)) [
            | inl same ↦
                let k : incoming.id ≡ id = (eq_iff incoming.id id).0 same in
                cc (absent, subst (λ j. find_notification j db ≡ some s) (sym k) e)
            | inr other ↦ rw other e
          ],
          v,
        );
    cursor = h.cursor;
  }

  merge_change-id :
      (stored incoming row : Notification) → (merge_change codec stored incoming row).id ≡ row.id
  unfolding merge_change
  merge_change-id stored incoming row = ground arith

  changed :
      (db : Replica) (stored incoming s : Notification) (id : String)
      → find_notification incoming.id db ≡ some stored
      → find_notification id db ≡ some s
      → (s.id == incoming.id) ≡ true
      → Later s (merge_change codec stored incoming s)
  unfolding merge_row
  changed db stored incoming s id known e same =
      let here : s.id ≡ id =
        (eq_iff s.id id).0 (select_where-holds (λ n. n.id == id) db.notifications s e) in
      let k : incoming.id ≡ id = sym ((eq_iff s.id incoming.id).0 same) ∙ here in
      let one : stored ≡ s = cc (e, subst (λ j. find_notification j db ≡ some stored) k known) in
      subst (λ t. Later s (merge_change codec t incoming s)) (sym one)
        (merge_row-Later codec s incoming)

  update-Grown :
      (db : Replica) (stored incoming : Notification)
      → find_notification incoming.id db ≡ some stored
      → Grown before db
      → Grown before (
          set_notifications
            (update_where (λ n. n.id == incoming.id) (merge_change codec stored incoming))
            db)
  update-Grown db stored incoming known h = record {
    row = λ id r found.
        let (s, e, v) = h.row id r found in
        let p = λ (n : Notification). n.id == incoming.id in
        (
          (if p s then merge_change codec stored incoming s else s),
          rw
              (
                find_row-update_where (λ n. n.id) p (merge_change codec stored incoming)
                    db.notifications id (merge_change-id stored incoming),
                e,
              )
              refl,
          Later-trans r s _ v (elim (Bool-cases (p s)) [
            | inl same ↦ rw same (changed db stored incoming s id known e same)
            | inr other ↦ rw other (Later-refl s)
          ]),
        );
    cursor = h.cursor;
  }

  store_row-Grown :
      (incoming : Notification) (db : Replica) (stored : Option Notification)
      → find_notification incoming.id db ≡ stored
      → Grown before db
      → Grown before (store_row codec stored incoming db).0
  store_row-Grown incoming db none known h = unfold exec in insert-Grown db incoming known h
  store_row-Grown incoming db (some stored) known h =
      elim (Bool-cases (same_identity stored incoming)) [
        | inl same ↦
            unfold exec require ◌>>=◌ in
            rw (same, require) (update-Grown db stored incoming known h)
        | inr other ↦ unfold exec require ◌>>=◌ in rw (other, require) h
      ]

  merge_notification-Grown :
      (seen : List String) (incoming : Notification)
      → Keeps (Grown before) (merge_notification codec seen incoming)
  unfolding merge_notification
  merge_notification-Grown seen incoming =
      bind-Keeps _ _ (require-Keeps _ _)
        λ _. query_then-Keeps _ _ λ db h. store_row-Grown incoming db _ refl h

  merge_notifications-Grown :
      (seen : List String) (ns : List Notification)
      → Keeps (Grown before) (merge_notifications codec seen ns)
  unfolding merge_notifications
  merge_notifications-Grown seen [] = pure-Keeps _
  merge_notifications-Grown seen (n ∷ ns) =
      bind-Keeps _ _ (merge_notification-Grown seen n)
        λ _. merge_notifications-Grown (n.id ∷ seen) ns

  cursors-Grown :
      (more : List (String × ℕ))
      → Keeps (Grown before) (exec (λ db. record db { cursors = raise_cursors more db.cursors }))
  cursors-Grown more = exec-Keeps _ λ db h. record {
    row = h.row;
    cursor = λ origin. omega (arith, h.cursor origin, raise_cursors-le more db.cursors origin);
  }

  statuses-Grown :
      (f : Replica → List (String × Status))
      → Keeps (Grown before) (exec (λ db. record db { statuses = f db }))
  statuses-Grown f = exec-Keeps _ λ db h. record { row = h.row; cursor = h.cursor }

  apply-Grown :
      (cluster_id : String) (snapshot : Snapshot) (now : ℕ)
      → Keeps (Grown before) (apply_snapshot codec cluster_id snapshot now)
  unfolding apply_snapshot
  apply-Grown cluster_id snapshot now =
      search (keeps_rules, merge_notifications-Grown, cursors-Grown, statuses-Grown) depth 11

-- Applying a snapshot, whether it is accepted or refused, loses no notification and keeps each one's id,
-- webhook and external key; its state never falls in rank, its update time never goes back and its
-- creation time never goes up; and no origin's cursor is lowered.
pub apply_snapshot-Grown :
    (codec : Codec) (db : Replica) (cluster_id : String) (snapshot : Snapshot) (now : ℕ)
    → Grown db (apply_snapshot codec cluster_id snapshot now db).0
apply_snapshot-Grown codec db cluster_id snapshot now =
    (apply-Grown codec db cluster_id snapshot now).from db
      (record { row = λ id r found. (r, found, Later-refl r); cursor = λ origin. omega arith })
