-- ===== src/Store/Replication/Known.antt =====
-- internal/store/replication.go: operations that the log has received.
use tintwire.Prelude.{
  ℕ, ◌≤◌, ◌<◌, String, ◌≡◌, refl, true, false, some, List, [], ◌∷◌, ◌==◌, string_eq, nat_eq, leb,
  lookup, insert, lookup-insert, select_where, All, arith, eq_iff,
}
use tintwire.Store.Op.{ok, pure, query, require, require_some, ◌>>=◌}
use tintwire.Store.Replication.{
  ReplicationOperation, Log, Receiver, applied, cursor_of, is_at, is_repeat, check_repeat,
  apply_range,
}

module _ {ℓ} {S : Type ℓ} where
  abbrev pub origin_cursor : String → Log S → ℕ
  origin_cursor origin db = cursor_of (lookup origin db.cursors)

  -- An operation of an origin's range that the cursor covers and that the log has received.
  pub record IsKnown (origin : String) (db : Log S) (op : ReplicationOperation) : Type ℓ where
    pub own : (op.origin == origin) ≡ true
    pub positive : (op.sequence == 0) ≡ false
    pub covered : op.sequence ≤ origin_cursor origin db
    pub stored : ReplicationOperation
    pub found : select_where (is_at op.origin op.sequence) db.operations ≡ some stored
    pub repeat : is_repeat op stored ≡ true

  check_known :
      (origin : String) (db : Log S) (op : ReplicationOperation)
      → IsKnown origin db op
      → check_repeat op db ≡ (db, ok tt)
  unfolding check_repeat query require_some require ◌>>=◌
  check_known origin db op k = rw (k.found, require_some, k.repeat, require) refl

  -- A range of known operations is accepted, and changes nothing.
  pub apply_known :
      (receiver : Receiver S) (cluster_id origin : String) (db : Log S)
      (ops : List ReplicationOperation)
      → All (IsKnown origin db) ops
      → apply_range receiver cluster_id origin (origin_cursor origin db) ops db ≡ (db, ok applied)
  unfolding apply_range pure require ◌>>=◌
  apply_known receiver cluster_id origin db [] known = refl
  apply_known receiver cluster_id origin db (op ∷ ops) known =
      let k : IsKnown origin db op = known.0 in
      let below : leb op.sequence (origin_cursor origin db) ≡ true = ground (arith, k.covered) in
      rw (k.own, k.positive, require, below, check_known origin db op k)
        (apply_known receiver cluster_id origin db ops known.1)

  -- What storing the next operation of the range leaves.
  abbrev pub stored_next : ReplicationOperation → Log S → Log S
  stored_next op db = record db {
    operations = op ∷ db.operations;
    cursors = insert op.origin op.sequence db.cursors;
  }

  -- An operation that was known stays known when the next one of its range is stored.
  pub stored_next-IsKnown :
      (origin : String) (db : Log S) (op next : ReplicationOperation)
      → (next.origin == origin) ≡ true
      → origin_cursor origin db < next.sequence
      → IsKnown origin db op
      → IsKnown origin (stored_next next db) op
  stored_next-IsKnown origin db op next own above k =
      let here : next.origin ≡ origin = (eq_iff _ _).0 own in
      let same : op.origin ≡ origin = (eq_iff _ _).0 k.own in
      let other : (next.sequence == op.sequence) ≡ false = ground (arith, k.covered) in
      let apart : is_at op.origin op.sequence next ≡ false = rw other (ground arith) in
      record {
        own = k.own;
        positive = k.positive;
        covered =
            rw (lookup-insert next.origin origin next.sequence db.cursors, own)
              (omega (arith, k.covered));
        stored = k.stored;
        found = rw apart k.found;
        repeat = k.repeat;
      }

  pub next-IsKnown :
      (origin : String) (db : Log S) (op : ReplicationOperation)
      → (op.origin == origin) ≡ true
      → (op.sequence == 0) ≡ false
      → IsKnown origin (stored_next op db) op
  next-IsKnown origin db op own positive =
      let s : (op.origin == op.origin) ≡ true = (eq_iff op.origin op.origin).1 refl in
      let n : (op.sequence == op.sequence) ≡ true = ground arith in
      let c : (op.cluster_id == op.cluster_id) ≡ true =
        (eq_iff op.cluster_id op.cluster_id).1 refl in
      let d : (op.kind == op.kind) ≡ true = (eq_iff op.kind op.kind).1 refl in
      let p : (op.payload == op.payload) ≡ true = (eq_iff op.payload op.payload).1 refl in
      record {
        own = own;
        positive = positive;
        covered = rw (lookup-insert op.origin origin op.sequence db.cursors, own) (omega arith);
        stored = op;
        found = rw (s, n) refl;
        repeat = rw (c, d, p) refl;
      }
