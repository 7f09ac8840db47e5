-- ===== src/Store/Replication/Origin.antt =====
-- internal/store/replication.go: a node appends to its own log and prunes what its peers have.
pub mod Cursors
pub mod Stamps
pub mod Growth
use tintwire.Prelude.{
  ℕ, ◌+◌, ◌%◌, ◌^◌, max, String, Bool, true, false, not, Option, none, some, List, [], ◌∷◌, ◌++◌,
  ◌&&◌, ◌||◌, ◌==◌, string_eq, nat_eq, ltb, leb, if◌then◌else◌, lookup, insert, any_row,
  select_least, delete_where, byte_length,
}
use tintwire.Store.Op.{
  Op, pure, query, exec, require, transaction, ◌>>=◌, ◌>>◌, constraint, invalid_input,
}
use tintwire.Store.Replication.{ReplicationOperation, Log, cursor_of, is_at, set_operations}

-- the columns by which a node orders its operations
pub record Stamp : Type 0 where
  pub sequence : ℕ
  pub physical_ms : ℕ
  pub logical : ℕ

abbrev pub stamp_of : ReplicationOperation → Stamp
stamp_of r = record { sequence = r.sequence; physical_ms = r.physical_ms; logical = r.logical }

abbrev pub operation_stamps : String → List ReplicationOperation → List Stamp
operation_stamps origin [] = []
operation_stamps origin (r ∷ rows) =
    let rest = operation_stamps origin rows in
    if r.origin == origin then stamp_of r ∷ rest else rest

abbrev pub cursor_stamps : Option ℕ → List Stamp
cursor_stamps none = []
cursor_stamps (some c) = record { sequence = c; physical_ms = 0; logical = 0 } ∷ []

-- `ORDER BY sequence DESC,physical_ms DESC`
abbrev pub is_higher : Stamp → Stamp → Bool
is_higher a b =
    ltb b.sequence a.sequence || a.sequence == b.sequence && ltb b.physical_ms a.physical_ms

abbrev pub or_zero : Option Stamp → Stamp
or_zero none = record { sequence = 0; physical_ms = 0; logical = 0 }
or_zero (some s) = s

-- the stamp after `previous`; `logical` is a `uint32` and `sequence` a `uint64`
unfoldable pub next_stamp : Stamp → ℕ → Stamp
next_stamp previous now =
    if leb now previous.physical_ms
    then record {
      sequence = (previous.sequence + 1) % 2 ^ 64;
      physical_ms = previous.physical_ms;
      logical = (previous.logical + 1) % 2 ^ 32;
    }
    else record { sequence = (previous.sequence + 1) % 2 ^ 64; physical_ms = now; logical = 0 }

-- `SELECT COALESCE(MAX(sequence),0) FROM replication_operations WHERE origin=?`
unfoldable pub max_sequence : String → List ReplicationOperation → ℕ
max_sequence origin [] = 0
max_sequence origin (r ∷ rows) =
    let rest = max_sequence origin rows in if r.origin == origin then max r.sequence rest else rest

abbrev pub is_pruned : String → ℕ → ReplicationOperation → Bool
is_pruned origin through r = r.origin == origin && leb r.sequence through

module _ {ℓ} {S : Type ℓ} where
  unfoldable pub last_stamp : String → Log S → Stamp
  last_stamp node_id db = or_zero (
      select_least is_higher (λ s. true)
        (operation_stamps node_id db.operations ++ cursor_stamps (lookup node_id db.cursors)))

  -- the `INSERT` of a local operation; (origin, sequence) is the key
  unfoldable pub insert_operation : ReplicationOperation → Op (Log S) (Unit {0})
  insert_operation op = do
    taken ← query (λ db. any_row (is_at (op.origin) (op.sequence)) db.operations)
    require (not taken && ltb 0 (op.sequence) && ltb 0 (op.physical_ms)) constraint
    exec (set_operations (λ rows. op ∷ rows))

  -- the rest of `appendReplicationOperation` on a node that replicates, with the encoded payload
  unfoldable pub append_encoded :
      String → String → String → String → String → String → String → ℕ → Op (Log S) (Unit {0})
  append_encoded cluster_id node_id kind channel_id actor_type actor_id payload now = do
    require (leb (byte_length payload) 1048576) invalid_input
    previous ← query (last_stamp node_id)
    insert_operation (record {
      version = 1;
      cluster_id = cluster_id;
      origin = node_id;
      sequence = (next_stamp previous now).sequence;
      physical_ms = (next_stamp previous now).physical_ms;
      logical = (next_stamp previous now).logical;
      kind = kind;
      channel_id = channel_id;
      actor_type = actor_type;
      actor_id = actor_id;
      payload = payload;
      created_at = now;
    })

  -- `appendReplicationOperation`
  unfoldable pub append_replication_operation :
      String → String → String → String → String → String → String → ℕ → Op (Log S) (Unit {0})
  append_replication_operation cluster_id node_id kind channel_id actor_type actor_id payload now =
      if cluster_id == ""
      then pure tt
      else append_encoded cluster_id node_id kind channel_id actor_type actor_id payload now

  -- `ReplicationCursor`
  unfoldable pub replication_cursor : String → Log S → ℕ
  replication_cursor origin db =
      max (cursor_of (lookup origin db.cursors)) (max_sequence origin db.operations)

  -- `PruneReplicationOperations`; `valid` is the match of the origin with `replicationIdentityPattern`.
  unfoldable pub prune_replication_operations : Bool → String → ℕ → Op (Log S) (Unit {0})
  prune_replication_operations valid origin through = do
    require (valid && not (through == 0)) invalid_input
    transaction (do
      high ← query (λ db. max_sequence origin db.operations)
      require (leb through high) invalid_input
      exec (λ db. record db {
        cursors = insert origin (max (cursor_of (lookup origin db.cursors)) through) db.cursors;
      })
      exec (set_operations (delete_where (is_pruned origin through))))
