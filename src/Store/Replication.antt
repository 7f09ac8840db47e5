-- ===== src/Store/Replication.antt =====
-- internal/store/replication.go: the log of operations that nodes exchange. A received range of one origin
-- is applied in one transaction, which an operation that cannot be applied ends with a row of quarantine.
pub mod Effects
pub mod Origin
pub mod Apart
pub mod Known
pub mod Again
mod Tests
use tintwire.Prelude.{
  ℕ, ◌+◌, String, Bool, true, false, not, Option, none, some, List, [], ◌∷◌, ◌&&◌, ◌||◌, ◌==◌,
  string_eq, nat_eq, ltb, leb, if◌then◌else◌, lookup, insert, any_row, select_where, byte_length,
}
use tintwire.Store.Op.{
  Result, ok, err, Op, pure, fail, query, exec, require, require_some, transaction, ◌>>=◌, ◌>>◌,
  constraint, no_rows, collision, gap, mixed_range, quarantined,
}

pub record ReplicationOperation : Type 0 where
  pub version : ℕ
  pub cluster_id : String
  pub origin : String
  pub sequence : ℕ
  pub physical_ms : ℕ
  pub logical : ℕ
  pub kind : String
  pub channel_id : String
  pub actor_type : String
  pub actor_id : String
  pub payload : String
  pub created_at : ℕ

-- The tables of the log, beside those that effects change. A row of `replication_quarantine` is the key
-- of its operation.
pub record Log {ℓ} (S : Type ℓ) : Type ℓ where
  pub effects : S
  pub operations : List ReplicationOperation
  pub cursors : List (String × ℕ)
  pub quarantine : List (String × ℕ)

pub data Outcome : Type 0 where
  applied held_back : Outcome

-- What `json.Valid` and `applyReplicationEffect` are to the log.
pub record Receiver {ℓ} (S : Type ℓ) : Type ℓ where
  pub json_valid : String → Bool
  pub effect : ReplicationOperation → Op S (Unit {0})

abbrev pub cursor_of : Option ℕ → ℕ
cursor_of none = 0
cursor_of (some c) = c

-- `WHERE origin=? AND sequence=?`
abbrev pub is_at : String → ℕ → ReplicationOperation → Bool
is_at origin sequence r = r.origin == origin && r.sequence == sequence

-- an operation that was received twice has the same cluster, kind and payload
abbrev pub is_repeat : ReplicationOperation → ReplicationOperation → Bool
is_repeat op stored =
    stored.cluster_id == op.cluster_id && stored.kind == op.kind && stored.payload == op.payload

module _ {ℓ} {S : Type ℓ} where
  abbrev pub set_operations :
      (List ReplicationOperation → List ReplicationOperation) → Log S → Log S
  set_operations f db = record db { operations = f db.operations }

  -- an operation already covered by the cursor
  unfoldable pub check_repeat : ReplicationOperation → Op (Log S) (Unit {0})
  check_repeat op = do
    row ← query (λ db. select_where (is_at (op.origin) (op.sequence)) db.operations)
    stored ← require_some row no_rows
    require (is_repeat op stored) collision

  -- the envelope and the cursor of an operation whose effect was applied; (origin, sequence) is the key
  unfoldable pub store_operation : ReplicationOperation → Op (Log S) (Unit {0})
  store_operation op = do
    taken ← query (λ db. any_row (is_at (op.origin) (op.sequence)) db.operations)
    require (not taken && ltb 0 (op.physical_ms)) constraint
    exec (set_operations (λ rows. op ∷ rows))
    exec (λ db. record db { cursors = insert op.origin op.sequence db.cursors })

  -- `quarantineReplication`: `ON CONFLICT(origin,sequence) DO NOTHING`
  abbrev pub hold_back : ReplicationOperation → Log S → Log S
  hold_back op db =
      if any_row (λ (k : String × ℕ). k.0 == op.origin && k.1 == op.sequence) db.quarantine
      then db
      else record db { quarantine = (op.origin, op.sequence) ∷ db.quarantine }

module _ {ℓ} {S : Type ℓ} (receiver : Receiver S) (cluster_id : String) where
  open receiver use {json_valid, effect}

  -- Whether an operation was applied; a failed effect keeps what it has written so far.
  abbrev pub succeeded {κ} : {A : Type κ} → Result A → Bool
  succeeded (ok a) = true
  succeeded (err e) = false

  unfoldable pub attempt_effect : ReplicationOperation → Op (Log S) Bool
  attempt_effect op db =
      (record db { effects = (effect op db.effects).0 }, ok (succeeded (effect op db.effects).1))

  -- `maxReplicationPayloadBytes` is 1 MiB.
  abbrev pub is_sound : ReplicationOperation → Bool
  is_sound op =
      op.version == 1
      && op.cluster_id == cluster_id
      && leb (byte_length op.payload) 1048576
      && json_valid op.payload

  abbrev pub try_effect : ReplicationOperation → Op (Log S) Bool
  try_effect op = if is_sound op then attempt_effect op else pure false

  -- the end of a round: the rest of the range after a success, or the quarantine
  abbrev pub settle : ReplicationOperation → Op (Log S) Outcome → Bool → Op (Log S) Outcome
  settle op rest true = do store_operation op; rest
  settle op rest false = do exec (hold_back op); pure held_back

  -- the loop over a range, from the cursor of its origin
  unfoldable pub apply_range : String → ℕ → List ReplicationOperation → Op (Log S) Outcome
  apply_range origin cursor [] = pure applied
  apply_range origin cursor (op ∷ ops) =
      let skip = check_repeat op >>= λ _. apply_range origin cursor ops in
      let next = try_effect op >>= settle op (apply_range origin op.sequence ops) in
      require (op.origin == origin && not (op.sequence == 0)) mixed_range >>= λ _.
      if leb op.sequence cursor then skip else if op.sequence == cursor + 1 then next else fail gap

  abbrev pub report : Outcome → Op (Log S) (Unit {0})
  report applied = pure tt
  report held_back = fail quarantined

  -- `ApplyReplicationOperations` on the node of the cluster `cluster_id`
  unfoldable pub apply_replication_operations : List ReplicationOperation → Op (Log S) (Unit {0})
  apply_replication_operations [] = pure tt
  apply_replication_operations (op ∷ ops) =
      transaction (do
        row ← query (λ db. lookup op.origin db.cursors)
        apply_range op.origin (cursor_of row) (op ∷ ops))
      >>= report
