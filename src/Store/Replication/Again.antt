-- ===== src/Store/Replication/Again.antt =====
-- internal/store/replication.go: a range that was applied can be received again.
use tintwire.Prelude.{
  ℕ, ◌+◌, ◌≤◌, ◌<◌, String, ◌≡◌, refl, Bool, true, false, List, [], ◌∷◌, ◌==◌, string_eq, nat_eq,
  leb, lookup-insert, All, arith, Bool-cases, inl, inr,
}
use tintwire.Store.Op.{Op, ok, pure, query, transaction, ◌>>=◌}
use tintwire.Store.Ensures.{
  Ensures, query_then-Ensures, require_then-Ensures, exec-Ensures, exec_then-Ensures, pure-Ensures,
  fail-Ensures, require-Ensures, require_some_then-Ensures, call-Ensures, transaction-Ensures,
}
use tintwire.Store.Replication.{
  ReplicationOperation, Log, Receiver, Outcome, applied, held_back, check_repeat, store_operation,
  attempt_effect, is_sound, try_effect, settle, report, apply_range, apply_replication_operations,
}
use tintwire.Store.Replication.Known.{
  origin_cursor, IsKnown, apply_known, stored_next, stored_next-IsKnown, next-IsKnown,
}

module _ {ℓ} {S : Type ℓ} where
  -- What a range leaves in the log: it is known, and so is what was known before.
  record Received (origin : String) (before : Log S) (ops : List ReplicationOperation)
      (after : Log S) : Type ℓ where
    known : All (IsKnown origin after) ops
    kept : (op : ReplicationOperation) → IsKnown origin before op → IsKnown origin after op

  same_log :
      (origin : String) (db : Log S) (effects : S) (op : ReplicationOperation)
      → IsKnown origin db op
      → IsKnown origin (record db { effects = effects }) op
  same_log origin db effects op k = record {
    own = k.own;
    positive = k.positive;
    covered = k.covered;
    stored = k.stored;
    found = k.found;
    repeat = k.repeat;
  }

  check_repeat-Ensures :
      (origin : String) (op : ReplicationOperation) (db : Log S)
      → (op.origin == origin) ≡ true
      → (op.sequence == 0) ≡ false
      → op.sequence ≤ origin_cursor origin db
      → Ensures (λ _ after. (after ≡ db) × IsKnown origin db op) (check_repeat op) db
  unfolding check_repeat
  check_repeat-Ensures origin op db own positive covered = query_then-Ensures _ _ _ (
      require_some_then-Ensures _ _ _ _ λ stored found. require-Ensures _ _ _ λ repeat. (
        refl,
        record {
          own = own;
          positive = positive;
          covered = covered;
          stored = stored;
          found = found;
          repeat = repeat;
        },
      ))

  store_operation-Ensures :
      (op : ReplicationOperation) (db : Log S)
      → Ensures (λ _ after. after ≡ stored_next op db) (store_operation op) db
  unfolding store_operation
  store_operation-Ensures op db =
      query_then-Ensures _ _ _
        (require_then-Ensures _ _ _ _ λ free. exec_then-Ensures _ _ _ (exec-Ensures _ _ refl))

module _ {ℓ} {S : Type ℓ} (receiver : Receiver S) (cluster_id : String) where
  attempt_effect-Ensures :
      (op : ReplicationOperation) (db : Log S)
      → Ensures
          (λ _ after. (effects : S) × (after ≡ record db { effects = effects }))
          (attempt_effect receiver cluster_id op)
          db
  unfolding attempt_effect
  attempt_effect-Ensures op db = record {
    from = λ fine e. ((receiver.effect op db.effects).0, refl);
  }

  try_effect-Ensures :
      (op : ReplicationOperation) (db : Log S)
      → Ensures
          (λ _ after. (effects : S) × (after ≡ record db { effects = effects }))
          (try_effect receiver cluster_id op)
          db
  try_effect-Ensures op db = elim (Bool-cases (is_sound receiver cluster_id op)) [
    | inl sound ↦ rw sound (attempt_effect-Ensures op db)
    | inr unsound ↦ rw unsound (pure-Ensures _ _ (db.effects, refl))
  ]

  next-Received :
      (origin : String) (db after : Log S) (effects : S) (op : ReplicationOperation)
      (ops : List ReplicationOperation)
      → (op.origin == origin) ≡ true
      → (op.sequence == 0) ≡ false
      → origin_cursor origin db < op.sequence
      → Received origin (stored_next op (record db { effects = effects })) ops after
      → Received origin db (op ∷ ops) after
  next-Received origin db after effects op ops own positive above r =
      let db1 = record db { effects = effects } in
      record {
        known = (r.kept op (next-IsKnown origin db1 op own positive), r.known);
        kept = λ old k.
            r.kept old
              (stored_next-IsKnown origin db1 old op own above (same_log origin db effects old k));
      }

  settle-Ensures :
      (origin : String) (db before : Log S) (op : ReplicationOperation)
      (ops : List ReplicationOperation) (rest : Op (Log S) Outcome) (fine : Bool)
      → Ensures
          (λ o after. o ≡ applied → Received origin before (op ∷ ops) after)
          rest
          (stored_next op db)
      → Ensures
          (λ o after. o ≡ applied → Received origin before (op ∷ ops) after)
          (settle receiver cluster_id op rest fine)
          db
  settle-Ensures origin db before op ops rest true h =
      call-Ensures _ _ _ (store_operation-Ensures op db) λ _ after e. rw e h
  settle-Ensures origin db before op ops rest false h =
      exec_then-Ensures _ _ _ (pure-Ensures _ _ λ e. cc e)

  apply_range-Ensures :
      (origin : String) (c : ℕ) (ops : List ReplicationOperation) (db : Log S)
      → origin_cursor origin db ≡ c
      → Ensures
          (λ o after. o ≡ applied → Received origin db ops after)
          (apply_range receiver cluster_id origin c ops)
          db
  unfolding apply_range
  apply_range-Ensures origin c [] db e =
      pure-Ensures _ _ λ _. record { known = tt; kept = λ op k. k }
  apply_range-Ensures origin c (op ∷ ops) db e = require_then-Ensures _ _ _ _ λ proper.
      let own : (op.origin == origin) ≡ true = ground arith in
      let positive : (op.sequence == 0) ≡ false = ground arith in
      elim (Bool-cases (leb op.sequence c)) [
        | inl below ↦ rw below (
            call-Ensures _ _ _ (check_repeat-Ensures origin op db own positive (ground arith))
              λ _ after (same, k). rw same (record {
                from = λ o done all.
                    let r = (apply_range-Ensures origin c ops db e).from o done all in
                    record { known = (r.kept op k, r.known); kept = r.kept };
              }))
        | inr above ↦ elim (Bool-cases (op.sequence == c + 1)) [
          | inr far ↦ rw (above, far) (fail-Ensures _ _)
          | inl next ↦
              rw (above, next)
                (call-Ensures _ _ _ (try_effect-Ensures op db) λ fine after (effects, same).
                  let db1 = record db { effects = effects } in
                  let reached : origin_cursor origin (stored_next op db1) ≡ op.sequence =
                    rw (lookup-insert op.origin origin op.sequence db.cursors, own) refl in
                  rw same (
                    settle-Ensures origin db1 db op ops _ fine (record {
                      from = λ o done all.
                          next-Received origin db _ effects op ops own positive (ground arith) (
                            (apply_range-Ensures origin op.sequence ops (stored_next op db1)
                                reached).from
                              o done all);
                    })))
        ]
      ]

  report-Ensures :
      (o : Outcome) (origin : String) (before after : Log S) (ops : List ReplicationOperation)
      → (o ≡ applied → Received origin before ops after)
      → Ensures (λ _ last. All (IsKnown origin last) ops) (report receiver cluster_id o) after
  report-Ensures applied origin before after ops h = pure-Ensures _ _ (h refl).known
  report-Ensures held_back origin before after ops h = fail-Ensures _ _

  apply-Ensures :
      (op : ReplicationOperation) (ops : List ReplicationOperation) (db : Log S)
      → Ensures
          (λ _ after. All (IsKnown op.origin after) (op ∷ ops))
          (apply_replication_operations receiver cluster_id (op ∷ ops))
          db
  unfolding apply_replication_operations
  apply-Ensures op ops db =
      call-Ensures _ _ _
        (transaction-Ensures _ _
          (query_then-Ensures _ _ _ (apply_range-Ensures op.origin _ (op ∷ ops) db refl)))
        λ o after h. report-Ensures o op.origin db after (op ∷ ops) h

  accepted :
      (op : ReplicationOperation) (ops : List ReplicationOperation) (db : Log S)
      → All (IsKnown op.origin db) (op ∷ ops)
      → apply_replication_operations receiver cluster_id (op ∷ ops) db ≡ (db, ok tt)
  unfolding apply_replication_operations transaction query pure ◌>>=◌
  accepted op ops db known = rw (apply_known receiver cluster_id op.origin db (op ∷ ops) known) refl

  -- A range of operations that was applied is accepted again, and then changes nothing: no effect is
  -- applied twice.
  pub apply_again :
      (ops : List ReplicationOperation) (db : Log S)
      → (apply_replication_operations receiver cluster_id ops db).1 ≡ ok tt
      → apply_replication_operations receiver cluster_id ops
          (apply_replication_operations receiver cluster_id ops db).0
        ≡ ((apply_replication_operations receiver cluster_id ops db).0, ok tt)
  apply_again [] db done = unfold apply_replication_operations pure in refl
  apply_again (op ∷ ops) db done =
      accepted op ops (apply_replication_operations receiver cluster_id (op ∷ ops) db).0
        ((apply-Ensures op ops db).from tt done)
