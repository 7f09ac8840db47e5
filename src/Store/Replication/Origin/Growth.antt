-- ===== src/Store/Replication/Origin/Growth.antt =====
-- internal/store/replication.go: the operations that a node appends to its log are in the order of time.
use mathlib.Core.List.Memᴰ
use mathlib.Core.Path.{subst}
use tintwire.Prelude.{
  ℕ, ◌+◌, ◌%◌, ◌^◌, ◌≤◌, ◌<◌, max, String, ◌≡◌, refl, sym, ap, ◌∙◌, Bool, true, List, [], ◌∷◌, ◌==◌,
  string_eq, nat_eq, leb, lookup, insert, lookup-insert, arith, eq_iff, Bool-cases, inl, inr, Memᴰ,
  length, delete_where, mem-delete_where, byte_length,
}
use tintwire.Store.Op.{exec, query, pure, require, ◌>>=◌, constraint}
use tintwire.Store.Keeps.{
  Keeps, transaction-Keeps, bind-Keeps, require-Keeps, query_then-Keeps, require_then-kept,
}
use tintwire.Store.Replication.{ReplicationOperation, Log, cursor_of, set_operations}
use tintwire.Store.Replication.Origin.{
  stamp_of, last_stamp, max_sequence, is_pruned, insert_operation, append_encoded,
  append_replication_operation, prune_replication_operations,
}
use tintwire.Store.Replication.Origin.Stamps.{
  is_later, IsOwnLog, last_stamp-bounds, last_stamp-last, next_stamp-later, later_after,
}

max_sequence-fits :
    (node : String) (rows : List ReplicationOperation)
    → ((r : ReplicationOperation) → Memᴰ r rows → r.origin ≡ node → r.sequence < 2 ^ 64)
    → max_sequence node rows < 2 ^ 64
unfolding max_sequence
max_sequence-fits node [] h = omega arith
max_sequence-fits node (r ∷ rows) h =
    let later = max_sequence-fits node rows (λ s at e. h s (Memᴰ.tail at) e) in
    elim (Bool-cases (r.origin == node)) [
      | inl same ↦ let fits = h r (Memᴰ.head refl) ((eq_iff _ _).0 same) in rw same (ground arith)
      | inr other ↦ rw other later
    ]

module _ {ℓ} {S : Type ℓ} (node : String) where
  raised : (n m : ℕ) (db : Log S) → n ≤ m → IsOwnLog node n db → IsOwnLog node m db
  raised n m db h owned = record {
    cursor_fits = owned.cursor_fits;
    own = λ r at e. let (above, fits, low) = owned.own r at e in (above, fits, omega arith);
    keyed = owned.keyed;
    ordered = owned.ordered;
  }

  added :
      (n : ℕ) (db : Log S) (op : ReplicationOperation)
      → IsOwnLog node n db
      → op.sequence ≡ (last_stamp node db).sequence + 1
      → op.sequence < 2 ^ 64
      → op.logical ≤ n + 1
      → is_later (stamp_of op) (last_stamp node db) ≡ true
      → IsOwnLog node (n + 1) (record db { operations = op ∷ db.operations })
  added n db op owned next fits low later =
      let (cursor_low, top_fits, top_low) = last_stamp-bounds node n db owned in
      let below = last_stamp-last node n db owned in
      record {
        cursor_fits = owned.cursor_fits;
        own = λ r at e. elim (Memᴰ.cases_cons at) [
          | inl here ↦ rw here (omega arith, fits, low)
          | inr there ↦
              let (above, r_fits, r_low) = owned.own r there e in (above, r_fits, omega arith)
        ];
        keyed = λ r s at_r at_s e f same. elim (Memᴰ.cases_cons at_r) [
          | inl here ↦ elim (Memᴰ.cases_cons at_s) [
            | inl here' ↦ here ∙ sym here'
            | inr there ↦
                let (s_low, _) = below s there f in
                absurd (omega (arith, ap (λ (o : ReplicationOperation). o.sequence) here))
          ]
          | inr there ↦ elim (Memᴰ.cases_cons at_s) [
            | inl here ↦
                let (r_low, _) = below r there e in
                absurd (omega (arith, ap (λ (o : ReplicationOperation). o.sequence) here))
            | inr there' ↦ owned.keyed r s there there' e f same
          ]
        ];
        ordered = λ r s at_r at_s e f less. elim (Memᴰ.cases_cons at_s) [
          | inl here ↦ elim (Memᴰ.cases_cons at_r) [
            | inl here' ↦ absurd (
                omega (
                  arith,
                  ap (λ (o : ReplicationOperation). o.sequence) here,
                  ap (λ (o : ReplicationOperation). o.sequence) here',
                ))
            | inr there ↦
                let (_, not_later) = below r there e in
                rw here
                  (later_after (stamp_of op) (last_stamp node db) (stamp_of r) later not_later)
          ]
          | inr there ↦ elim (Memᴰ.cases_cons at_r) [
            | inl here ↦
                let (s_low, _) = below s there f in
                absurd (omega (arith, ap (λ (o : ReplicationOperation). o.sequence) here))
            | inr there' ↦ owned.ordered r s there' there e f less
          ]
        ];
      }

  insert-IsOwnLog :
      (n : ℕ) (db : Log S) (op : ReplicationOperation)
      → IsOwnLog node n db
      → op.sequence ≡ ((last_stamp node db).sequence + 1) % 2 ^ 64
      → op.logical ≤ n + 1
      → is_later (stamp_of op) (last_stamp node db) ≡ true
      → IsOwnLog node (n + 1) (insert_operation op db).0
  unfolding insert_operation query exec ◌>>=◌
  insert-IsOwnLog n db op owned next low later =
      let (cursor_low, fits, top_low) = last_stamp-bounds node n db owned in
      require_then-kept (IsOwnLog node (n + 1)) _ constraint
        (λ _. exec (set_operations (λ rows. op ∷ rows))) db
        (raised n (n + 1) db (omega arith) owned)
        λ inserted.
          let positive : 0 < op.sequence = ground arith in
          added n db op owned (omega arith) (omega arith) low later

  append-IsOwnLog :
      (n : ℕ) (db : Log S) (cluster_id kind channel_id actor_type actor_id payload : String)
      (now : ℕ)
      → IsOwnLog node n db
      → n + 1 < 2 ^ 32
      → IsOwnLog node
          (n + 1)
          (append_replication_operation cluster_id node kind channel_id actor_type actor_id payload
            now db).0
  unfolding append_replication_operation append_encoded query pure require ◌>>=◌
  append-IsOwnLog n db cluster_id kind channel_id actor_type actor_id payload now owned room =
      let (cursor_low, fits, top_low) = last_stamp-bounds node n db owned in
      let (later, low, next) = next_stamp-later (last_stamp node db) now (omega arith) in
      elim (Bool-cases (cluster_id == "")) [
        | inl alone ↦ rw alone (raised n (n + 1) db (omega arith) owned)
        | inr clustered ↦ elim (Bool-cases (leb (byte_length payload) 1048576)) [
          | inl short ↦
              rw (clustered, short, require) (insert-IsOwnLog n db _ owned next (omega arith) later)
          | inr long ↦ rw (clustered, long, require) (raised n (n + 1) db (omega arith) owned)
        ]
      ]

  part-IsOwnLog :
      (n : ℕ) (db : Log S) (rows : List ReplicationOperation) (cursors : List (String × ℕ))
      → IsOwnLog node n db
      → cursor_of (lookup node cursors) < 2 ^ 64
      → ((r : ReplicationOperation)
          → Memᴰ r rows
          → Memᴰ r db.operations × (r.origin ≡ node → cursor_of (lookup node cursors) < r.sequence))
      → IsOwnLog node n (record db { operations = rows; cursors = cursors })
  part-IsOwnLog n db rows cursors owned fits part = record {
    cursor_fits = fits;
    own = λ r at e.
        let (there, above) = part r at in
        let (_, r_fits, r_low) = owned.own r there e in (above e, r_fits, r_low);
    keyed = λ r s at_r at_s. owned.keyed r s (part r at_r).0 (part s at_s).0;
    ordered = λ r s at_r at_s. owned.ordered r s (part r at_r).0 (part s at_s).0;
  }

  pruned-IsOwnLog :
      (n : ℕ) (db : Log S) (origin : String) (through : ℕ)
      → IsOwnLog node n db
      → leb through (max_sequence origin db.operations) ≡ true
      → IsOwnLog node n (record db {
        operations = delete_where (is_pruned origin through) db.operations;
        cursors = insert origin (max (cursor_of (lookup origin db.cursors)) through) db.cursors;
      })
  pruned-IsOwnLog n db origin through owned inside =
      let c = max (cursor_of (lookup origin db.cursors)) through in
      part-IsOwnLog n db _ _ owned
        (rw (lookup-insert origin node c db.cursors) (elim (Bool-cases (origin == node)) [
          | inl same ↦
              let e : origin ≡ node = (eq_iff _ _).0 same in
              let old = owned.cursor_fits in
              let highest =
                max_sequence-fits node db.operations (λ r at own. (owned.own r at own).1) in
              rw (same, e) (let below = rw e at inside in ground arith)
          | inr apart ↦ rw apart (owned.cursor_fits)
        ]))
        λ r at.
          let (there, stays) = mem-delete_where (is_pruned origin through) db.operations r at in
          (
            there,
            λ own. rw (lookup-insert origin node c db.cursors) (elim (Bool-cases (origin == node)) [
              | inl same ↦
                  let e : origin ≡ node = (eq_iff _ _).0 same in
                  let (above, fits, low) = owned.own r there own in
                  let here : (r.origin == origin) ≡ true = (eq_iff _ _).1 (own ∙ sym e) in
                  rw (same, e) (ground arith)
              | inr apart ↦ let (above, fits, low) = owned.own r there own in rw apart above
            ]),
          )

  prune-IsOwnLog :
      (n : ℕ) (valid : Bool) (origin : String) (through : ℕ)
      → Keeps
          (λ (db : Log S). IsOwnLog node n db)
          (prune_replication_operations valid origin through)
  unfolding prune_replication_operations
  prune-IsOwnLog n valid origin through = bind-Keeps _ _ (require-Keeps _ _) λ _.
      transaction-Keeps _ (
        query_then-Keeps _ _ λ db h.
          elim (Bool-cases (leb through (max_sequence origin db.operations))) [
            | inl inside ↦
                unfold exec require ◌>>=◌ in
                rw (inside, require) (pruned-IsOwnLog n db origin through h inside)
            | inr outside ↦ unfold exec require ◌>>=◌ in rw (outside, require) h
          ])

-- A node's own changes of its log.
pub data Call : Type 0 where
  appends : (cluster_id kind channel_id actor_type actor_id payload : String) (now : ℕ) → Call
  prunes : (valid : Bool) (origin : String) (through : ℕ) → Call

-- The log after a call, whether it succeeds or fails.
abbrev pub after_call {ℓ} : {S : Type ℓ} → String → Call → Log S → Log S
after_call node (appends cluster_id kind channel_id actor_type actor_id payload now) db =
    (append_replication_operation cluster_id node kind channel_id actor_type actor_id payload now
      db).0
after_call node (prunes valid origin through) db =
    (prune_replication_operations valid origin through db).0

unfoldable pub after_calls {ℓ} : {S : Type ℓ} → String → List Call → Log S → Log S
after_calls node [] db = db
after_calls node (c ∷ cs) db = after_calls node cs (after_call node c db)

step-IsOwnLog {ℓ} :
    {S : Type ℓ} (node : String) (c : Call) (n : ℕ) (db : Log S)
    → IsOwnLog node n db
    → n + 1 < 2 ^ 32
    → IsOwnLog node (n + 1) (after_call node c db)
step-IsOwnLog node (appends cluster_id kind channel_id actor_type actor_id payload now) n db owned
      room =
    append-IsOwnLog node n db cluster_id kind channel_id actor_type actor_id payload now owned room
step-IsOwnLog node (prunes valid origin through) n db owned room =
    raised node n (n + 1) _ (omega arith)
      ((prune-IsOwnLog node n valid origin through).from db owned)

-- After any appends and prunings, at whatever times, with the clock going back or not, successful or not,
-- and fewer than 2^32 of them from counters of at most `n`: the operations of the node that its log
-- holds have one sequence number each, above the node's cursor, and of two of them the one
-- with the higher number has the later stamp.
pub after_calls-IsOwnLog {ℓ} :
    {S : Type ℓ} (node : String) (calls : List Call) (n : ℕ) (db : Log S)
    → IsOwnLog node n db
    → n + length calls < 2 ^ 32
    → IsOwnLog node (n + length calls) (after_calls node calls db)
unfolding after_calls
after_calls-IsOwnLog node [] n db owned room = raised node n (n + 0) db (omega arith) owned
after_calls-IsOwnLog node (c ∷ cs) n db owned room =
    let rest =
      after_calls-IsOwnLog node cs (n + 1) (after_call node c db)
        (step-IsOwnLog node c n db owned (omega arith)) (omega arith) in
    subst (λ k. IsOwnLog node k (after_calls node cs (after_call node c db))) (omega arith) rest
