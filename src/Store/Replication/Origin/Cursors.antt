-- ===== src/Store/Replication/Origin/Cursors.antt =====
-- internal/store/replication.go: pruning moves no cursor.
use tintwire.Prelude.{
  ℕ, max, String, ◌≡◌, refl, ◌∙◌, Bool, true, false, List, [], ◌∷◌, ◌==◌, string_eq, nat_eq, leb,
  lookup, insert, lookup-insert, delete_where, arith, eq_iff, Bool-cases, inl, inr,
}
use tintwire.Store.Op.{exec, require, ◌>>=◌}
use tintwire.Store.Keeps.{Keeps, bind-Keeps, require-Keeps, transaction-Keeps, query_then-Keeps}
use tintwire.Store.Replication.{ReplicationOperation, Log, cursor_of}
use tintwire.Store.Replication.Origin.{
  max_sequence, replication_cursor, is_pruned, prune_replication_operations,
}

max_sequence-pruned :
    (origin : String) (through : ℕ) (rows : List ReplicationOperation)
    → max through (max_sequence origin (delete_where (is_pruned origin through) rows))
      ≡ max through (max_sequence origin rows)
unfolding max_sequence
max_sequence-pruned origin through [] = refl
max_sequence-pruned origin through (r ∷ rows) =
    ground (arith, max_sequence-pruned origin through rows)

max_sequence-other :
    (origin other : String) (through : ℕ) (rows : List ReplicationOperation)
    → (origin == other) ≡ false
    → max_sequence other (delete_where (is_pruned origin through) rows) ≡ max_sequence other rows
unfolding max_sequence
max_sequence-other origin other through [] apart = refl
max_sequence-other origin other through (r ∷ rows) apart = ground (
  arith,
  max_sequence-other origin other through rows apart,
  eq_iff r.origin origin,
  eq_iff r.origin other,
  eq_iff origin other,
)

module _ {ℓ} {S : Type ℓ} where
  pruned :
      (db : Log S) (origin other : String) (through : ℕ)
      → leb through (max_sequence origin db.operations) ≡ true
      → replication_cursor other (record db {
        operations = delete_where (is_pruned origin through) db.operations;
        cursors = insert origin (max (cursor_of (lookup origin db.cursors)) through) db.cursors;
      })
        ≡ replication_cursor other db
  unfolding replication_cursor
  pruned db origin other through inside =
      let c = max (cursor_of (lookup origin db.cursors)) through in
      elim (Bool-cases (origin == other)) [
        | inl same ↦
            let e : origin ≡ other = (eq_iff _ _).0 same in
            rw (lookup-insert origin other c db.cursors, same, ← e)
              (ground (arith, max_sequence-pruned origin through db.operations))
        | inr apart ↦
            rw
              (
                lookup-insert origin other c db.cursors,
                apart,
                max_sequence-other origin other through db.operations apart,
              )
              refl
      ]

  prune-Keeps :
      (valid : Bool) (origin other : String) (through cursor : ℕ)
      → Keeps
          (λ (db : Log S). replication_cursor other db ≡ cursor)
          (prune_replication_operations valid origin through)
  unfolding prune_replication_operations
  prune-Keeps valid origin other through cursor = bind-Keeps _ _ (require-Keeps _ _) λ _.
      transaction-Keeps _ (
        query_then-Keeps _ _ λ db h.
          elim (Bool-cases (leb through (max_sequence origin db.operations))) [
            | inl inside ↦
                unfold exec require ◌>>=◌ in
                rw (inside, require) (pruned db origin other through inside ∙ h)
            | inr outside ↦ unfold exec require ◌>>=◌ in rw (outside, require) h
          ])

  -- Pruning, whether it is accepted or refused, moves the cursor of no origin.
  pub prune_keeps_cursors :
      (valid : Bool) (origin other : String) (through : ℕ) (db : Log S)
      → replication_cursor other (prune_replication_operations valid origin through db).0
        ≡ replication_cursor other db
  prune_keeps_cursors valid origin other through db =
      (prune-Keeps valid origin other through (replication_cursor other db)).from db refl
