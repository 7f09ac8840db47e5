-- ===== src/Convergence/Restore.antt =====
-- `Snapshot` of internal/replication/model.go: a new node is brought to the state of the node that a snapshot was
-- taken from.
use mathlib.Core.Path.{subst}
use mathlib.Core.List.Memᴰ
use tintwire.Prelude.{
  String, ◌≡◌, refl, sym, ap, ◌⊎◌, Option, none, some, List, [], ◌∷◌, ◌==◌, string_eq, eq_iff,
  lookup, insert, lookup-insert, Memᴰ, Bool-cases, Option-cases, inl, inr,
}
use tintwire.Convergence.Node.{
  operation_beq, Operation, Node, done, id, new_node, state_of, apply, apply_found, merge,
  is_invalid,
}
use tintwire.Convergence.Step.{done-injective, applied-raise_state, Inv, new_node-Inv}
use tintwire.Convergence.Merge.{>>=-eq-done, Merged, merge-Merged, merge_succeeds}
use tintwire.Convergence.Order.{new_empty, SameApplied, state_of-determined}
use tintwire.Convergence.Snapshot.{operations_of, snapshot, IsSorted, sort-IsSorted, mem-sort}

-- Every entry is the one that its key finds.
abbrev IsMap : List (String × Operation) → Type 0
IsMap entries =
    (entry : String × Operation) → Memᴰ entry entries → lookup entry.0 entries ≡ some entry.1

mem-insert :
    (key : String) (o : Operation) (entries : List (String × Operation))
    (entry : String × Operation)
    → Memᴰ entry (insert key o entries)
    → (entry ≡ (key, o)) ⊎ Memᴰ entry entries
unfolding insert
mem-insert key o [] entry m = elim (Memᴰ.cases_cons m) [
  | inl here ↦ inl here
  | inr later ↦ inr later
]
mem-insert key o (e ∷ es) entry m = elim (Bool-cases (e.0 == key)) [
  | inl replaced ↦ elim (Memᴰ.cases_cons (rw replaced at m)) [
    | inl here ↦ inl here
    | inr later ↦ inr (Memᴰ.tail later)
  ]
  | inr kept ↦ elim (Memᴰ.cases_cons (rw kept at m)) [
    | inl here ↦ inr (Memᴰ.head here)
    | inr later ↦ elim (mem-insert key o es entry later) [
      | inl new ↦ inl new
      | inr old ↦ inr (Memᴰ.tail old)
    ]
  ]
]

insert-IsMap :
    (key : String) (o : Operation) (entries : List (String × Operation))
    → lookup key entries ≡ none
    → IsMap entries
    → IsMap (insert key o entries)
insert-IsMap key o entries absent v entry m =
    rw (lookup-insert key entry.0 o entries) (elim (mem-insert key o entries entry m) [
      | inl new ↦
          let same : key ≡ entry.0 = ap (λ e. e.0) (sym new) in
          rw ((eq_iff _ _).1 same) (ap (λ e. some e.1) (sym new))
      | inr old ↦ elim (Bool-cases (key == entry.0)) [
        | inl same ↦ cc (v entry old, absent, (eq_iff _ _).0 same)
        | inr apart ↦ rw apart (v entry old)
      ]
    ])

apply_found-IsMap :
    (n n' : Node) (o : Operation) (found : Option Operation)
    → lookup (id o) n.applied ≡ found
    → IsMap n.applied
    → apply_found n o found ≡ done n'
    → IsMap n'.applied
unfolding apply_found
apply_found-IsMap n n' o none absent v e =
    subst (λ m. IsMap m.applied) (done-injective e)
      (subst IsMap (sym (applied-raise_state (record n { applied = insert (id o) o n.applied }) o))
        (insert-IsMap (id o) o n.applied absent v))
apply_found-IsMap n n' o (some x) known v e = elim (Bool-cases (operation_beq x o)) [
  | inl same ↦ subst (λ m. IsMap m.applied) (done-injective (rw same at e)) v
  | inr other ↦ absurd (cc (rw other at e))
]

apply-IsMap :
    (n n' : Node) (o : Operation) → IsMap n.applied → apply n o ≡ done n' → IsMap n'.applied
unfolding apply
apply-IsMap n n' o v e = elim (Bool-cases (is_invalid o)) [
  | inl bad ↦ absurd (cc (rw bad at e))
  | inr good ↦ apply_found-IsMap n n' o (lookup (id o) n.applied) refl v (rw good at e)
]

merge-IsMap :
    (n n' : Node) (os : List Operation) → IsMap n.applied → merge n os ≡ done n' → IsMap n'.applied
unfolding merge
merge-IsMap n n' [] v e = subst (λ m. IsMap m.applied) (done-injective e) v
merge-IsMap n n' (o ∷ os) v e =
    let (t, first, rest) = >>=-eq-done (apply n o) (λ t. merge t os) n' e in
    merge-IsMap t n' os (apply-IsMap n t o v first) rest

mem-lookup :
    (key : String) (o : Operation) (entries : List (String × Operation))
    → lookup key entries ≡ some o
    → Memᴰ o (operations_of entries)
unfolding lookup operations_of
mem-lookup key o [] h = cc
mem-lookup key o (e ∷ es) h = elim (Bool-cases (e.0 == key)) [
  | inl here ↦ Memᴰ.head (cc (rw here at h))
  | inr there ↦ Memᴰ.tail (mem-lookup key o es (rw there at h))
]

entry_of :
    (o : Operation) (entries : List (String × Operation))
    → Memᴰ o (operations_of entries)
    → (k : String) × Memᴰ (k, o) entries
unfolding operations_of
entry_of o [] m = absurd (Memᴰ.not-nil m)
entry_of o (e ∷ es) m = elim (Memᴰ.cases_cons m) [
  | inl here ↦ (e.0, Memᴰ.head (ap (λ x. (e.0, x)) here))
  | inr later ↦ let (k, there) = entry_of o es later in (k, Memᴰ.tail there)
]

-- The operations of a snapshot are those that the node has applied.
snapshot-known :
    (n : Node) (o : Operation)
    → Inv n
    → IsMap n.applied
    → Memᴰ o (snapshot n)
    → lookup (id o) n.applied ≡ some o
unfolding snapshot
snapshot-known n o v map m =
    let (k, there) = entry_of o n.applied ((mem-sort o (operations_of n.applied)).0 m) in
    let found : lookup k n.applied ≡ some o = map (k, o) there in rw (v.keyed k o found) found

known-snapshot :
    (n : Node) (k : String) (o : Operation) → lookup k n.applied ≡ some o → Memᴰ o (snapshot n)
unfolding snapshot
known-snapshot n k o found =
    (mem-sort o (operations_of n.applied)).1 (mem-lookup k o n.applied found)

-- A new node `m` that has merged the snapshot of `n`.
pub record Restored (n m : Node) : Type 0 where
  pub merged : merge new_node (snapshot n) ≡ done m
  pub applied : SameApplied m n
  pub states : (notification_id : String) → state_of m notification_id ≡ state_of n notification_id
  pub sorted : IsSorted (snapshot n)

restored_applied :
    (n m : Node) → Inv n → IsMap n.applied → Merged new_node (snapshot n) m → SameApplied m n
restored_applied n m v map r k = elim (Option-cases (lookup k m.applied)) [
  | inl absent ↦ elim (Option-cases (lookup k n.applied)) [
    | inl absent' ↦ cc
    | inr (o, known) ↦
        let here = (r.adds o (known-snapshot n k o known)).0 in
        cc (known, rw (v.keyed k o known) at here)
  ]
  | inr (o, known) ↦ elim (r.only k o known) [
    | inl before ↦ absurd (new_empty k o before)
    | inr (m, same) ↦ let found = snapshot-known n o v map m in cc (known, rw same at found)
  ]
]

-- A node reached by merging any operations is brought back by its snapshot: a new node that merges the
-- snapshot accepts all of it, has applied the same operations and has the same states. The snapshot is in
-- order: no operation stands right after one that it comes before.
pub snapshot_restores :
    (n : Node) (os : List Operation) → merge new_node os ≡ done n → (m : Node) × Restored n m
snapshot_restores n os reached =
    let v = (merge-Merged new_node n os new_node-Inv reached).inv in
    let map = merge-IsMap new_node n os (λ e m. absurd (Memᴰ.not-nil m)) reached in
    let (m, merged) =
      merge_succeeds (λ k. lookup k n.applied) new_node (snapshot n) new_node-Inv
        (λ o there. let found = snapshot-known n o v map there in (found, v.valid (id o) o found))
        (λ k o h. absurd (new_empty k o h)) in
    let r = merge-Merged new_node m (snapshot n) new_node-Inv merged in
    let same = restored_applied n m v map r in
    (
      m,
      record {
        merged = merged;
        applied = same;
        states = state_of-determined m n r.inv v same;
        sorted = unfold snapshot in sort-IsSorted (operations_of n.applied);
      },
    )
