-- ===== src/Convergence/Order.antt =====
-- The result of `Merge` (internal/replication/model.go) does not depend on the order of the operations.
use tintwire.Prelude.{
  ◌≤◌, String, ◌≡◌, some, List, arith, lookup, inl, inr, Memᴰ, SameMembers, Option-cases, sym,
}
use tintwire.Convergence.Node.{Operation, Node, done, id, new_node, state_of, merge}
use tintwire.Convergence.Step.{Inv, new_node-Inv}
use tintwire.Convergence.Merge.{Merged, merge-Merged, merge_succeeds}

abbrev pub SameApplied : Node → Node → Type 0
SameApplied a b = (k : String) → lookup k a.applied ≡ lookup k b.applied

state_of_le :
    (a b : Node) (m : String) → Inv a → Inv b → SameApplied a b → state_of a m ≤ state_of b m
state_of_le a b m va vb e = elim (va.attained m) [
  | inl zeroed ↦ omega arith
  | inr (k, o, known, named, equal) ↦ ground (arith, vb.covers k o, e k)
]

-- The states of a node are determined by the operations that it has applied.
pub state_of-determined :
    (a b : Node) → Inv a → Inv b → SameApplied a b → (m : String) → state_of a m ≡ state_of b m
state_of-determined a b va vb e m =
    omega (arith, state_of_le a b m va vb e, state_of_le b a m vb va (λ k. sym (e k)))

pub new_empty : (k : String) (o : Operation) → lookup k new_node.applied ≡ some o → ⊥
unfolding lookup
new_empty k o h = cc

listed :
    (n : Node) (os : List Operation) (k : String) (o : Operation)
    → Merged new_node os n
    → lookup k n.applied ≡ some o
    → Memᴰ o os × (id o ≡ k)
listed n os k o r h = elim (r.only k o h) [ inl before ↦ absurd (new_empty k o before) | inr m ↦ m ]

known_in :
    (a b : Node) (xs ys : List Operation)
    → Merged new_node xs a
    → Merged new_node ys b
    → ((o : Operation) → Memᴰ o xs → Memᴰ o ys)
    → (k : String) (o : Operation) → lookup k a.applied ≡ some o
    → lookup k b.applied ≡ some o
known_in a b xs ys ra rb sub k o h =
    let (m, e) = listed a xs k o ra h in rw (← e) (rb.adds o (sub o m)).0

same_applied :
    (a b : Node) (xs ys : List Operation)
    → Merged new_node xs a
    → Merged new_node ys b
    → SameMembers xs ys
    → SameApplied a b
same_applied a b xs ys ra rb same k = elim (Option-cases (lookup k a.applied)) [
  | inl absent ↦ elim (Option-cases (lookup k b.applied)) [
    | inl absent' ↦ cc
    | inr (o, known) ↦ cc (known_in b a ys xs rb ra same.1 k o known)
  ]
  | inr (o, known) ↦ cc (known_in a b xs ys ra rb same.0 k o known)
]

-- If a new node accepts a list of operations, it accepts every other list of the same operations, in
-- any order and with any repetitions, and the two nodes have applied the same operations and give
-- every notification the same state.
pub merge_order_independent :
    (xs ys : List Operation) (a : Node)
    → SameMembers xs ys
    → merge new_node xs ≡ done a
    → (b : Node) × (merge new_node ys ≡ done b)
      × SameApplied a b
      × ((m : String) → state_of a m ≡ state_of b m)
merge_order_independent xs ys a same h =
    let ra = merge-Merged new_node a xs new_node-Inv h in
    let (b, e) =
      merge_succeeds (λ k. lookup k a.applied) new_node ys new_node-Inv
        (λ o m. ra.adds o (same.1 o m)) (λ k o p. absurd (new_empty k o p)) in
    let rb = merge-Merged new_node b ys new_node-Inv e in
    let applied = same_applied a b xs ys ra rb same in
    (b, e, applied, state_of-determined a b ra.inv rb.inv applied)
