-- ===== src/Convergence/Tests.antt =====
-- The convergence model at three operations of two origins.
use mathlib.Core.List.Memᴰ
use tintwire.Prelude.{
  ℕ, String, ◌≡◌, refl, some, List, [], ◌∷◌, Memᴰ, SameMembers, lookup, insert, inl, inr, string_eq,
}
use tintwire.Convergence.Ids.{operation_id, operation_id-injective}
use tintwire.Convergence.Node.{
  Operation, Node, Outcome, done, failed, id_collision, firing, resolved, new_node, merge, state_of,
  cursor,
}
use tintwire.Convergence.Order.{merge_order_independent, SameApplied}
use tintwire.Convergence.Cursor.{IsCursor, cursor-IsCursor}
use tintwire.Convergence.Restore.{Restored, snapshot_restores}

abbrev first : Operation
first = record { origin = "alpha"; sequence = 1; notification_id = "n"; state = firing }

abbrev second : Operation
second = record { origin = "beta"; sequence = 1; notification_id = "n"; state = resolved }

abbrev node_of : List Operation → Outcome
node_of os = merge new_node os

abbrev merged : Node
merged = record {
  states = ("n", resolved) ∷ [];
  applied = ("alpha:1", first) ∷ ("beta:1", second) ∷ [];
}

merged_lem : merge new_node (first ∷ second ∷ []) ≡ done merged
unfolding merge operation_id state_of lookup insert
merged_lem = refl

decimal_lem : operation_id "alpha" 120 ≡ "alpha:120"
unfolding operation_id
decimal_lem = refl

collides :
    merge new_node (first ∷ record first { state = resolved } ∷ [])
    ≡ failed
        (record { states = ("n", firing) ∷ []; applied = ("alpha:1", first) ∷ [] })
        id_collision
unfolding merge operation_id state_of lookup insert
collides = refl

swapped : SameMembers (first ∷ second ∷ []) (second ∷ first ∷ second ∷ [])
swapped = (
  (λ o m. elim (Memᴰ.cases_cons m) [
    | inl e ↦ Memᴰ.tail (Memᴰ.head e)
    | inr later ↦ Memᴰ.head (Memᴰ.eq_of_singleton later)
  ]),
  (λ o m. elim (Memᴰ.cases_cons m) [ inl e ↦ Memᴰ.tail (Memᴰ.head e) | inr later ↦ later ]),
)

merge_order_independent_example :
    (b : Node) × (merge new_node (second ∷ first ∷ second ∷ []) ≡ done b)
    × SameApplied merged b
    × ((m : String) → state_of merged m ≡ state_of b m)
merge_order_independent_example =
    merge_order_independent (first ∷ second ∷ []) (second ∷ first ∷ second ∷ []) merged swapped
      merged_lem

cursor-IsCursor_example :
    (c : ℕ) × (cursor merged "alpha" ≡ some c)
    × IsCursor merged "alpha" c
    × ((d : ℕ) → IsCursor merged "alpha" d → d ≡ c)
cursor-IsCursor_example = cursor-IsCursor merged "alpha"

operation_id-injective_example : (◌≡◌ {A = String} "alpha" "alpha") × (◌≡◌ {A = ℕ} 7 7)
operation_id-injective_example = operation_id-injective "alpha" "alpha" 7 7 refl

snapshot_restores_example : (m : Node) × Restored merged m
snapshot_restores_example = snapshot_restores merged (first ∷ second ∷ []) merged_lem
