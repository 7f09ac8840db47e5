-- ===== src/Convergence/Node.antt =====
-- internal/replication/model.go: `State`, `Operation`, `Node` and the methods of `*Node`.
use tintwire.Prelude.{
  ℕ, zero, suc, ◌+◌, String, ◌≡◌, Bool, true, not, Option, none, some, List, [], ◌∷◌, ◌==◌,
  string_eq, nat_eq, ◌&&◌, ◌||◌, ltb, if◌then◌else◌, length, ◌↔◌, arith, eq_iff, lookup, insert,
}
use tintwire.Convergence.Ids.{operation_id}

-- `State` is a `uint8`: the four constants are 0 to 3, and `Apply` refuses larger values.
abbrev pub received : ℕ
received = 0

abbrev pub firing : ℕ
firing = 1

abbrev pub acknowledged : ℕ
acknowledged = 2

abbrev pub resolved : ℕ
resolved = 3

pub record Operation : Type 0 where
  pub origin : String
  pub sequence : ℕ
  pub notification_id : String
  pub state : ℕ

abbrev pub id : Operation → String
id o = operation_id o.origin o.sequence

-- Go's `==` on the struct.
abbrev pub operation_beq : Operation → Operation → Bool
operation_beq a b =
    a.origin == b.origin
    && a.sequence == b.sequence
    && a.notification_id == b.notification_id
    && a.state == b.state

pub operation_beq_iff : (a b : Operation) → (operation_beq a b ≡ true) ↔ (a ≡ b)
operation_beq_iff a b =
    ground (arith, eq_iff a.origin b.origin, eq_iff a.notification_id b.notification_id)

-- `n.states`, whose missing keys read as the zero value, and `n.applied`.
pub record Node : Type 0 where
  pub states : List (String × ℕ)
  pub applied : List (String × Operation)

abbrev pub new_node : Node
new_node = record { states = []; applied = [] }

abbrev pub or_zero : Option ℕ → ℕ
or_zero none = 0
or_zero (some s) = s

-- `(*Node).State`
unfoldable pub state_of : Node → String → ℕ
state_of n notification_id = or_zero (lookup notification_id n.states)

pub data Failure : Type 0 where
  invalid_operation id_collision : Failure

pub data Outcome : Type 0 where
  done : Node → Outcome
  failed : Node → Failure → Outcome

-- `if err != nil { return err }`: the node stays as the failing call left it.
infixl 5 ◌>>=◌
abbrev pub ◌>>=◌ : Outcome → (Node → Outcome) → Outcome
done n >>= f = f n
failed n e >>= f = failed n e

abbrev pub is_invalid : Operation → Bool
is_invalid o = o.origin == "" || o.sequence == 0 || o.notification_id == "" || ltb resolved o.state

unfoldable pub raise_state : Node → Operation → Node
raise_state n o =
    if ltb (state_of n o.notification_id) o.state
    then record n { states = insert o.notification_id o.state n.states }
    else n

-- `Apply` once the operation is known to be valid, by the entry found under its id.
unfoldable pub apply_found : Node → Operation → Option Operation → Outcome
unfolding raise_state
apply_found n o (some existing) =
    if not (operation_beq existing o) then failed n id_collision else done n
apply_found n o none = done (raise_state (record n { applied = insert (id o) o n.applied }) o)

-- `(*Node).Apply`
unfoldable pub apply : Node → Operation → Outcome
unfolding apply_found
apply n o =
    if is_invalid o then failed n invalid_operation else apply_found n o (lookup (id o) n.applied)

-- `(*Node).Merge`: the operations before a refused one stay applied.
unfoldable pub merge : Node → List Operation → Outcome
unfolding apply
merge n [] = done n
merge n (o ∷ os) = do n' ← apply n o; merge n' os

-- `(*Node).Cursor`: the loop on fuel; `none` would mean that the fuel ran out.
unfoldable pub cursor_from : ℕ → Node → String → ℕ → Option ℕ
cursor_from zero n origin cursor = none
cursor_from (suc fuel) n origin cursor =
    let next = cursor + 1 in
    let rest = cursor_from fuel n origin next in
    elim (lookup (operation_id origin next) n.applied) [ none ↦ some cursor | some _ ↦ rest ]

-- There are at most as many steps as operations were applied.
unfoldable pub cursor : Node → String → Option ℕ
unfolding cursor_from
cursor n origin = cursor_from (suc (length n.applied)) n origin 0
