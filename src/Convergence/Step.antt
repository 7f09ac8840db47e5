-- ===== src/Convergence/Step.antt =====
-- One `Apply` of internal/replication/model.go, as seen through the two maps.
use mathlib.Core.Path.{subst}
use tintwire.Prelude.{
  ◌≤◌, max, String, ◌≡◌, false, Option, none, some, ◌⊎◌, refl, ◌==◌, string_eq, if◌then◌else◌,
  arith, eq_iff, lookup, insert, lookup-insert, ◌∙◌, ap, inl, inr, Bool-cases,
}
use tintwire.Convergence.Node.{
  Operation, Node, done, id, new_node, state_of, apply, raise_state, apply_found, is_invalid,
  operation_beq, operation_beq_iff,
}

-- What every reachable node satisfies.
pub record Inv (n : Node) : Type 0 where
  pub keyed : (k : String) (o : Operation) → lookup k n.applied ≡ some o → id o ≡ k
  pub valid : (k : String) (o : Operation) → lookup k n.applied ≡ some o → is_invalid o ≡ false
  pub covers :
      (k : String) (o : Operation)
      → lookup k n.applied ≡ some o
      → o.state ≤ state_of n o.notification_id
  pub attained :
      (m : String)
      → (state_of n m ≡ 0)
        ⊎ ((k : String) × (o : Operation) × (lookup k n.applied ≡ some o)
            × (o.notification_id ≡ m)
            × (o.state ≡ state_of n m))

pub new_node-Inv : Inv new_node
unfolding lookup state_of
new_node-Inv = record {
  keyed = λ k o h. cc;
  valid = λ k o h. cc;
  covers = λ k o h. cc;
  attained = λ m. inl refl;
}

state_of-raise_state :
    (n : Node) (o : Operation) (m : String)
    → state_of (raise_state n o) m
      ≡ (if o.notification_id == m then max (state_of n m) o.state else state_of n m)
unfolding state_of raise_state
state_of-raise_state n o m =
    ground (arith, lookup-insert o.notification_id m o.state n.states, eq_iff o.notification_id m)

-- What one successful `Apply` does.
pub record Applied (n : Node) (o : Operation) (n' : Node) : Type 0 where
  pub sound : is_invalid o ≡ false
  pub fits : (e : Operation) → lookup (id o) n.applied ≡ some e → e ≡ o
  pub lookups :
      (k : String) → lookup k n'.applied ≡ (if id o == k then some o else lookup k n.applied)
  pub states :
      (m : String)
      → state_of n' m
        ≡ (if o.notification_id == m then max (state_of n m) o.state else state_of n m)

pub done-injective : {a b : Node} → done a ≡ done b → a ≡ b
done-injective e = cc

pub applied-raise_state : (n : Node) (o : Operation) → (raise_state n o).applied ≡ n.applied
unfolding raise_state
applied-raise_state n o = ground arith

raise_state-Applied :
    (n : Node) (o : Operation)
    → is_invalid o ≡ false
    → lookup (id o) n.applied ≡ none
    → Applied n o (raise_state (record n { applied = insert (id o) o n.applied }) o)
unfolding state_of
raise_state-Applied n o sound absent = record {
  sound = sound;
  fits = λ e h. cc;
  lookups = λ k. rw applied-raise_state (lookup-insert (id o) k o n.applied);
  states = λ m. state_of-raise_state (record n { applied = insert (id o) o n.applied }) o m;
}

again-Applied :
    (n : Node) (o : Operation)
    → Inv n
    → is_invalid o ≡ false
    → lookup (id o) n.applied ≡ some o
    → Applied n o n
again-Applied n o v sound known = record {
  sound = sound;
  fits = λ e h. cc;
  lookups = λ k. ground (arith, eq_iff (id o) k);
  states = λ m. ground (arith, eq_iff o.notification_id m, v.covers (id o) o known);
}

apply_found-Applied :
    (n n' : Node) (o : Operation) (found : Option Operation)
    → Inv n
    → is_invalid o ≡ false
    → lookup (id o) n.applied ≡ found
    → apply_found n o found ≡ done n'
    → Applied n o n'
unfolding apply_found
apply_found-Applied n n' o none v sound h e =
    subst (Applied n o) (done-injective e) (raise_state-Applied n o sound h)
apply_found-Applied n n' o (some x) v sound h e = elim (Bool-cases (operation_beq x o)) [
  | inl same ↦
      subst (Applied n o) (done-injective (rw same at e))
        (again-Applied n o v sound (h ∙ ap some ((operation_beq_iff x o).0 same)))
  | inr other ↦ absurd (cc (rw other at e))
]

pub apply-Applied : (n n' : Node) (o : Operation) → Inv n → apply n o ≡ done n' → Applied n o n'
unfolding apply
apply-Applied n n' o v h = elim (Bool-cases (is_invalid o)) [
  | inl bad ↦ absurd (cc (rw bad at h))
  | inr good ↦ apply_found-Applied n n' o (lookup (id o) n.applied) v good refl (rw good at h)
]
