-- ===== src/Convergence/Merge.antt =====
-- What `Merge` of internal/replication/model.go keeps, and what it does to the map of operations.
use mathlib.Core.Path.{subst}
use mathlib.Core.List.Memᴰ
use tintwire.Prelude.{
  String, ◌≡◌, refl, false, Option, some, List, [], ◌∷◌, ◌⊎◌, ◌==◌, string_eq, arith, eq_iff,
  lookup, insert, ◌&&◌, Option-cases, inl, inr, Bool-cases, ltb, Memᴰ, sym,
}
use tintwire.Convergence.Node.{
  Operation, Node, Outcome, done, failed, id, state_of, apply, merge, is_invalid, ◌>>=◌,
  apply_found, raise_state, operation_beq_iff,
}
use tintwire.Convergence.Step.{Inv, Applied, apply-Applied, done-injective}

Applied-attained :
    (n n' : Node) (o : Operation) (m : String)
    → Inv n
    → Applied n o n'
    → (state_of n' m ≡ 0)
      ⊎ ((k : String) × (x : Operation) × (lookup k n'.applied ≡ some x)
          × (x.notification_id ≡ m)
          × (x.state ≡ state_of n' m))
Applied-attained n n' o m v a =
    elim (Bool-cases (o.notification_id == m && ltb (state_of n m) o.state)) [
      | inl higher ↦ inr (
        id o,
        o,
        ground (arith, a.lookups (id o), eq_iff (id o) (id o)),
        ground (arith, eq_iff o.notification_id m),
        ground (arith, a.states m),
      )
      | inr lower ↦ elim (v.attained m) [
        | inl zeroed ↦ inl (ground (arith, a.states m))
        | inr (k, x, known, named, equal) ↦ inr (
          k,
          x,
          ground (arith, a.lookups k, eq_iff (id o) k, a.fits x),
          named,
          ground (arith, a.states m),
        )
      ]
    ]

pub Applied-Inv : (n n' : Node) (o : Operation) → Inv n → Applied n o n' → Inv n'
Applied-Inv n n' o v a = record {
  keyed = λ k x h. ground (arith, a.lookups k, eq_iff (id o) k, v.keyed k x);
  valid = λ k x h. ground (arith, a.lookups k, eq_iff (id o) k, v.valid k x, a.sound);
  covers = λ k x h. ground (
    arith,
    a.lookups k,
    eq_iff (id o) k,
    v.covers k x,
    a.states x.notification_id,
    eq_iff o.notification_id x.notification_id,
  );
  attained = λ m. Applied-attained n n' o m v a;
}

pub >>=-eq-done :
    (r : Outcome) (f : Node → Outcome) (n : Node)
    → (r >>= f) ≡ done n
    → (t : Node) × (r ≡ done t) × (f t ≡ done n)
>>=-eq-done (done t) f n h = (t, refl, h)
>>=-eq-done (failed t e) f n h = cc

-- The operations that a successful `Merge` leaves known: those known before, and those of the list.
pub record Merged (n : Node) (os : List Operation) (n' : Node) : Type 0 where
  pub inv : Inv n'
  pub keeps :
      (k : String) (o : Operation) → lookup k n.applied ≡ some o → lookup k n'.applied ≡ some o
  pub adds :
      (o : Operation) → Memᴰ o os → (lookup (id o) n'.applied ≡ some o) × (is_invalid o ≡ false)
  pub only :
      (k : String) (o : Operation)
      → lookup k n'.applied ≡ some o
      → (lookup k n.applied ≡ some o) ⊎ (Memᴰ o os × (id o ≡ k))

merge_nil-Merged : (n : Node) → Inv n → Merged n [] n
merge_nil-Merged n v = record {
  inv = v;
  keeps = λ k o h. h;
  adds = λ o m. absurd (Memᴰ.not-nil m);
  only = λ k o h. inl h;
}

Applied-keeps :
    (n t : Node) (o x : Operation) (k : String)
    → Applied n o t
    → lookup k n.applied ≡ some x
    → lookup k t.applied ≡ some x
Applied-keeps n t o x k a h = ground (arith, a.lookups k, a.fits x, eq_iff (id o) k)

merge_cons-Merged :
    (n t n' : Node) (o : Operation) (os : List Operation)
    → Applied n o t
    → Merged t os n'
    → Merged n (o ∷ os) n'
merge_cons-Merged n t n' o os a r = record {
  inv = r.inv;
  keeps = λ k x h. r.keeps k x (Applied-keeps n t o x k a h);
  adds = λ x m. elim (Memᴰ.cases_cons m) [
    | inl e ↦
        subst (λ y. (lookup (id y) n'.applied ≡ some y) × (is_invalid y ≡ false)) (sym e)
          (r.keeps (id o) o (ground (arith, a.lookups (id o), eq_iff (id o) (id o))), a.sound)
    | inr later ↦ r.adds x later
  ];
  only = λ k x h. elim (r.only k x h) [
    | inl before ↦ elim (Bool-cases (id o == k)) [
      | inl here ↦
          let e : o ≡ x = ground (arith, a.lookups k) in
          inr (Memᴰ.head (sym e), ground (arith, eq_iff (id o) k))
      | inr there ↦ inl (ground (arith, a.lookups k))
    ]
    | inr (m, e) ↦ inr (Memᴰ.tail m, e)
  ];
}

pub merge-Merged :
    (n n' : Node) (os : List Operation) → Inv n → merge n os ≡ done n' → Merged n os n'
unfolding merge
merge-Merged n n' [] v h = subst (Merged n []) (done-injective h) (merge_nil-Merged n v)
merge-Merged n n' (o ∷ os) v h =
    let (t, first, rest) = >>=-eq-done (apply n o) (λ t. merge t os) n' h in
    let a = apply-Applied n t o v first in
    merge_cons-Merged n t n' o os a (merge-Merged t n' os (Applied-Inv n t o v a) rest)

-- `Apply` of a valid operation succeeds unless another operation is known by its id.
apply_succeeds :
    (n : Node) (o : Operation)
    → is_invalid o ≡ false
    → ((e : Operation) → lookup (id o) n.applied ≡ some e → e ≡ o)
    → (t : Node) × (apply n o ≡ done t)
unfolding apply
apply_succeeds n o sound fits = elim (Option-cases (lookup (id o) n.applied)) [
  | inl absent ↦ (
    raise_state (record n { applied = insert (id o) o n.applied }) o,
    rw (sound, absent) (unfold apply_found in refl),
  )
  | inr (e, known) ↦ (
    n,
    rw (sound, known) (unfold apply_found in rw ((operation_beq_iff e o).1 (fits e known)) refl),
  )
]

-- Where every operation of the list, and every one known, is the only one that an outcome `target`
-- has under its id, `Merge` succeeds.
pub merge_succeeds :
    (target : String → Option Operation) (n : Node) (os : List Operation)
    → Inv n
    → ((o : Operation) → Memᴰ o os → (target (id o) ≡ some o) × (is_invalid o ≡ false))
    → ((k : String) (o : Operation) → lookup k n.applied ≡ some o → target k ≡ some o)
    → (n' : Node) × (merge n os ≡ done n')
unfolding merge
merge_succeeds target n [] v listed known = (n, refl)
merge_succeeds target n (o ∷ os) v listed known =
    let here = listed o (Memᴰ.head refl) in
    let (t, first) = apply_succeeds n o here.1 (λ e h. cc (here.0, known (id o) e h)) in
    let a = apply-Applied n t o v first in
    let (n', rest) =
      merge_succeeds target t os (Applied-Inv n t o v a) (λ x m. listed x (Memᴰ.tail m))
        (λ k x h. ground (arith, a.lookups k, eq_iff (id o) k, known k x, here.0)) in
    (n', rw first rest)
