-- ===== src/Convergence/Cursor.antt =====
-- `(*Node).Cursor` of internal/replication/model.go: the end of an origin's contiguous range.
use tintwire.Prelude.{
  ℕ, zero, suc, ◌+◌, ◌≤◌, ◌<◌, String, ◌≡◌, ◌≢◌, refl, none, some, List, arith, eq_iff, lookup,
  without, lookup-without, length-without-lt, length, ◌==◌, string_eq, inl, inr, Option-cases,
  Bool-cases, true, ap, ltb,
}
use tintwire.Convergence.Ids.{operation_id, operation_id-injective}
use tintwire.Convergence.Node.{Operation, Node, cursor, cursor_from}

-- The first `c` operations of an origin are all in the map.
abbrev pub HasRange : String → ℕ → List (String × Operation) → Type 0
HasRange origin c m = (i : ℕ) → i < c → lookup (operation_id origin (i + 1)) m ≢ none

other_id :
    (origin : String) (i c : ℕ)
    → i < c
    → (operation_id origin (c + 1) == operation_id origin (i + 1)) ≢ true
other_id origin i c h e =
    omega (arith, (operation_id-injective origin origin (c + 1) (i + 1) ((eq_iff _ _).0 e)).1)

-- A map that has the first `c` operations of an origin has at least `c` entries.
range_fits :
    (origin : String) (c : ℕ) (m : List (String × Operation)) → HasRange origin c m → c ≤ length m
range_fits origin zero m h = omega arith
range_fits origin (suc c) m h =
    let smaller = range_fits origin c (without (operation_id origin (c + 1)) m) (λ i lt e.
      h i (omega arith) (
        ground (
          arith,
          lookup-without (operation_id origin (c + 1)) (operation_id origin (i + 1)) m,
          other_id origin i c lt,
        ))) in
    omega (arith, smaller, length-without-lt (operation_id origin (c + 1)) m (h c (omega arith)))

-- `c` is the end of the range: everything up to it is known, and the next operation is not.
pub record IsCursor (n : Node) (origin : String) (c : ℕ) : Type 0 where
  pub range : HasRange origin c n.applied
  pub next : lookup (operation_id origin (c + 1)) n.applied ≡ none

extend_range :
    (origin : String) (c : ℕ) (m : List (String × Operation)) (o : Operation)
    → HasRange origin c m
    → lookup (operation_id origin (c + 1)) m ≡ some o
    → HasRange origin (c + 1) m
extend_range origin c m o range known i lt e = elim (Bool-cases (ltb i c)) [
  | inl inside ↦ range i (ground arith) e
  | inr last ↦
      let same : i ≡ c = ground arith in
      cc (known, e, ap (λ (j : ℕ). lookup (operation_id origin (j + 1)) m) same)
]

cursor_from-IsCursor :
    (fuel : ℕ) (n : Node) (origin : String) (c : ℕ)
    → HasRange origin c n.applied
    → length n.applied < fuel + c
    → (r : ℕ) × (cursor_from fuel n origin c ≡ some r) × IsCursor n origin r
unfolding cursor_from
cursor_from-IsCursor zero n origin c range enough =
    absurd (omega (arith, range_fits origin c n.applied range))
cursor_from-IsCursor (suc fuel) n origin c range enough =
    elim (Option-cases (lookup (operation_id origin (c + 1)) n.applied)) [
      | inl absent ↦ (c, rw (absent, cursor_from) refl, record { range = range; next = absent })
      | inr (o, known) ↦
          let (r, e, found) =
            cursor_from-IsCursor fuel n origin (c + 1)
              (extend_range origin c n.applied o range known) (omega arith) in
          (r, rw (known, cursor_from) (unfold cursor_from in e), found)
    ]

IsCursor-unique :
    (n : Node) (origin : String) (c d : ℕ) → IsCursor n origin c → IsCursor n origin d → c ≡ d
IsCursor-unique n origin c d p q = elim (Bool-cases (ltb c d)) [
  | inl below ↦ absurd (q.range c (ground arith) p.next)
  | inr rest ↦ elim (Bool-cases (ltb d c)) [
    | inl above ↦ absurd (p.range d (ground arith) q.next)
    | inr equal ↦ ground arith
  ]
]

-- The loop of `Cursor` ends within its fuel, at the one number `c` such that the operations 1 to `c`
-- of the origin have been applied and operation `c + 1` has not.
pub cursor-IsCursor :
    (n : Node) (origin : String)
    → (c : ℕ) × (cursor n origin ≡ some c)
      × IsCursor n origin c
      × ((d : ℕ) → IsCursor n origin d → d ≡ c)
unfolding cursor
cursor-IsCursor n origin =
    let (c, e, found) =
      cursor_from-IsCursor (suc (length n.applied)) n origin 0 (λ i lt. elim lt [ ])
        (omega arith) in
    (c, e, found, λ d p. IsCursor-unique n origin d c p found)
