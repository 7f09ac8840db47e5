-- ===== src/Convergence/Snapshot.antt =====
-- `Snapshot` of internal/replication/model.go: the applied operations in the order of their origins and numbers,
-- from which a new node is brought to the same states.
use mathlib.Core.List.Memᴰ
use tintwire.Prelude.{
  ◌↔◌, String, ◌≡◌, sym, ◌⊎◌, Bool, true, false, List, [], ◌∷◌, ◌==◌, string_eq, ltb, if◌then◌else◌,
  str_ltb, str_ltb-asym, arith, eq_iff, Memᴰ, Bool-cases, inl, inr,
}
use tintwire.Convergence.Node.{Operation, Node}

-- the values of a map, in the order of its iteration
unfoldable pub operations_of : List (String × Operation) → List Operation
operations_of [] = []
operations_of (entry ∷ entries) = entry.1 ∷ operations_of entries

-- the order of `sort.Slice`
abbrev pub precedes : Operation → Operation → Bool
precedes a b = if a.origin == b.origin then ltb a.sequence b.sequence else str_ltb a.origin b.origin

unfoldable pub insert_sorted : Operation → List Operation → List Operation
insert_sorted o [] = o ∷ []
insert_sorted o (x ∷ xs) =
    let rest = insert_sorted o xs in if precedes o x then o ∷ (x ∷ xs) else x ∷ rest

unfoldable pub sort : List Operation → List Operation
sort [] = []
sort (o ∷ os) = insert_sorted o (sort os)

-- `(*Node).Snapshot`
unfoldable pub snapshot : Node → List Operation
snapshot n = sort (operations_of n.applied)

-- No operation stands after one that it comes before.
abbrev pub IsSorted : List Operation → Type 0
IsSorted [] = Unit
IsSorted (a ∷ []) = Unit
IsSorted (a ∷ (b ∷ os)) = (precedes b a ≡ false) × IsSorted (b ∷ os)

precedes-asym : (a b : Operation) → precedes a b ≡ true → precedes b a ≡ false
precedes-asym a b h = elim (Bool-cases (a.origin == b.origin)) [
  | inl same ↦
      let back : (b.origin == a.origin) ≡ true =
        (eq_iff _ _).1 (sym ((eq_iff a.origin b.origin).0 same)) in
      ground (arith, same, back)
  | inr apart ↦
      let back : (b.origin == a.origin) ≡ false = elim (Bool-cases (b.origin == a.origin)) [
        | inl same ↦
            let forth : (a.origin == b.origin) ≡ true =
              (eq_iff _ _).1 (sym ((eq_iff b.origin a.origin).0 same)) in
            cc (forth, apart)
        | inr away ↦ away
      ] in
      rw back (str_ltb-asym a.origin b.origin (rw apart at h))
]

-- `x` before the insertion of `o`
insert-after :
    (x o : Operation) (xs : List Operation)
    → precedes o x ≡ false
    → IsSorted (x ∷ xs)
    → IsSorted (insert_sorted o xs)
    → IsSorted (x ∷ insert_sorted o xs)
unfolding insert_sorted
insert-after x o [] h s t = (h, tt)
insert-after x o (y ∷ ys) h s t = elim (Bool-cases (precedes o y)) [
  | inl first ↦ rw first (h, rw first at t)
  | inr later ↦ rw later (s.0, rw later at t)
]

tail-IsSorted : (x : Operation) (xs : List Operation) → IsSorted (x ∷ xs) → IsSorted xs
tail-IsSorted x [] s = tt
tail-IsSorted x (y ∷ ys) s = s.1

insert_sorted-IsSorted :
    (o : Operation) (xs : List Operation) → IsSorted xs → IsSorted (insert_sorted o xs)
unfolding insert_sorted
insert_sorted-IsSorted o [] s = tt
insert_sorted-IsSorted o (x ∷ xs) s = elim (Bool-cases (precedes o x)) [
  | inl first ↦ rw first (precedes-asym o x first, s)
  | inr later ↦
      rw later (insert-after x o xs later s (insert_sorted-IsSorted o xs (tail-IsSorted x xs s)))
]

pub sort-IsSorted : (os : List Operation) → IsSorted (sort os)
unfolding sort
sort-IsSorted [] = tt
sort-IsSorted (o ∷ os) = insert_sorted-IsSorted o (sort os) (sort-IsSorted os)

mem-insert_sorted :
    (o x : Operation) (xs : List Operation) → Memᴰ x (insert_sorted o xs) ↔ ((x ≡ o) ⊎ Memᴰ x xs)
unfolding insert_sorted
mem-insert_sorted o x [] = (
  λ m. Memᴰ.cases_cons m,
  λ c. elim c [ inl here ↦ Memᴰ.head here | inr later ↦ Memᴰ.tail later ],
)
mem-insert_sorted o x (y ∷ ys) = elim (Bool-cases (precedes o y)) [
  | inl first ↦ rw first (
    λ m. Memᴰ.cases_cons m,
    λ c. elim c [ inl here ↦ Memᴰ.head here | inr later ↦ Memᴰ.tail later ],
  )
  | inr last ↦
      let rest = mem-insert_sorted o x ys in
      rw last (
        λ m. elim (Memᴰ.cases_cons m) [
          | inl here ↦ inr (Memᴰ.head here)
          | inr later ↦ elim (rest.0 later) [ inl new ↦ inl new | inr old ↦ inr (Memᴰ.tail old) ]
        ],
        λ c. elim c [
          | inl new ↦ Memᴰ.tail (rest.1 (inl new))
          | inr old ↦ elim (Memᴰ.cases_cons old) [
            | inl here ↦ Memᴰ.head here
            | inr later ↦ Memᴰ.tail (rest.1 (inr later))
          ]
        ],
      )
]

pub mem-sort : (x : Operation) (os : List Operation) → Memᴰ x (sort os) ↔ Memᴰ x os
unfolding sort
mem-sort x [] = (λ m. m, λ m. m)
mem-sort x (o ∷ os) =
    let insertion = mem-insert_sorted o x (sort os) in
    let rest = mem-sort x os in
    (
      λ m. elim (insertion.0 m) [
        | inl here ↦ Memᴰ.head here
        | inr later ↦ Memᴰ.tail (rest.0 later)
      ],
      λ m. elim (Memᴰ.cases_cons m) [
        | inl here ↦ insertion.1 (inl here)
        | inr later ↦ insertion.1 (inr (rest.1 later))
      ],
    )
