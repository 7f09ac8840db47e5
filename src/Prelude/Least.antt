-- ===== src/Prelude/Least.antt =====
-- What `ORDER BY … LIMIT 1` selects: no selected row comes before it.
use Prim.Native.String.{String, [], ◌∷◌}
use Prim.Native.String.compare
use mathlib.Core.Path.{◌≡◌, refl, ap}
use mathlib.Core.Logic.{inl, inr}
use mathlib.Core.Bool.{Bool, true, false}
use mathlib.Core.Option.{none, some}
use mathlib.Core.List.{List, Memᴰ}
use mathlib.Core.List.Memᴰ
use native.Mathlib.Omega.{arith}
use tintwire.Prelude.Tests.{Bool-cases, Option-cases}
use tintwire.Prelude.Table.{select_least, earlier}
use tintwire.Prelude.Text.{str_ltb}

pub str_ltb-cotrans :
    (s t u : String) → str_ltb s t ≡ false → str_ltb t u ≡ false → str_ltb s u ≡ false
str_ltb-cotrans [] t [] h k = refl
str_ltb-cotrans (c ∷ s) t [] h k = rw (compare.cons-nil c s) refl
str_ltb-cotrans [] [] (e ∷ u) h k = k
str_ltb-cotrans [] (d ∷ t) (e ∷ u) h k = cc (rw (compare.nil-cons d t) at h)
str_ltb-cotrans (c ∷ s) [] (e ∷ u) h k = cc (rw (compare.nil-cons e u) at k)
str_ltb-cotrans (c ∷ s) (d ∷ t) (e ∷ u) h k = rw (compare.cons-cons c e s u) (
    let h' = rw (compare.cons-cons c d s t) at h in
    let k' = rw (compare.cons-cons d e t u) at k in ground (arith, str_ltb-cotrans s t u))

-- `before` is a strict order of which no row comes between equals.
module _ {ℓ} {R : Type ℓ} (before : R → R → Bool)
    (strict : (r s : R) → before r s ≡ true → before s r ≡ false)
    (cotrans : (r s t : R) → before r s ≡ false → before s t ≡ false → before r t ≡ false) where
  not_before_self : (r : R) → before r r ≡ false
  not_before_self r = elim (Bool-cases (before r r)) [
    | inl first ↦ strict r r first
    | inr not_first ↦ not_first
  ]

  earlier-first :
      (r s : R)
      → (before r (earlier before r (some s)) ≡ false)
        × (before s (earlier before r (some s)) ≡ false)
  earlier-first r s = elim (Bool-cases (before s r)) [
    | inl first ↦ rw first (strict s r first, not_before_self s)
    | inr second ↦ rw second (not_before_self r, second)
  ]

  pub select_least-none :
      (p : R → Bool) (rs : List R)
      → select_least before p rs ≡ none
      → (s : R) → Memᴰ s rs
      → p s ≡ false
  select_least-none p List.[] e s m = absurd (Memᴰ.not-nil m)
  select_least-none p (List.◌∷◌ r rs) e s m = elim (Bool-cases (p r)) [
    | inl holds ↦ cc (rw holds at e)
    | inr fails ↦ elim (Memᴰ.cases_cons m) [
      | inl here ↦ rw here fails
      | inr later ↦ select_least-none p rs (rw fails at e) s later
    ]
  ]

  pub select_least-first :
      (p : R → Bool) (rs : List R) (r : R)
      → select_least before p rs ≡ some r
      → (s : R) → Memᴰ s rs
      → p s ≡ true
      → before s r ≡ false
  select_least-first p List.[] r e s m h = absurd (Memᴰ.not-nil m)
  select_least-first p (List.◌∷◌ t rs) r e s m h = elim (Bool-cases (p t)) [
    | inr fails ↦ elim (Memᴰ.cases_cons m) [
      | inl here ↦ cc (ap p here, fails, h)
      | inr later ↦ select_least-first p rs r (rw fails at e) s later h
    ]
    | inl holds ↦ elim (Option-cases (select_least before p rs)) [
      | inl empty ↦ elim (Memᴰ.cases_cons m) [
        | inl here ↦
            let same : t ≡ r = cc (rw (holds, empty) at e) in rw (← same, here) (not_before_self t)
        | inr later ↦ cc (select_least-none p rs empty s later, h)
      ]
      | inr (u, found) ↦
          let chosen : earlier before t (some u) ≡ r = cc (rw (holds, found) at e) in
          let (first, second) = earlier-first t u in
          rw (← chosen) (elim (Memᴰ.cases_cons m) [
            | inl here ↦ rw here first
            | inr later ↦ cotrans s u _ (select_least-first p rs u found s later h) second
          ])
    ]
  ]
