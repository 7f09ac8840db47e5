-- ===== src/Prelude/Upsert.antt =====
-- Tables with a primary key: `INSERT … ON CONFLICT DO UPDATE`.
use mathlib.Core.Path.{◌≡◌, refl, sym}
use mathlib.Core.Logic.{inl, inr}
use mathlib.Core.Bool.{true}
use mathlib.Core.Option
use mathlib.Core.Option.{Option, none, some}
use mathlib.Core.List.{List, [], ◌∷◌}
use tintwire.Prelude.Tests.{KeyType, ◌==◌, if◌then◌else◌, Bool-cases}

module _ {ℓ κ} {K : Type ℓ} ⦃keys : KeyType K⦄ {V : Type κ} where
  unfoldable pub find : K → List (K × V) → Option V
  find key [] = none
  find key (entry ∷ entries) =
      let later = find key entries in if entry.0 == key then some entry.1 else later

  -- `f` gives the new row from the one in conflict.
  unfoldable pub upsert : K → (Option V → V) → List (K × V) → List (K × V)
  upsert key f [] = (key, f none) ∷ []
  upsert key f (entry ∷ entries) =
      let tail = upsert key f entries in
      if entry.0 == key then (entry.0, f (some entry.1)) ∷ entries else entry ∷ tail

  -- an `UPDATE` of every row
  unfoldable pub update_all : (K → V → V) → List (K × V) → List (K × V)
  update_all g [] = []
  update_all g (entry ∷ entries) = (entry.0, g entry.0 entry.1) ∷ update_all g entries

module _ {ℓ} {K : Type ℓ} ⦃keys : KeyType K⦄ where
  same_key : (a b : K) → (a == b) ≡ true → a ≡ b
  same_key a b h = (keys.decides a b).0 h

module _ {ℓ κ} {K : Type ℓ} ⦃keys : KeyType K⦄ {V : Type κ} where
  pub find-upsert :
      (key wanted : K) (f : Option V → V) (entries : List (K × V))
      → find wanted (upsert key f entries)
        ≡ (if key == wanted then some (f (find key entries)) else find wanted entries)
  unfolding find upsert
  find-upsert key wanted f [] = refl
  find-upsert key wanted f (entry ∷ entries) = elim (Bool-cases (entry.0 == key)) [
    | inl here ↦ rw (here) (
        rw (← same_key entry.0 key here) (elim (Bool-cases (entry.0 == wanted)) [
          | inl found ↦ rw found refl
          | inr away ↦ rw away refl
        ]))
    | inr there ↦ rw there (elim (Bool-cases (entry.0 == wanted)) [
      | inl found ↦
          rw (found, ← same_key entry.0 wanted found)
            (elim (Bool-cases (key == entry.0)) [
              | inl back ↦
                  cc (there, (keys.decides entry.0 key).1 (sym (same_key key entry.0 back)))
              | inr apart ↦ rw apart refl
            ])
      | inr away ↦ rw away (find-upsert key wanted f entries)
    ])
  ]

  pub find-update_all :
      (g : K → V → V) (key : K) (entries : List (K × V))
      → find key (update_all g entries) ≡ Option.map (g key) (find key entries)
  unfolding find update_all
  find-update_all g key [] = refl
  find-update_all g key (entry ∷ entries) = elim (Bool-cases (entry.0 == key)) [
    | inl here ↦ rw (here, same_key entry.0 key here) refl
    | inr there ↦ rw there (find-update_all g key entries)
  ]
