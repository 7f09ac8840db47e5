-- ===== src/Prelude/Maps.antt =====
-- Go maps with string keys, and tables with a text primary key: lists of entries.
use Prim.Native.Nat.{◌≤◌, ◌<◌}
use Prim.Native.String.{String}
use mathlib.Core.Path.{◌≡◌, refl}
use mathlib.Core.Logic.{◌≢◌}
use mathlib.Core.Option.{Option, none, some}
use mathlib.Core.List.{List, [], ◌∷◌}
use native.Mathlib.Omega.{arith}
use text.Mathlib.TextEquality.{eq_iff}
use tintwire.Prelude.Lists.{length}
use tintwire.Prelude.Tests.{◌==◌, string_eq, if◌then◌else◌}

module _ {ℓ} {V : Type ℓ} where
  unfoldable pub lookup : String → List (String × V) → Option V
  lookup key [] = none
  lookup key (entry ∷ entries) =
      let later = lookup key entries in if entry.0 == key then some entry.1 else later

  -- `m[key] = value`: the entry of the key is replaced where it stands, or a new one is added last.
  unfoldable pub insert : String → V → List (String × V) → List (String × V)
  insert key value [] = (key, value) ∷ []
  insert key value (entry ∷ entries) =
      let tail = insert key value entries in
      if entry.0 == key then (key, value) ∷ entries else entry ∷ tail

  -- Go's `delete`, and a row deleted by its key.
  unfoldable pub without : String → List (String × V) → List (String × V)
  without key [] = []
  without key (entry ∷ entries) =
      let kept = without key entries in if entry.0 == key then kept else entry ∷ kept

module _ {ℓ} {V : Type ℓ} where
  pub lookup-insert :
      (key wanted : String) (value : V) (entries : List (String × V))
      → lookup wanted (insert key value entries)
        ≡ (if key == wanted then some value else lookup wanted entries)
  unfolding insert lookup
  lookup-insert key wanted value [] = refl
  lookup-insert key wanted value (entry ∷ entries) =
      let later = lookup-insert key wanted value entries in
      ground (arith, later, eq_iff entry.0 key, eq_iff entry.0 wanted, eq_iff key wanted)

  pub lookup-without :
      (key wanted : String) (entries : List (String × V))
      → lookup wanted (without key entries)
        ≡ (if key == wanted then none else lookup wanted entries)
  unfolding without lookup
  lookup-without key wanted [] = ground arith
  lookup-without key wanted (entry ∷ entries) =
      let later = lookup-without key wanted entries in
      ground (arith, later, eq_iff entry.0 key, eq_iff entry.0 wanted, eq_iff key wanted)

  length-without-le :
      (key : String) (entries : List (String × V)) → length (without key entries) ≤ length entries
  unfolding without
  length-without-le key [] = omega arith
  length-without-le key (entry ∷ entries) = ground (arith, length-without-le key entries)

  pub length-without-lt :
      (key : String) (entries : List (String × V))
      → lookup key entries ≢ none
      → length (without key entries) < length entries
  unfolding without lookup
  length-without-lt key [] found = absurd (found refl)
  length-without-lt key (entry ∷ entries) found =
      ground (arith, length-without-le key entries, length-without-lt key entries)
