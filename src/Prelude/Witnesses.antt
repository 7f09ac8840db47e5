-- ===== src/Prelude/Witnesses.antt =====
-- Tables of a SQL database: the row that makes `EXISTS` or `COUNT(*)` true.
use Prim.Native.Nat.{◌<◌}
use native.Mathlib.Omega.{arith}
use mathlib.Core.Path.{◌≡◌, refl}
use mathlib.Core.Logic.{inl, inr}
use mathlib.Core.Bool.{Bool, true, false}
use mathlib.Core.Option.{some}
use mathlib.Core.List.{List, [], ◌∷◌, Memᴰ}
use mathlib.Core.List.Memᴰ
use tintwire.Prelude.Tests.{if◌then◌else◌, Bool-cases}
use tintwire.Prelude.Table.{any_row, select_where, update_where, delete_where, count_where}

module _ {ℓ} {R : Type ℓ} where
  pub mem-any_row :
      (p : R → Bool) (rs : List R) → any_row p rs ≡ true → (r : R) × Memᴰ r rs × (p r ≡ true)
  mem-any_row p [] h = cc
  mem-any_row p (r ∷ rs) h = elim (Bool-cases (p r)) [
    | inl holds ↦ (r, Memᴰ.head refl, holds)
    | inr fails ↦ let (s, m, holds) = mem-any_row p rs (rw fails at h) in (s, Memᴰ.tail m, holds)
  ]

  pub mem-count_where :
      (p : R → Bool) (rs : List R) → 0 < count_where p rs → (r : R) × Memᴰ r rs × (p r ≡ true)
  mem-count_where p [] h = absurd (omega arith)
  mem-count_where p (r ∷ rs) h = elim (Bool-cases (p r)) [
    | inl holds ↦ (r, Memᴰ.head refl, holds)
    | inr fails ↦
        let (s, m, holds) = mem-count_where p rs (rw fails at h) in (s, Memᴰ.tail m, holds)
  ]

  pub updated_mem :
      (p : R → Bool) (f : R → R) (rs : List R) (r : R)
      → Memᴰ r rs
      → Memᴰ (if p r then f r else r) (update_where p f rs)
  updated_mem p f [] r m = absurd (Memᴰ.not-nil m)
  updated_mem p f (s ∷ rs) r m = elim (Memᴰ.cases_cons m) [
    | inl here ↦ Memᴰ.head (rw here refl)
    | inr later ↦ Memᴰ.tail (updated_mem p f rs r later)
  ]

  pub any_row-deleted : (p : R → Bool) (rs : List R) → any_row p (delete_where p rs) ≡ false
  any_row-deleted p [] = refl
  any_row-deleted p (r ∷ rs) = elim (Bool-cases (p r)) [
    | inl gone ↦ rw gone (any_row-deleted p rs)
    | inr stays ↦ rw (stays, stays) (any_row-deleted p rs)
  ]

  -- A condition that no row meets, and none after an update.
  pub any_row-update_where :
      (p q : R → Bool) (f : R → R) (rs : List R)
      → ((r : R) → q r ≡ false → q (if p r then f r else r) ≡ false)
      → any_row q rs ≡ false
      → any_row q (update_where p f rs) ≡ false
  any_row-update_where p q f [] unmet h = refl
  any_row-update_where p q f (r ∷ rs) unmet h = elim (Bool-cases (q r)) [
    | inl met ↦ cc (rw met at h)
    | inr before ↦ rw (unmet r before) (any_row-update_where p q f rs unmet (rw before at h))
  ]

  -- A condition that an update leaves alone.
  pub any_row-unchanged :
      (p q : R → Bool) (f : R → R) (rs : List R)
      → ((r : R) → q (if p r then f r else r) ≡ q r)
      → any_row q (update_where p f rs) ≡ any_row q rs
  any_row-unchanged p q f [] same = refl
  any_row-unchanged p q f (r ∷ rs) same = rw (same r, any_row-unchanged p q f rs same) refl

  -- A condition that every updated row fails.
  pub any_row-cleared :
      (p q : R → Bool) (f : R → R) (rs : List R)
      → ((r : R) → q (if p r then f r else r) ≡ false)
      → any_row q (update_where p f rs) ≡ false
  any_row-cleared p q f [] unmet = refl
  any_row-cleared p q f (r ∷ rs) unmet = rw (unmet r) (any_row-cleared p q f rs unmet)

  -- The selected row is selected still when other rows are deleted.
  pub select_where-delete_where :
      (p q : R → Bool) (rs : List R) (r : R)
      → select_where q rs ≡ some r
      → p r ≡ false
      → select_where q (delete_where p rs) ≡ some r
  select_where-delete_where p q [] r found kept = found
  select_where-delete_where p q (s ∷ rs) r found kept = elim (Bool-cases (q s)) [
    | inl here ↦
        let one : some s ≡ some r = rw here at found in
        let stays : p s ≡ false = cc (one, kept) in rw (stays, here) one
    | inr there ↦
        let rest = select_where-delete_where p q rs r (rw there at found) kept in
        elim (Bool-cases (p s)) [ inl gone ↦ rw gone rest | inr stays ↦ rw (stays, there) rest ]
  ]
