-- ===== src/Prelude/Table.antt =====
-- Tables of a SQL database: lists of rows, and the statements that read and change them.
use Prim.Native.Nat.{ℕ, suc, ◌≤◌, ◌<◌}
use native.Mathlib.Omega.{arith}
use tintwire.Prelude.Lists.{length}
use Prim.Native.String.{String}
use mathlib.Core.Path.{◌≡◌, refl, sym, ap, ◌∙◌}
use mathlib.Core.Logic.{◌⊎◌, inl, inr}
use mathlib.Core.Bool.{Bool, true, false, ◌||◌}
use mathlib.Core.Option
use mathlib.Core.Option.{Option, none, some}
use mathlib.Core.List.{List, [], ◌∷◌, Memᴰ}
use mathlib.Core.List.Memᴰ
use text.Mathlib.TextEquality.{eq_iff}
use tintwire.Prelude.Tests.{◌==◌, string_eq, if◌then◌else◌, Bool-cases}

module _ {ℓ} {R : Type ℓ} where
  -- `SELECT EXISTS(SELECT 1 FROM rows WHERE p)`
  abbrev pub any_row : (R → Bool) → List R → Bool
  any_row p [] = false
  any_row p (r ∷ rs) = p r || any_row p rs

  -- `UPDATE rows SET f WHERE p`
  abbrev pub update_where : (R → Bool) → (R → R) → List R → List R
  update_where p f [] = []
  update_where p f (r ∷ rs) = (if p r then f r else r) ∷ update_where p f rs

  -- the number of rows affected by a statement `WHERE p`
  abbrev pub count_where : (R → Bool) → List R → ℕ
  count_where p [] = 0
  count_where p (r ∷ rs) = let n = count_where p rs in if p r then suc n else n

  -- `DELETE FROM rows WHERE p`
  abbrev pub delete_where : (R → Bool) → List R → List R
  delete_where p [] = []
  delete_where p (r ∷ rs) = let kept = delete_where p rs in if p r then kept else r ∷ kept

  -- the first row with `p`
  abbrev pub select_where : (R → Bool) → List R → Option R
  select_where p [] = none
  select_where p (r ∷ rs) = if p r then some r else select_where p rs

  abbrev pub earlier : (R → R → Bool) → R → Option R → R
  earlier before r none = r
  earlier before r (some s) = if before s r then s else r

  -- `SELECT … WHERE p ORDER BY … LIMIT 1`, where `before` is the strict order
  abbrev pub select_least : (R → R → Bool) → (R → Bool) → List R → Option R
  select_least before p [] = none
  select_least before p (r ∷ rs) =
      let rest = select_least before p rs in if p r then some (earlier before r rest) else rest

  pub select_where-holds :
      (p : R → Bool) (rs : List R) (r : R) → select_where p rs ≡ some r → p r ≡ true
  select_where-holds p [] r h = cc
  select_where-holds p (s ∷ rs) r h = elim (Bool-cases (p s)) [
    | inl holds ↦ cc (holds, rw holds at h)
    | inr fails ↦ select_where-holds p rs r (rw fails at h)
  ]

  pub select_where-mem :
      (p : R → Bool) (rs : List R) (r : R) → select_where p rs ≡ some r → Memᴰ r rs
  select_where-mem p [] r h = cc
  select_where-mem p (s ∷ rs) r h = elim (Bool-cases (p s)) [
    | inl holds ↦ Memᴰ.head (cc (rw holds at h))
    | inr fails ↦ Memᴰ.tail (select_where-mem p rs r (rw fails at h))
  ]

  pub any_row_of_mem :
      (p : R → Bool) (rs : List R) (r : R) → Memᴰ r rs → p r ≡ true → any_row p rs ≡ true
  any_row_of_mem p [] r m h = absurd (Memᴰ.not-nil m)
  any_row_of_mem p (s ∷ rs) r m h = elim (Memᴰ.cases_cons m) [
    | inl here ↦ rw (← here, h) refl
    | inr later ↦ elim (Bool-cases (p s)) [
      | inl holds ↦ rw holds refl
      | inr fails ↦ rw fails (any_row_of_mem p rs r later h)
    ]
  ]

  pub update_where_none :
      (p : R → Bool) (f : R → R) (rs : List R)
      → ((r : R) → Memᴰ r rs → p r ≡ false)
      → (update_where p f rs ≡ rs) × (count_where p rs ≡ 0)
  update_where_none p f [] none_match = (refl, refl)
  update_where_none p f (r ∷ rs) none_match =
      let rest = update_where_none p f rs (λ s m. none_match s (Memᴰ.tail m)) in
      rw (none_match r (Memᴰ.head refl)) (ap (λ l. r ∷ l) rest.0, rest.1)

  pub select_where-none :
      (p : R → Bool) (rs : List R) → ((r : R) → Memᴰ r rs → p r ≡ false) → select_where p rs ≡ none
  select_where-none p [] none_match = refl
  select_where-none p (r ∷ rs) none_match =
      rw (none_match r (Memᴰ.head refl))
        (select_where-none p rs (λ s m. none_match s (Memᴰ.tail m)))

  pub mem-delete_where :
      (p : R → Bool) (rs : List R) (r : R) → Memᴰ r (delete_where p rs) → Memᴰ r rs × (p r ≡ false)
  mem-delete_where p [] r m = absurd (Memᴰ.not-nil m)
  mem-delete_where p (s ∷ rs) r m = elim (Bool-cases (p s)) [
    | inl gone ↦ let (n, kept) = mem-delete_where p rs r (rw gone at m) in (Memᴰ.tail n, kept)
    | inr stays ↦ elim (Memᴰ.cases_cons (rw stays at m)) [
      | inl here ↦ (Memᴰ.head here, ap p here ∙ stays)
      | inr later ↦ let (n, kept) = mem-delete_where p rs r later in (Memᴰ.tail n, kept)
    ]
  ]

  pub any_row-delete_where :
      (p q : R → Bool) (rs : List R)
      → ((r : R) → q r ≡ true → p r ≡ false)
      → any_row q (delete_where p rs) ≡ any_row q rs
  any_row-delete_where p q [] apart = refl
  any_row-delete_where p q (r ∷ rs) apart =
      let later = any_row-delete_where p q rs apart in
      elim (Bool-cases (p r)) [
        | inr stays ↦ rw (stays, later) refl
        | inl gone ↦ elim (Bool-cases (q r)) [
          | inl wanted ↦ cc (gone, apart r wanted)
          | inr other ↦ rw (gone, other) later
        ]
      ]

  length-delete_where-le : (p : R → Bool) (rs : List R) → length (delete_where p rs) ≤ length rs
  length-delete_where-le p [] = omega arith
  length-delete_where-le p (r ∷ rs) = ground (arith, length-delete_where-le p rs)

  pub length-delete_where-lt :
      (p : R → Bool) (rs : List R) → any_row p rs ≡ true → length (delete_where p rs) < length rs
  length-delete_where-lt p [] h = cc h
  length-delete_where-lt p (r ∷ rs) h =
      ground (arith, length-delete_where-le p rs, length-delete_where-lt p rs)

  earlier-cases :
      (before : R → R → Bool) (s : R) (o : Option R) (r : R)
      → some (earlier before s o) ≡ some r
      → (r ≡ s) ⊎ (o ≡ some r)
  earlier-cases before s none r h = inl (cc)
  earlier-cases before s (some t) r h = elim (Bool-cases (before t s)) [
    | inl first ↦ inr (rw first at h)
    | inr second ↦ inl (cc (rw second at h))
  ]

  pub select_least-holds :
      (before : R → R → Bool) (p : R → Bool) (rs : List R) (r : R)
      → select_least before p rs ≡ some r
      → (p r ≡ true) × Memᴰ r rs
  select_least-holds before p [] r h = cc
  select_least-holds before p (s ∷ rs) r h = elim (Bool-cases (p s)) [
    | inl holds ↦ elim (earlier-cases before s (select_least before p rs) r (rw holds at h)) [
      | inl here ↦ (cc (here, holds), Memᴰ.head here)
      | inr later ↦
          let (true_at, m) = select_least-holds before p rs r later in (true_at, Memᴰ.tail m)
    ]
    | inr fails ↦
        let (true_at, m) = select_least-holds before p rs r (rw fails at h) in
        (true_at, Memᴰ.tail m)
  ]

  -- A condition that an update leaves alone selects the updated row.
  pub select_where-update_where :
      (p q : R → Bool) (f : R → R) (rs : List R)
      → ((r : R) → p (f r) ≡ p r)
      → select_where p (update_where q f rs)
        ≡ Option.map (λ r. if q r then f r else r) (select_where p rs)
  select_where-update_where p q f [] same = refl
  select_where-update_where p q f (r ∷ rs) same =
      let later = select_where-update_where p q f rs same in
      elim (Bool-cases (q r)) [
        | inl changed ↦ elim (Bool-cases (p r)) [
          | inl here ↦ rw (changed, same r, here, changed) refl
          | inr there ↦ rw (changed, same r, there) later
        ]
        | inr left ↦ elim (Bool-cases (p r)) [
          | inl here ↦ rw (left, here, left) refl
          | inr there ↦ rw (left, there) later
        ]
      ]

  pub length-update_where :
      (p : R → Bool) (f : R → R) (rs : List R) → length (update_where p f rs) ≡ length rs
  length-update_where p f [] = refl
  length-update_where p f (r ∷ rs) = ap suc (length-update_where p f rs)

  pub mem-update_where :
      (p : R → Bool) (f : R → R) (rs : List R) (r : R)
      → Memᴰ r (update_where p f rs)
      → (s : R) × Memᴰ s rs × (r ≡ (if p s then f s else s))
  mem-update_where p f [] r m = absurd (Memᴰ.not-nil m)
  mem-update_where p f (t ∷ rs) r m = elim (Memᴰ.cases_cons m) [
    | inl here ↦ (t, Memᴰ.head refl, here)
    | inr later ↦ let (s, n, e) = mem-update_where p f rs r later in (s, Memᴰ.tail n, e)
  ]

-- Rows with a text primary key.
module _ {ℓ} {R : Type ℓ} (key : R → String) where
  abbrev pub find_row : String → List R → Option R
  find_row k rs = select_where (λ r. key r == k) rs

  -- No two rows have one key: each row is the one found by it.
  abbrev pub IsKeyed : List R → Type ℓ
  IsKeyed rs = (r : R) → Memᴰ r rs → find_row (key r) rs ≡ some r

  pub key_kept :
      (p : R → Bool) (f : R → R) (r : R)
      → ((r : R) → key (f r) ≡ key r)
      → key (if p r then f r else r) ≡ key r
  key_kept p f r same = elim (Bool-cases (p r)) [
    | inl changed ↦ rw changed (same r)
    | inr left ↦ rw left refl
  ]

  pub find_row-update_where :
      (p : R → Bool) (f : R → R) (rs : List R) (k : String)
      → ((r : R) → key (f r) ≡ key r)
      → find_row k (update_where p f rs) ≡ Option.map (λ r. if p r then f r else r) (find_row k rs)
  find_row-update_where p f [] k same = refl
  find_row-update_where p f (r ∷ rs) k same =
      rw (key_kept p f r same) (elim (Bool-cases (key r == k)) [
        | inl here ↦ rw here refl
        | inr there ↦ rw there (find_row-update_where p f rs k same)
      ])

  -- An update that leaves the key alone keeps a table keyed.
  pub update_where-IsKeyed :
      (p : R → Bool) (f : R → R) (rs : List R)
      → ((r : R) → key (f r) ≡ key r)
      → IsKeyed rs
      → IsKeyed (update_where p f rs)
  update_where-IsKeyed p f rs same keyed r m =
      let (s, n, e) = mem-update_where p f rs r m in
      let kept : key r ≡ key s = ap key e ∙ key_kept p f s same in
      rw (kept, find_row-update_where p f rs (key s) same, keyed s n) (ap some (sym e))

  -- Once the row of a key is deleted, the key has no row.
  pub find_row-delete_where :
      (p : R → Bool) (rs : List R) (k : String) (r : R)
      → IsKeyed rs
      → find_row k rs ≡ some r
      → p r ≡ true
      → find_row k (delete_where p rs) ≡ none
  find_row-delete_where p rs k r keyed found gone =
      select_where-none (λ s. key s == k) (delete_where p rs)
        λ s m.
          let (n, stays) = mem-delete_where p rs s m in
          elim (Bool-cases (key s == k)) [
            | inl here ↦
                let same : key s ≡ k = (eq_iff _ _).0 here in
                let one : some s ≡ some r =
                  sym (keyed s n) ∙ ap (λ j. find_row j rs) same ∙ found in
                cc (one, stays, gone)
            | inr there ↦ there
          ]
