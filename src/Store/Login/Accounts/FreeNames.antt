-- ===== src/Store/Login/Accounts/FreeNames.antt =====
-- internal/store/store.go: the loop over the suffixes of a username ends.
use Prim.Native.String.{[], ◌∷◌, ◌++◌}
use text.Mathlib.TextLemmas.{cons-eq-cons, append_cancel_left, append-nil, nil≢cons}
use tintwire.Prelude.{
  ℕ, zero, suc, ◌+◌, ◌≤◌, ◌<◌, String, List, Bool, true, false, some, string_eq, nat_eq, ltb, ◌≡◌,
  refl, sym, ◌∙◌, any_row, delete_where, length, all_chars, all_chars-append, arith, eq_iff,
  Bool-cases, inl, inr, any_row-delete_where, length-delete_where-lt,
}
use tintwire.Store.Login.{Platform, Account, LoginDb}
use tintwire.Store.Login.Accounts.{is_plain, candidate, has_username, free_username, base_username}
use tintwire.Convergence.Ids.{decimal, decimal-injective, decimal-digits, is_digit}
use tintwire.Store.Login.Accounts.Usernames.{base-plain}

digits-plain : (s : String) → all_chars is_digit s ≡ true → all_chars is_plain s ≡ true
unfolding all_chars
digits-plain [] h = refl
digits-plain (c ∷ s) h = ground (arith, digits-plain s)

candidate-plain :
    (base : String) (i : ℕ)
    → all_chars is_plain base ≡ true
    → all_chars is_plain (candidate base i) ≡ true
unfolding candidate
candidate-plain base i h = elim (Bool-cases (ltb 0 i)) [
  | inl later ↦
      rw (later, all_chars-append is_plain base, h)
        (unfold all_chars in rw (digits-plain (decimal (i + 1)) (decimal-digits (i + 1))) refl)
  | inr first ↦ rw first h
]

candidate-suc :
    (base : String) (i : ℕ) → candidate base (suc i) ≡ base ++ ("-" ∷ decimal (suc i + 1))
unfolding candidate
candidate-suc base i = let later : ltb 0 (suc i) ≡ true = ground arith in rw later refl

candidate-zero : (base : String) → candidate base 0 ≡ base ++ []
unfolding candidate
candidate-zero base = sym (append-nil base)

candidate-injective : (base : String) (i j : ℕ) → candidate base i ≡ candidate base j → i ≡ j
candidate-injective base zero zero e = refl
candidate-injective base zero (suc j) e =
    absurd (
      nil≢cons
        (append_cancel_left base [] _ (sym (candidate-zero base) ∙ e ∙ candidate-suc base j)))
candidate-injective base (suc i) zero e = absurd (
    nil≢cons
      (append_cancel_left base [] _ (sym (candidate-zero base) ∙ sym e ∙ candidate-suc base i)))
candidate-injective base (suc i) (suc j) e =
    let tails =
      cons-eq-cons.0
        (append_cancel_left base _ _ (sym (candidate-suc base i) ∙ e ∙ candidate-suc base j)) in
    omega (arith, decimal-injective (suc i + 1) (suc j + 1) tails.1)

module _ (platform : Platform)
    (fold-injective : (s t : String)
      → all_chars is_plain s ≡ true
      → all_chars is_plain t ≡ true
      → platform.fold s ≡ platform.fold t
      → s ≡ t)
    (base : String) (plain : all_chars is_plain base ≡ true) where
  abbrev is_taken : ℕ → List Account → Bool
  is_taken i rows = any_row (has_username platform (candidate base i)) rows

  no_two_names :
      (i n : ℕ)
      → i < n
      → (u : Account) → has_username platform (candidate base i) u ≡ true
      → has_username platform (candidate base n) u ≡ false
  no_two_names i n lt u one = elim (Bool-cases (has_username platform (candidate base n) u)) [
    | inr other ↦ other
    | inl same ↦
        let folds : platform.fold (candidate base i) ≡ platform.fold (candidate base n) =
          sym ((eq_iff (platform.fold u.username) (platform.fold (candidate base i))).0 one)
          ∙ (eq_iff (platform.fold u.username) (platform.fold (candidate base n))).0 same in
        absurd (
          omega (
            arith,
            candidate-injective base i n (
                fold-injective _ _ (candidate-plain base i plain) (candidate-plain base n plain)
                  folds),
          ))
  ]

  -- As many accounts are needed to take the first `n` candidates.
  taken-le :
      (n : ℕ) (rows : List Account) → ((i : ℕ) → i < n → is_taken i rows ≡ true) → n ≤ length rows
  taken-le zero rows taken = omega arith
  taken-le (suc n) rows taken =
      let p = has_username platform (candidate base n) in
      let fewer = taken-le n (delete_where p rows) λ i lt.
        any_row-delete_where p (has_username platform (candidate base i)) rows (no_two_names i n lt)
        ∙ taken i (omega arith) in
      omega (arith, fewer, length-delete_where-lt p rows (taken n (omega arith)))

  one_more :
      (n : ℕ) (rows : List Account)
      → ((i : ℕ) → i < n → is_taken i rows ≡ true)
      → is_taken n rows ≡ true
      → (i : ℕ) → i < n + 1
      → is_taken i rows ≡ true
  one_more n rows taken last i lt = elim (Bool-cases (ltb i n)) [
    | inl below ↦ taken i (ground arith)
    | inr top ↦ let same : i ≡ n = ground arith in rw same last
  ]

  free_username_from :
      (fuel n : ℕ) (db : LoginDb)
      → ((i : ℕ) → i < n → is_taken i db.accounts ≡ true)
      → length db.accounts < fuel + n
      → (name : String) × (free_username platform fuel base n db ≡ some name)
        × (any_row (has_username platform name) db.accounts ≡ false)
  unfolding free_username
  free_username_from zero n db taken enough = absurd (omega (arith, taken-le n db.accounts taken))
  free_username_from (suc fuel) n db taken enough = elim (Bool-cases (is_taken n db.accounts)) [
    | inr free ↦ (candidate base n, rw free refl, free)
    | inl used ↦
        let (name, e, free) =
          free_username_from fuel (n + 1) db (one_more n db.accounts taken used) (omega arith) in
        (name, rw used e, free)
  ]

-- Where the database takes no two different texts of lower-case letters, digits, `-` and `_` for one
-- username, the loop over the suffixes ends within its fuel, with a username that no account has.
pub free_username-total :
    (platform : Platform)
    → ((s t : String)
        → all_chars is_plain s ≡ true
        → all_chars is_plain t ≡ true
        → platform.fold s ≡ platform.fold t
        → s ≡ t)
    → (preferred : String) (db : LoginDb)
    → (name : String) × (free_username platform
          (suc (length db.accounts))
          (base_username platform preferred)
          0
          db
        ≡ some name)
      × (any_row (has_username platform name) db.accounts ≡ false)
free_username-total platform fold-injective preferred db =
    free_username_from platform fold-injective (base_username platform preferred)
      (base-plain platform preferred) (suc (length db.accounts)) 0 db (λ i lt. elim lt [ ])
      (omega arith)
