-- ===== src/Convergence/Ids.antt =====
-- internal/replication/model.go: `Operation.ID`, the text "<origin>:<sequence>".
use Prim.Native.Char.{Char, code}
use Prim.Native.String.{[], ◌∷◌, ◌++◌}
use Prim.Native.String.append
use text.Mathlib.TextLemmas.{cons-eq-cons}
use tintwire.Prelude.{
  ℕ, zero, suc, ◌+◌, ◌*◌, ◌-◌, ◌/◌, ◌%◌, ◌<◌, String, ◌≡◌, refl, sym, ap, ◌∙◌, Bool, true, false,
  arith, ◌||◌, ◌&&◌, ltb, leb, all_chars, all_chars-append, if◌then◌else◌, nat_beq, Bool-cases, inl,
  inr,
}

digit : ℕ → Char
digit zero = "0"
digit (suc zero) = "1"
digit (suc (suc zero)) = "2"
digit (suc (suc (suc zero))) = "3"
digit (suc (suc (suc (suc zero)))) = "4"
digit (suc (suc (suc (suc (suc zero))))) = "5"
digit (suc (suc (suc (suc (suc (suc zero)))))) = "6"
digit (suc (suc (suc (suc (suc (suc (suc zero))))))) = "7"
digit (suc (suc (suc (suc (suc (suc (suc (suc zero)))))))) = "8"
digit _ = "9"

-- Go's `%d`, on fuel; a number needs no more digits than itself and one.
decimal_on : ℕ → ℕ → String
unfolding digit
decimal_on zero n = []
decimal_on (suc fuel) n =
    let rest = decimal_on fuel (n / 10) in
    if ltb n 10 then digit n ∷ [] else rest ++ (digit (n % 10) ∷ [])

unfoldable pub decimal : ℕ → String
unfolding decimal_on
decimal n = decimal_on (suc n) n

unfoldable pub operation_id : String → ℕ → String
unfolding decimal
operation_id origin sequence = origin ++ (":" ∷ decimal sequence)

-- The number that a text of digits stands for, after the digits read so far.
value_from : ℕ → String → ℕ
value_from n [] = n
value_from n (c ∷ s) = value_from (n * 10 + (code c - 48)) s

value_from-append :
    (n : ℕ) (s : String) (c : Char)
    → value_from n (s ++ (c ∷ [])) ≡ value_from n s * 10 + (code c - 48)
unfolding value_from
value_from-append n [] c = rw append.nil refl
value_from-append n (d ∷ s) c = rw append.cons (value_from-append (n * 10 + (code d - 48)) s c)

value-digit : (n : ℕ) → n < 10 → code (digit n) - 48 ≡ n
unfolding digit
value-digit zero h = refl
value-digit (suc zero) h = refl
value-digit (suc (suc zero)) h = refl
value-digit (suc (suc (suc zero))) h = refl
value-digit (suc (suc (suc (suc zero)))) h = refl
value-digit (suc (suc (suc (suc (suc zero))))) h = refl
value-digit (suc (suc (suc (suc (suc (suc zero)))))) h = refl
value-digit (suc (suc (suc (suc (suc (suc (suc zero))))))) h = refl
value-digit (suc (suc (suc (suc (suc (suc (suc (suc zero)))))))) h = refl
value-digit (suc (suc (suc (suc (suc (suc (suc (suc (suc zero))))))))) h = refl
value-digit (suc (suc (suc (suc (suc (suc (suc (suc (suc (suc n)))))))))) h = absurd (omega arith)

value-decimal_on : (fuel n : ℕ) → n < fuel → value_from 0 (decimal_on fuel n) ≡ n
unfolding decimal_on value_from
value-decimal_on zero n h = elim h [ ]
value-decimal_on (suc fuel) n h = elim (Bool-cases (ltb n 10)) [
  | inl small ↦ rw small (omega (arith, value-digit n (ground arith)))
  | inr large ↦ rw large (
      value_from-append 0 (decimal_on fuel (n / 10)) (digit (n % 10))
      ∙ omega (
        arith,
        value-decimal_on fuel (n / 10) (ground arith),
        value-digit (n % 10) (omega arith),
      ))
]

-- Two numbers are printed alike only if they are the same.
pub decimal-injective : (m n : ℕ) → decimal m ≡ decimal n → m ≡ n
unfolding decimal
decimal-injective m n e =
    sym (value-decimal_on (suc m) m (omega arith))
    ∙ ap (value_from 0) e
    ∙ value-decimal_on (suc n) n (omega arith)

abbrev pub is_digit : Char → Bool
is_digit c = leb b'0' (code c) && leb (code c) b'9'

is_digit-digit : (n : ℕ) → is_digit (digit n) ≡ true
unfolding digit
is_digit-digit zero = refl
is_digit-digit (suc zero) = refl
is_digit-digit (suc (suc zero)) = refl
is_digit-digit (suc (suc (suc zero))) = refl
is_digit-digit (suc (suc (suc (suc zero)))) = refl
is_digit-digit (suc (suc (suc (suc (suc zero))))) = refl
is_digit-digit (suc (suc (suc (suc (suc (suc zero)))))) = refl
is_digit-digit (suc (suc (suc (suc (suc (suc (suc zero))))))) = refl
is_digit-digit (suc (suc (suc (suc (suc (suc (suc (suc zero)))))))) = refl
is_digit-digit (suc (suc (suc (suc (suc (suc (suc (suc (suc n))))))))) = refl

decimal_on-digits : (fuel n : ℕ) → all_chars is_digit (decimal_on fuel n) ≡ true
unfolding decimal_on
decimal_on-digits zero n = unfold all_chars in refl
decimal_on-digits (suc fuel) n = elim (Bool-cases (ltb n 10)) [
  | inl small ↦ rw small (unfold all_chars in rw (is_digit-digit n) refl)
  | inr large ↦
      rw (large, all_chars-append is_digit, decimal_on-digits fuel (n / 10))
        (unfold all_chars in rw (is_digit-digit (n % 10)) refl)
]

-- A printed number has only digits.
pub decimal-digits : (n : ℕ) → all_chars is_digit (decimal n) ≡ true
unfolding decimal
decimal-digits n = decimal_on-digits (suc n) n

has_colon : String → Bool
has_colon [] = false
has_colon (c ∷ s) = nat_beq (code c) 58 || has_colon s

has_colon-append : (s t : String) → has_colon (s ++ t) ≡ (has_colon s || has_colon t)
unfolding has_colon
has_colon-append [] t = rw append.nil refl
has_colon-append (c ∷ s) t = rw (append.cons, has_colon-append s t) (ground arith)

has_colon-digit : (n : ℕ) → has_colon (digit n ∷ []) ≡ false
unfolding has_colon digit
has_colon-digit zero = refl
has_colon-digit (suc zero) = refl
has_colon-digit (suc (suc zero)) = refl
has_colon-digit (suc (suc (suc zero))) = refl
has_colon-digit (suc (suc (suc (suc zero)))) = refl
has_colon-digit (suc (suc (suc (suc (suc zero))))) = refl
has_colon-digit (suc (suc (suc (suc (suc (suc zero)))))) = refl
has_colon-digit (suc (suc (suc (suc (suc (suc (suc zero))))))) = refl
has_colon-digit (suc (suc (suc (suc (suc (suc (suc (suc zero)))))))) = refl
has_colon-digit (suc (suc (suc (suc (suc (suc (suc (suc (suc n))))))))) = refl

has_colon-decimal_on : (fuel n : ℕ) → has_colon (decimal_on fuel n) ≡ false
unfolding decimal_on
has_colon-decimal_on zero n = unfold has_colon in refl
has_colon-decimal_on (suc fuel) n = elim (Bool-cases (ltb n 10)) [
  | inl small ↦ rw small (has_colon-digit n)
  | inr large ↦
      rw (large, has_colon-append, has_colon-decimal_on fuel (n / 10), has_colon-digit (n % 10))
        refl
]

no_colon : (n : ℕ) → has_colon (decimal n) ≡ false
unfolding decimal
no_colon n = has_colon-decimal_on (suc n) n

tail_has_colon : (s t : String) → has_colon (s ++ (":" ∷ t)) ≡ true
tail_has_colon s t = rw has_colon-append (unfold has_colon in ground arith)

-- The last colon of an id ends its origin.
split_unique :
    (s s' t t' : String)
    → has_colon t ≡ false
    → has_colon t' ≡ false
    → s ++ (":" ∷ t) ≡ s' ++ (":" ∷ t')
    → (s ≡ s') × (t ≡ t')
split_unique [] [] t t' h h' e = (refl, (cons-eq-cons.0 (sym (append.nil _) ∙ e ∙ append.nil _)).1)
split_unique [] (c ∷ s') t t' h h' e =
    let tails = (cons-eq-cons.0 (sym (append.nil _) ∙ e ∙ append.cons c s' _)).1 in
    cc (h, ap has_colon tails, tail_has_colon s' t')
split_unique (c ∷ s) [] t t' h h' e =
    let tails = (cons-eq-cons.0 (sym (append.cons c s _) ∙ e ∙ append.nil _)).1 in
    cc (h', ap has_colon tails, tail_has_colon s t)
split_unique (c ∷ s) (c' ∷ s') t t' h h' e =
    let both = cons-eq-cons.0 (sym (append.cons c s _) ∙ e ∙ append.cons c' s' _) in
    let rest = split_unique s s' t t' h h' both.1 in (cc (both.0, rest.0), rest.1)

-- An operation's id names its origin and its sequence, whatever text the origin is.
pub operation_id-injective :
    (o o' : String) (m n : ℕ) → operation_id o m ≡ operation_id o' n → (o ≡ o') × (m ≡ n)
unfolding operation_id
operation_id-injective o o' m n e =
    let parts = split_unique o o' (decimal m) (decimal n) (no_colon m) (no_colon n) e in
    (parts.0, decimal-injective m n parts.1)
