-- ===== src/Prelude/Text.antt =====
-- Go's text functions over native strings. A text is valid UTF-8.
use Prim.Native.Char.{Char, code}
use Prim.Native.String.{String, [], ◌∷◌, ◌++◌, compare, then as and_then}
use Prim.Native.String.compare
use Prim.Native.String.append
use mathlib.Core.Path.{◌≡◌, refl, sym, ap, ap₂, ◌∙◌}
use native.Mathlib.Omega.{arith}
use text.Mathlib.TextEquality.{path_by_compare}
use Prim.Native.Nat.{ℕ, ◌+◌, Ordering, compare as compare_ℕ}
use mathlib.Core.Bool.{true, false, Bool, ◌&&◌, ◌||◌}
use text.Mathlib.Text.{is_lt}
use tintwire.Prelude.Tests.{ltb, leb, nat_beq, if◌then◌else◌}

-- Go's `<` on strings compares their bytes, which orders UTF-8 as its code points.
abbrev pub str_ltb : String → String → Bool
str_ltb a b = is_lt (compare a b)

-- `unicode.IsSpace`
abbrev pub is_space : Char → Bool
is_space c =
    let n = code c in
    leb 0x09 n && leb n 0x0d
    || nat_beq n 0x20
    || nat_beq n 0x85
    || nat_beq n 0xa0
    || nat_beq n 0x1680
    || leb 0x2000 n && leb n 0x200a
    || nat_beq n 0x2028
    || nat_beq n 0x2029
    || nat_beq n 0x202f
    || nat_beq n 0x205f
    || nat_beq n 0x3000

unfoldable pub trim_left : String → String
trim_left [] = []
trim_left (c ∷ s) = let rest = trim_left s in if is_space c then rest else c ∷ s

abbrev pub cons_unless_blank : Char → String → String
cons_unless_blank c [] = if is_space c then [] else c ∷ []
cons_unless_blank c (d ∷ s) = c ∷ (d ∷ s)

unfoldable pub trim_right : String → String
trim_right [] = []
trim_right (c ∷ s) = cons_unless_blank c (trim_right s)

-- `strings.TrimSpace`
unfoldable pub trim_space : String → String
unfolding trim_left trim_right
trim_space s = trim_left (trim_right s)

-- `utf8.RuneLen`
abbrev pub rune_length : Char → ℕ
rune_length c =
    let n = code c in
    if ltb n 0x80 then 1 else if ltb n 0x800 then 2 else if ltb n 0x10000 then 3 else 4

-- Go's `len` of a text
unfoldable pub byte_length : String → ℕ
byte_length [] = 0
byte_length (c ∷ s) = rune_length c + byte_length s

pub byte_length-append : (s t : String) → byte_length (s ++ t) ≡ byte_length s + byte_length t
unfolding byte_length
byte_length-append [] t = rw append.nil (omega arith)
byte_length-append (c ∷ s) t = rw append.cons (omega (arith, byte_length-append s t))

-- All characters of a text.
unfoldable pub all_chars : (Char → Bool) → String → Bool
all_chars p [] = true
all_chars p (c ∷ s) = p c && all_chars p s

pub all_chars-append :
    (p : Char → Bool) (s t : String) → all_chars p (s ++ t) ≡ (all_chars p s && all_chars p t)
unfolding all_chars
all_chars-append p [] t = rw append.nil refl
all_chars-append p (c ∷ s) t = rw (append.cons, all_chars-append p s t) (ground arith)

-- `compare` the other way round.
abbrev flip : Ordering → Ordering
flip Ordering.lt = Ordering.gt
flip Ordering.eq = Ordering.eq
flip Ordering.gt = Ordering.lt

flip-compare_ℕ : (m n : ℕ) → compare_ℕ n m ≡ flip (compare_ℕ m n)
flip-compare_ℕ m n = ground arith

flip-then : (a b : Ordering) → flip (and_then a b) ≡ and_then (flip a) (flip b)
flip-then Ordering.lt b = refl
flip-then Ordering.eq b = refl
flip-then Ordering.gt b = refl

flip-compare : (s t : String) → compare t s ≡ flip (compare s t)
flip-compare [] [] = refl
flip-compare [] (d ∷ t) = compare.cons-nil d t ∙ sym (ap flip (compare.nil-cons d t))
flip-compare (c ∷ s) [] = compare.nil-cons c s ∙ sym (ap flip (compare.cons-nil c s))
flip-compare (c ∷ s) (d ∷ t) =
    compare.cons-cons d c t s
    ∙ ap₂ and_then (flip-compare_ℕ (code c) (code d)) (flip-compare s t)
    ∙ sym (flip-then (compare_ℕ (code c) (code d)) (compare s t))
    ∙ sym (ap flip (compare.cons-cons c d s t))

pub str_ltb-asym : (s t : String) → str_ltb s t ≡ true → str_ltb t s ≡ false
str_ltb-asym s t h = rw (flip-compare s t) (ground arith)

pub str_ltb-total : (s t : String) → str_ltb s t ≡ false → str_ltb t s ≡ false → s ≡ t
str_ltb-total s t h k = path_by_compare s t (ground (arith, flip-compare s t))
