-- ===== src/Store/Attention/Quiet.antt =====
-- internal/store/workflows.go: what quiet hours mean in minutes of the day.
use Prim.Native.Char.{Char, code}
use Prim.Native.Nat.{Ordering, compare as compare_ℕ}
use Prim.Native.String.{[], ◌∷◌, then as and_then}
use text.Mathlib.Text.{is_lt}
use Prim.Native.String.compare
use tintwire.Prelude.{
  ℕ, ◌+◌, ◌-◌, ◌*◌, ◌%◌, ◌≤◌, ◌<◌, ◌≢◌, String, ◌≡◌, refl, ap, Bool, true, false, not, ◌&&◌, ◌==◌,
  string_eq, if◌then◌else◌, arith, eq_iff, Bool-cases, inl, inr, ltb, ltb→lt, ◌∙◌, ◌||◌, str_ltb,
  str_ltb-total,
}
use tintwire.Store.Attention.{AttentionPreferences, Clock, validate, quiet}

-- The text `v` is the time `minutes` after midnight in the form HH:MM.
pub record Reads (v : String) (minutes : ℕ) : Type 0 where
  pub a : Char
  pub b : Char
  pub c : Char
  pub d : Char
  pub text : v ≡ a ∷ (b ∷ (":" ∷ (c ∷ (d ∷ []))))
  pub hour_digits : (48 ≤ code a) × (48 ≤ code b) × (code b < 58)
  pub minute_digits : (48 ≤ code c) × (code c < 54) × (48 ≤ code d) × (code d < 58)
  pub value : minutes + 48 * 671 ≡ code a * 600 + code b * 60 + code c * 10 + code d
  pub of_day : minutes < 1440

-- One step of a comparison digit by digit.
compare-then :
    (x y : ℕ) (rest : Ordering) (m n : ℕ)
    → (x < y → m < n)
    → (y < x → n < m)
    → (x ≡ y → is_lt rest ≡ ltb m n)
    → is_lt (and_then (compare_ℕ x y) rest) ≡ ltb m n
compare-then x y rest m n below above same = elim (Bool-cases (ltb x y)) [
  | inl less ↦ let k : m < n = below (ltb→lt x y less) in ground arith
  | inr other ↦ elim (Bool-cases (ltb y x)) [
    | inl more ↦ let k : n < m = above (ltb→lt y x more) in ground arith
    | inr level ↦ let e : x ≡ y = ground arith in rw e (ground (arith, same e))
  ]
]

-- On times of this form Go's order of texts is that of the times.
pub str_ltb-Reads : (v w : String) (m n : ℕ) → Reads v m → Reads w n → str_ltb v w ≡ ltb m n
str_ltb-Reads v w m n x y =
    rw
      (
        x.text, y.text, compare.cons-cons, compare.cons-cons, compare.cons-cons, compare.cons-cons,
        compare.cons-cons,
      )
      (compare-then (code x.a) (code y.a) _ m n (λ h. omega arith) (λ h. omega arith)
        λ e.
          compare-then (code x.b) (code y.b) _ m n (λ h. omega arith) (λ h. omega arith)
            λ f.
              compare-then (code x.c) (code y.c) _ m n (λ h. omega arith) (λ h. omega arith)
                λ g.
                  compare-then (code x.d) (code y.d) _ m n (λ h. omega arith) (λ h. omega arith)
                    λ k. ground arith)

pub blank-Reads : (v : String) (m : ℕ) → Reads v m → (v == "") ≡ false
blank-Reads v m x = rw (x.text, compare.cons-nil) refl

interval :
    (start finish at : ℕ) (bypassed : Bool)
    → start ≢ finish
    → start < 1440
    → finish < 1440
    → at < 1440
    → (if bypassed
        then false
        else if ltb start finish
        then not (ltb at start) && ltb at finish
        else not (ltb at start) || ltb at finish)
      ≡ (not bypassed && ltb ((at + 1440 - start) % 1440) ((finish + 1440 - start) % 1440))
interval start finish at true apart s f t = refl
interval start finish at false apart s f t = ground arith

module _ (clock : Clock) (p : AttentionPreferences) (start finish at now : ℕ) (critical : Bool)
    (from : Reads p.quiet_start start) (to : Reads p.quiet_end finish)
    (time : Reads (clock.time_in p.timezone now) at) (valid : validate clock p ≡ true) where
  valid_parts : ((p.quiet_start == p.quiet_end) ≡ false) × (clock.loads p.timezone ≡ true)
  unfolding validate
  valid_parts = let b = blank-Reads p.quiet_start start from in ground arith

  hours_differ : start ≢ finish
  unfolding validate
  hours_differ e =
      let level : str_ltb p.quiet_start p.quiet_end ≡ false =
        str_ltb-Reads _ _ start finish from to ∙ ground arith in
      let level' : str_ltb p.quiet_end p.quiet_start ≡ false =
        str_ltb-Reads _ _ finish start to from ∙ ground arith in
      cc (
        ap (λ v. v == p.quiet_end) (str_ltb-total p.quiet_start p.quiet_end level level'),
        (eq_iff p.quiet_end p.quiet_end).1 refl,
        valid_parts.0,
      )

  -- For valid preferences whose hours, like the clock, have the form HH:MM, a time is quiet exactly if it is
  -- not the case that the alert is critical and passes quiet hours, and, in minutes round the clock
  -- from the start, the time comes before the end. So the start is quiet and the end is not.
  pub quiet_interval : quiet clock p now critical ≡ (
      not (critical && p.critical_bypass)
      && ltb ((at + 1440 - start) % 1440) ((finish + 1440 - start) % 1440))
  unfolding quiet
  quiet_interval =
      rw
        (
          blank-Reads p.quiet_start start from,
          valid_parts.1,
          str_ltb-Reads p.quiet_start p.quiet_end start finish from to,
          str_ltb-Reads (clock.time_in p.timezone now) p.quiet_start at start time from,
          str_ltb-Reads (clock.time_in p.timezone now) p.quiet_end at finish time to,
        )
        (interval start finish at (critical && p.critical_bypass) hours_differ from.of_day to.of_day
          time.of_day)
