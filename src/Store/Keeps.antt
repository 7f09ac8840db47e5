-- ===== src/Store/Keeps.antt =====
-- Properties of the database that an operation keeps, by one rule for each way to build it.
use tintwire.Prelude.{◌≡◌, refl, Bool, true, false, Option, none, some, if◌then◌else◌}
use tintwire.Store.Op.{
  Error, Result, ok, err, Op, pure, fail, then_run, ◌>>=◌, query, exec, require, require_some,
  or_rollback, transaction,
}

-- `m` keeps `P`, whether it returns a value or an error.
pub record Keeps {ℓ κ μ} {S : Type ℓ} {A : Type κ} (P : S → Type μ) (m : Op S A)
    : Type (ℓ ⊔ μ) where
  pub from : (s : S) → P s → P (m s).0

rolled_back {ℓ κ μ} :
    {S : Type ℓ} {A : Type κ} (P : S → Type μ) (s : S) (r : S × Result A)
    → P s
    → P r.0
    → P (or_rollback s r).0
rolled_back P s (t, ok a) h k = k
rolled_back P s (t, err e) h k = h

module _ {ℓ μ κ} {S : Type ℓ} {P : S → Type μ} {A : Type κ} where
  pub pure-Keeps : (a : A) → Keeps P (pure {S = S} a)
  unfolding pure
  pure-Keeps a = record { from = λ s h. h }

  pub fail-Keeps : (e : Error) → Keeps P (fail {S = S} {A = A} e)
  unfolding fail
  fail-Keeps e = record { from = λ s h. h }

  pub query-Keeps : (f : S → A) → Keeps P (query f)
  unfolding query
  query-Keeps f = record { from = λ s h. h }

  pub require_some-Keeps : (o : Option A) (e : Error) → Keeps P (require_some {S = S} o e)
  unfolding require_some
  require_some-Keeps none e = record { from = λ s h. h }
  require_some-Keeps (some a) e = record { from = λ s h. h }

  pub transaction-Keeps : (m : Op S A) → Keeps P m → Keeps P (transaction m)
  unfolding transaction
  transaction-Keeps m keeps = record { from = λ s h. rolled_back P s (m s) h (keeps.from s h) }

  pub branch-Keeps :
      (b : Bool) (m n : Op S A) → Keeps P m → Keeps P n → Keeps P (if b then m else n)
  branch-Keeps true m n left right = left
  branch-Keeps false m n left right = right

module _ {ℓ μ} {S : Type ℓ} {P : S → Type μ} where
  pub require-Keeps : (b : Bool) (e : Error) → Keeps P (require {S = S} b e)
  unfolding require
  require-Keeps true e = record { from = λ s h. h }
  require-Keeps false e = record { from = λ s h. h }

  pub exec-Keeps : (f : S → S) → ((s : S) → P s → P (f s)) → Keeps P (exec f)
  unfolding exec
  exec-Keeps f keeps = record { from = keeps }

then_run-keeps {ℓ κ ν μ} :
    {S : Type ℓ} {A : Type κ} {B : Type ν} (P : S → Type μ) (f : A → Op S B) (r : S × Result A)
    → ((a : A) → Keeps P (f a))
    → P r.0
    → P (then_run f r).0
then_run-keeps P f (s, ok a) rest h = (rest a).from s h
then_run-keeps P f (s, err e) rest h = h

module _ {ℓ μ κ ν} {S : Type ℓ} {P : S → Type μ} {A : Type κ} {B : Type ν} where
  pub bind-Keeps :
      (m : Op S A) (f : A → Op S B) → Keeps P m → ((a : A) → Keeps P (f a)) → Keeps P (m >>= f)
  unfolding ◌>>=◌
  bind-Keeps m f first rest = record {
    from = λ s h. then_run-keeps P f (m s) rest (first.from s h);
  }

module _ {ℓ μ κ ν} {S : Type ℓ} {P : S → Type μ} {A : Type κ} {B : Type ν} where
  -- What follows a query may use what the query has read.
  pub query_then-Keeps :
      (g : S → A) (f : A → Op S B) → ((s : S) → P s → P (f (g s) s).0) → Keeps P (query g >>= f)
  unfolding query ◌>>=◌
  query_then-Keeps g f rest = record { from = rest }

  -- What follows a `Scan` may use that the row was there.
  pub require_some_then-Keeps :
      (o : Option A) (e : Error) (f : A → Op S B)
      → ((a : A) → o ≡ some a → Keeps P (f a))
      → Keeps P (require_some o e >>= f)
  unfolding require_some ◌>>=◌
  require_some_then-Keeps none e f rest = record { from = λ s h. h }
  require_some_then-Keeps (some a) e f rest = rest a refl

-- The same at one database, for what follows a query.
module _ {ℓ μ ν} {S : Type ℓ} (P : S → Type μ) {B : Type ν} where
  pub require_then-kept :
      (b : Bool) (e : Error) (f : Unit {0} → Op S B) (s : S)
      → P s
      → (b ≡ true → P (f tt s).0)
      → P ((require b e >>= f) s).0
  unfolding require ◌>>=◌
  require_then-kept true e f s h rest = rest refl
  require_then-kept false e f s h rest = h

  pub exec_then-kept :
      (g : S → S) (f : Unit {0} → Op S B) (s : S) → P (f tt (g s)).0 → P ((exec g >>= f) s).0
  unfolding exec ◌>>=◌
  exec_then-kept g f s h = h

pub ruleset keeps_rules = (
  pure-Keeps, fail-Keeps, query-Keeps, require_some-Keeps, transaction-Keeps, require-Keeps,
  bind-Keeps,
)
