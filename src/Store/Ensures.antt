-- ===== src/Store/Ensures.antt =====
-- What an operation that succeeds has established, by one rule for each way to build it.
use tintwire.Prelude.{◌≡◌, refl, Bool, true, false, Option, none, some}
use tintwire.Store.Op.{
  Error, Result, ok, err, Op, pure, fail, then_run, ◌>>=◌, query, exec, require, require_some,
  or_rollback, transaction,
}

-- If `m` succeeds on `s`, its result and the database it leaves satisfy `Q`.
pub record Ensures {ℓ κ μ} {S : Type ℓ} {A : Type κ} (Q : A → S → Type μ) (m : Op S A) (s : S)
    : Type (ℓ ⊔ κ ⊔ μ) where
  pub from : (a : A) → (m s).1 ≡ ok a → Q a (m s).0

then_run-ensures {ℓ κ ν μ} :
    {S : Type ℓ} {A : Type κ} {B : Type ν} (Q : B → S → Type μ) (f : A → Op S B) (r : S × Result A)
    → ((a : A) → r.1 ≡ ok a → Ensures Q (f a) r.0)
    → (b : B) → (then_run f r).1 ≡ ok b
    → Q b (then_run f r).0
then_run-ensures Q f (s, ok a) rest b e = (rest a refl).from b e
then_run-ensures Q f (s, err x) rest b e = cc

rolled_back-ensures {ℓ κ μ} :
    {S : Type ℓ} {A : Type κ} (Q : A → S → Type μ) (s : S) (r : S × Result A)
    → ((a : A) → r.1 ≡ ok a → Q a r.0)
    → (a : A) → (or_rollback s r).1 ≡ ok a
    → Q a (or_rollback s r).0
rolled_back-ensures Q s (t, ok a) h b e = h b e
rolled_back-ensures Q s (t, err x) h b e = cc

kept-or_rollback {ℓ κ μ} :
    {S : Type ℓ} {A : Type κ} (P : S → Type μ) (s : S) (r : S × Result A)
    → P s
    → ((a : A) → r.1 ≡ ok a → P r.0)
    → P (or_rollback s r).0
kept-or_rollback P s (t, ok a) before after = after a refl
kept-or_rollback P s (t, err x) before after = before

-- A property is kept by a transaction that establishes it if it commits.
pub transaction-kept {ℓ κ μ} :
    {S : Type ℓ} {A : Type κ} (P : S → Type μ) (m : Op S A) (s : S)
    → P s
    → Ensures (λ _ t. P t) m s
    → P (transaction m s).0
unfolding transaction
transaction-kept P m s before after = kept-or_rollback P s (m s) before after.from

module _ {ℓ κ μ} {S : Type ℓ} {A : Type κ} {Q : A → S → Type μ} where
  pub pure-Ensures : (a : A) (s : S) → Q a s → Ensures Q (pure a) s
  unfolding pure
  pure-Ensures a s h = record { from = λ b e. let same : a ≡ b = cc e in rw (← same) h }

  pub fail-Ensures : (x : Error) (s : S) → Ensures Q (fail x) s
  unfolding fail
  fail-Ensures x s = record { from = λ b e. cc e }

  pub transaction-Ensures : (m : Op S A) (s : S) → Ensures Q m s → Ensures Q (transaction m) s
  unfolding transaction
  transaction-Ensures m s h = record { from = rolled_back-ensures Q s (m s) h.from }

module _ {ℓ μ} {S : Type ℓ} {Q : Unit {0} → S → Type μ} where
  pub exec-Ensures : (f : S → S) (s : S) → Q tt (f s) → Ensures Q (exec f) s
  unfolding exec
  exec-Ensures f s h = record { from = λ b e. h }

  pub require-Ensures :
      (b : Bool) (x : Error) (s : S) → (b ≡ true → Q tt s) → Ensures Q (require b x) s
  unfolding require
  require-Ensures true x s h = record { from = λ b e. h refl }
  require-Ensures false x s h = record { from = λ b e. cc e }

module _ {ℓ κ μ} {S : Type ℓ} {B : Type κ} {Q : B → S → Type μ} where
  pub query-Ensures : (g : S → B) (s : S) → Q (g s) s → Ensures Q (query g) s
  unfolding query
  query-Ensures g s h = record { from = λ b e. let same : g s ≡ b = cc e in rw (← same) h }

module _ {ℓ κ μ ν} {S : Type ℓ} {A : Type κ} {B : Type ν} {Q : B → S → Type μ} where
  -- an operation whose own result is known
  pub bind-Ensures :
      (m : Op S A) (f : A → Op S B) (s : S)
      → ((a : A) → (m s).1 ≡ ok a → Ensures Q (f a) (m s).0)
      → Ensures Q (m >>= f) s
  unfolding ◌>>=◌
  bind-Ensures m f s rest = record { from = then_run-ensures Q f (m s) rest }

  -- an operation whose ensured condition is enough for what follows
  pub call-Ensures {ρ} :
      {P : A → S → Type ρ} (m : Op S A) (f : A → Op S B) (s : S)
      → Ensures P m s
      → ((a : A) (t : S) → P a t → Ensures Q (f a) t)
      → Ensures Q (m >>= f) s
  call-Ensures m f s first rest = bind-Ensures m f s λ a e. rest a (m s).0 (first.from a e)

  pub query_then-Ensures :
      (g : S → A) (f : A → Op S B) (s : S) → Ensures Q (f (g s)) s → Ensures Q (query g >>= f) s
  unfolding query ◌>>=◌
  query_then-Ensures g f s rest = record { from = rest.from }

  pub require_some_then-Ensures :
      (o : Option A) (x : Error) (f : A → Op S B) (s : S)
      → ((a : A) → o ≡ some a → Ensures Q (f a) s)
      → Ensures Q (require_some o x >>= f) s
  unfolding require_some ◌>>=◌
  require_some_then-Ensures none x f s rest = record { from = λ b e. cc e }
  require_some_then-Ensures (some a) x f s rest = record { from = (rest a refl).from }

module _ {ℓ μ ν} {S : Type ℓ} {B : Type ν} {Q : B → S → Type μ} where
  pub exec_then-Ensures :
      (g : S → S) (f : Unit {0} → Op S B) (s : S)
      → Ensures Q (f tt) (g s)
      → Ensures Q (exec g >>= f) s
  unfolding exec ◌>>=◌
  exec_then-Ensures g f s rest = record { from = rest.from }

  pub require_then-Ensures :
      (b : Bool) (x : Error) (f : Unit {0} → Op S B) (s : S)
      → (b ≡ true → Ensures Q (f tt) s)
      → Ensures Q (require b x >>= f) s
  unfolding require ◌>>=◌
  require_then-Ensures true x f s rest = record { from = (rest refl).from }
  require_then-Ensures false x f s rest = record { from = λ b e. cc e }
