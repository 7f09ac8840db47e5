-- ===== src/Store/Op.antt =====
-- internal/store: an operation of `*Store` reads and changes the database, and returns a value or
-- an error. A failing statement of the database itself (I/O, a closed connection, a cancelled context)
-- is not modelled.
use tintwire.Prelude.{Bool, true, false, Option, none, some}

-- The error values of the package, and `errors.New` texts, one name for each meaning.
pub data Error : Type 0 where
  forbidden not_found invalid_transition already_exists invalid_input no_rows not_bound : Error
  import_conflict constraint quarantined gap collision mixed_range : Error
  invalid_credentials desktop_cancelled last_administrator own_account : Error

pub data Result {ℓ} (A : Type ℓ) : Type ℓ where
  ok : A → Result A
  err : Error → Result A

abbrev pub Op {ℓ κ} : Type ℓ → Type κ → Type (ℓ ⊔ κ)
Op S A = S → S × Result A

module _ {ℓ} {S : Type ℓ} where
  unfoldable pub pure {κ} : {A : Type κ} → A → Op S A
  pure a s = (s, ok a)

  -- `return err`
  unfoldable pub fail {κ} : {A : Type κ} → Error → Op S A
  fail e s = (s, err e)

  abbrev pub then_run {κ μ} : {A : Type κ} {B : Type μ} → (A → Op S B) → S × Result A → S × Result B
  then_run f (s, ok a) = f a s
  then_run f (s, err e) = (s, err e)

  -- `if err != nil { return err }` between two steps
  infixl 5 ◌>>=◌ ◌>>◌
  unfoldable pub ◌>>=◌ {κ μ} : {A : Type κ} {B : Type μ} → Op S A → (A → Op S B) → Op S B
  ◌>>=◌ m f s = then_run f (m s)

  abbrev pub ◌>>◌ {κ μ} : {A : Type κ} {B : Type μ} → Op S A → Op S B → Op S B
  m >> k = m >>= λ _. k

  -- a query
  unfoldable pub query {κ} : {A : Type κ} → (S → A) → Op S A
  query f s = (s, ok (f s))

  -- a statement that changes rows
  unfoldable pub exec : (S → S) → Op S (Unit {0})
  exec f s = (f s, ok tt)

  -- `if !b { return err }`
  unfoldable pub require : Bool → Error → Op S (Unit {0})
  require true e s = (s, ok tt)
  require false e s = (s, err e)

  -- `Scan` of a row that may be missing
  unfoldable pub require_some {κ} : {A : Type κ} → Option A → Error → Op S A
  require_some none e s = (s, err e)
  require_some (some a) e s = (s, ok a)

  abbrev pub or_rollback {κ} : {A : Type κ} → S → S × Result A → S × Result A
  or_rollback before (s, ok a) = (s, ok a)
  or_rollback before (s, err e) = (before, err e)

  -- `BeginTx`, the statements, `Commit`; the deferred `Rollback` undoes a transaction that fails.
  unfoldable pub transaction {κ} : {A : Type κ} → Op S A → Op S A
  transaction m s = or_rollback s (m s)

  -- An operation on a database.
  unfoldable pub run {κ} : {A : Type κ} → Op S A → S → S × Result A
  unfolding pure fail query exec require require_some transaction ◌>>=◌
  run m s = m s
