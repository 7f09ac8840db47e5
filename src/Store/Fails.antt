-- ===== src/Store/Fails.antt =====
-- Operations that return an error and leave the database as it was.
use tintwire.Prelude.{◌≡◌, refl, Bool, true, false}
use tintwire.Store.Op.{Result, ok, err, Op, then_run, ◌>>=◌, or_rollback, transaction}
use tintwire.Store.Keeps.{Keeps}

abbrev pub is_err {ℓ} : {A : Type ℓ} → Result A → Bool
is_err (ok a) = false
is_err (err e) = true

pub record Fails {ℓ κ} {S : Type ℓ} {A : Type κ} (s : S) (m : Op S A) : Type (ℓ ⊔ κ) where
  pub unchanged : (m s).0 ≡ s
  pub is_error : is_err (m s).1 ≡ true

module _ {ℓ κ ν} {S : Type ℓ} {A : Type κ} {B : Type ν} {s : S} where
  after_read :
      (f : A → Op S B) (r : S × Result A)
      → r.0 ≡ s
      → ((a : A) → Fails s (f a))
      → ((then_run f r).0 ≡ s) × (is_err (then_run f r).1 ≡ true)
  after_read f (t, ok a) h rest = rw h ((rest a).unchanged, (rest a).is_error)
  after_read f (t, err e) h rest = (h, refl)

  -- A step that only reads, before steps that fail.
  pub read_then-Fails :
      (m : Op S A) (f : A → Op S B)
      → Keeps (λ t. t ≡ s) m
      → ((a : A) → Fails s (f a))
      → Fails s (m >>= f)
  unfolding ◌>>=◌
  read_then-Fails m f reads rest =
      let both = after_read f (m s) (reads.from s refl) rest in
      record { unchanged = both.0; is_error = both.1 }

module _ {ℓ κ} {S : Type ℓ} {A : Type κ} {s : S} where
  rolls_back :
      (r : S × Result A)
      → r.0 ≡ s
      → is_err r.1 ≡ true
      → ((or_rollback s r).0 ≡ s) × (is_err (or_rollback s r).1 ≡ true)
  rolls_back (t, ok a) h e = (h, e)
  rolls_back (t, err x) h e = (refl, refl)

  pub transaction-Fails : (m : Op S A) → Fails s m → Fails s (transaction m)
  unfolding transaction
  transaction-Fails m h =
      let both = rolls_back (m s) h.unchanged h.is_error in
      record { unchanged = both.0; is_error = both.1 }
