-- ===== src/Store/Replication/Apart.antt =====
-- internal/store/replication.go: appending to the log leaves the other tables alone.
use tintwire.Prelude.{ℕ, String, ◌≡◌, refl, string_eq}
use tintwire.Store.Op.{Op, ◌>>=◌}
use tintwire.Store.Keeps.{
  Keeps, exec-Keeps, bind-Keeps, query-Keeps, require-Keeps, pure-Keeps, branch-Keeps,
}
use tintwire.Store.Ensures.{Ensures, bind-Ensures}
use tintwire.Store.Replication.{Log}
use tintwire.Store.Replication.Origin.{
  insert_operation, append_encoded, append_replication_operation,
}

-- A property of the tables beside the log.
module _ {ℓ μ} {S : Type ℓ} (P : S → Type μ) where
  insert-Keeps : (op : _) → Keeps (λ (t : Log S). P t.effects) (insert_operation op)
  unfolding insert_operation
  insert-Keeps op =
      bind-Keeps _ _ (query-Keeps _)
        λ taken. bind-Keeps _ _ (require-Keeps _ _) λ _. exec-Keeps _ λ s h. h

  pub append-Keeps :
      (cluster_id node_id kind channel_id actor_type actor_id payload : String) (now : ℕ)
      → Keeps
          (λ (t : Log S). P t.effects)
          (append_replication_operation cluster_id node_id kind channel_id actor_type actor_id
            payload now)
  unfolding append_replication_operation append_encoded
  append-Keeps cluster_id node_id kind channel_id actor_type actor_id payload now =
      branch-Keeps _ _ _ (pure-Keeps _) (
        bind-Keeps _ _ (require-Keeps _ _)
          λ _. bind-Keeps _ _ (query-Keeps _) λ previous. insert-Keeps _)

-- What follows an appended operation may use that the other tables are as they were.
module _ {ℓ κ μ} {S : Type ℓ} {A : Type κ} {Q : A → Log S → Type μ} where
  pub kept_then-Ensures {ν} :
      {B : Type ν} (m : Op (Log S) B) (f : B → Op (Log S) A) (s : Log S)
      → Keeps (λ (t : Log S). t.effects ≡ s.effects) m
      → ((b : B) (t : Log S) → t.effects ≡ s.effects → Ensures Q (f b) t)
      → Ensures Q (m >>= f) s
  kept_then-Ensures m f s keeps rest = bind-Ensures m f s λ b e. rest b (m s).0 (keeps.from s refl)

  pub kept-Ensures :
      (m : Op (Log S) A) (s : Log S)
      → Keeps (λ (t : Log S). t.effects ≡ s.effects) m
      → ((a : A) (t : Log S) → t.effects ≡ s.effects → Q a t)
      → Ensures Q m s
  kept-Ensures m s keeps rest = record { from = λ a e. rest a (m s).0 (keeps.from s refl) }
