-- ===== src/Store/Login/States.antt =====
-- internal/store/store.go: the states of OIDC logins in progress, each of which is good for one login.
use tintwire.Prelude.{
  ℕ, ◌+◌, String, ◌≡◌, refl, Bool, true, false, not, ◌&&◌, Option, none, some, List, [], ◌∷◌, ◌==◌,
  string_eq, ltb, leb, if◌then◌else◌, any_row, delete_where, select_where, arith, eq_iff, ◌∙◌,
  Bool-cases, inl, inr,
}
use tintwire.Store.Op.{
  Op, Result, ok, err, pure, query, exec, require, require_some, transaction, ◌>>=◌, ◌>>◌,
  invalid_credentials, invalid_input, constraint,
}
use tintwire.Store.Ensures.{
  Ensures, query_then-Ensures, require_then-Ensures, exec-Ensures, exec_then-Ensures, pure-Ensures,
  transaction-Ensures, require_some_then-Ensures,
}
use tintwire.Store.Login.{Platform, LoginState, LoginDb}

abbrev pub set_login_states : (List LoginState → List LoginState) → LoginDb → LoginDb
set_login_states f db = record db { login_states = f db.login_states }

module _ (platform : Platform) where
  open platform use {sha256}

  -- `CreateOIDCLoginState`; `state_hash` is the table's key.
  unfoldable pub create_login_state : String → String → String → ℕ → ℕ → Op LoginDb (Unit {0})
  create_login_state state verifier nonce lifetime now = do
    require (not (state == "") && not (verifier == "") && not (nonce == "") && ltb 0 lifetime)
        invalid_input
    exec (set_login_states (delete_where (λ r. leb r.expires_at now)))
    taken ← query (λ db. any_row (λ r. r.state_hash == sha256 state) db.login_states)
    require (not taken) constraint
    exec (
        set_login_states (λ rows.
          record {
            state_hash = sha256 state;
            verifier = verifier;
            nonce = nonce;
            expires_at = now + lifetime;
          }
          ∷ rows))

  abbrev pub is_unconsumed : String → ℕ → LoginState → Bool
  is_unconsumed state now r = r.state_hash == sha256 state && ltb now r.expires_at

  -- `ConsumeOIDCLoginState`, which returns the verifier and the nonce
  unfoldable pub consume_login_state : String → ℕ → Op LoginDb (String × String)
  consume_login_state state now = transaction (do
    row ← query (λ db. select_where (is_unconsumed state now) db.login_states)
    r ← require_some row invalid_credentials
    exec (set_login_states (delete_where (λ r. r.state_hash == sha256 state)))
    pure (r.verifier, r.nonce))

  -- `OIDCLoginState`
  unfoldable pub oidc_login_state : String → ℕ → Op LoginDb (String × String)
  oidc_login_state state now = do
    row ← query (λ db. select_where (is_unconsumed state now) db.login_states)
    r ← require_some row invalid_credentials
    pure (r.verifier, r.nonce)

  abbrev secrets_of : Option LoginState → Result (String × String)
  secrets_of none = err invalid_credentials
  secrets_of (some r) = ok (r.verifier, r.nonce)

  consume_lem :
      (state : String) (now : ℕ) (db : LoginDb) (row : Option LoginState)
      → select_where (is_unconsumed state now) db.login_states ≡ row
      → (consume_login_state state now db).1 ≡ secrets_of row
  unfolding consume_login_state query exec pure require_some transaction ◌>>=◌
  consume_lem state now db none found = rw (found, require_some) refl
  consume_lem state now db (some r) found = rw (found, require_some) refl

  oidc_login_state_lem :
      (state : String) (now : ℕ) (db : LoginDb) (row : Option LoginState)
      → select_where (is_unconsumed state now) db.login_states ≡ row
      → (oidc_login_state state now db).1 ≡ secrets_of row
  unfolding oidc_login_state query pure require_some ◌>>=◌
  oidc_login_state_lem state now db none found = rw (found, require_some) refl
  oidc_login_state_lem state now db (some r) found = rw (found, require_some) refl

  consumed_gone :
      (h : String) (t : ℕ) (rows : List LoginState)
      → select_where
          (λ s. s.state_hash == h && ltb t s.expires_at)
          (delete_where (λ s. s.state_hash == h) rows)
        ≡ none
  consumed_gone h t [] = refl
  consumed_gone h t (s ∷ rows) = elim (Bool-cases (s.state_hash == h)) [
    | inl here ↦ rw here (consumed_gone h t rows)
    | inr there ↦ rw (there, there) (consumed_gone h t rows)
  ]

  absent_open :
      (state : String) (t : ℕ) (rows : List LoginState)
      → any_row (λ r. r.state_hash == sha256 state) rows ≡ false
      → select_where (is_unconsumed state t) rows ≡ none
  absent_open state t [] absent = refl
  absent_open state t (s ∷ rows) absent = elim (Bool-cases (s.state_hash == sha256 state)) [
    | inl here ↦ cc (rw here at absent)
    | inr there ↦ rw there (absent_open state t rows (rw there at absent))
  ]

  create_login_state-Ensures :
      (db : LoginDb) (state verifier nonce : String) (lifetime now t : ℕ)
      → Ensures
          (λ _ after.
            (consume_login_state state t after).1
            ≡ (if ltb t (now + lifetime) then ok (verifier, nonce) else err invalid_credentials))
          (create_login_state state verifier nonce lifetime now)
          db
  unfolding create_login_state
  create_login_state-Ensures db state verifier nonce lifetime now t =
      let same : (sha256 state == sha256 state) ≡ true = (eq_iff _ _).1 refl in
      require_then-Ensures _ _ _ _ λ _. exec_then-Ensures _ _ _ (
        query_then-Ensures _ _ _ (
          require_then-Ensures _ _ _ _ λ free. exec-Ensures _ _ (
            consume_lem state t _ _ refl ∙ elim (Bool-cases (ltb t (now + lifetime))) [
              | inl within ↦ rw (same, within) refl
              | inr over ↦
                  rw
                    (
                      same,
                      over,
                      absent_open state t (delete_where (λ r. leb r.expires_at now) db.login_states)
                          (ground arith),
                    )
                    refl
            ])))

  -- Until it expires, and no longer, a login state that was created is consumed with the verifier and
  -- nonce that it was created with.
  pub create-consume_login_state :
      (db : LoginDb) (state verifier nonce : String) (lifetime now t : ℕ)
      → (create_login_state state verifier nonce lifetime now db).1 ≡ ok tt
      → (consume_login_state state t (create_login_state state verifier nonce lifetime now db).0).1
        ≡ (if ltb t (now + lifetime) then ok (verifier, nonce) else err invalid_credentials)
  create-consume_login_state db state verifier nonce lifetime now t done =
      (create_login_state-Ensures db state verifier nonce lifetime now t).from tt done

  consume-Ensures :
      (db : LoginDb) (state : String) (now t : ℕ)
      → Ensures
          (λ _ after.
            ((consume_login_state state t after).1 ≡ err invalid_credentials)
            × ((oidc_login_state state t after).1 ≡ err invalid_credentials))
          (consume_login_state state now)
          db
  unfolding consume_login_state
  consume-Ensures db state now t = transaction-Ensures _ _ (
      query_then-Ensures _ _ _ (
        require_some_then-Ensures _ _ _ _ λ r found. exec_then-Ensures _ _ _ (
          pure-Ensures _ _ (
            consume_lem state t _ none (consumed_gone (sha256 state) t db.login_states),
            oidc_login_state_lem state t _ none (consumed_gone (sha256 state) t db.login_states),
          ))))

  -- A login state that was consumed can neither be consumed again nor read, at any time.
  pub consume_once :
      (db : LoginDb) (state verifier nonce : String) (now t : ℕ)
      → (consume_login_state state now db).1 ≡ ok (verifier, nonce)
      → ((consume_login_state state t (consume_login_state state now db).0).1
          ≡ err invalid_credentials)
        × ((oidc_login_state state t (consume_login_state state now db).0).1
            ≡ err invalid_credentials)
  consume_once db state verifier nonce now t done =
      (consume-Ensures db state now t).from (verifier, nonce) done
