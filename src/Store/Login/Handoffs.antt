-- ===== src/Store/Login/Handoffs.antt =====
-- internal/store/store.go: a desktop application hands a login over. The browser confirms or cancels it,
-- and the application exchanges the handoff for a session.
pub mod Exchange
use tintwire.Prelude.{
  ℕ, ◌+◌, String, ◌≡◌, refl, Bool, true, false, not, ◌&&◌, ◌||◌, Option, none, some, List, ◌∷◌,
  ◌==◌, string_eq, nat_eq, ltb, leb, if◌then◌else◌, any_row, delete_where, update_where,
  count_where, select_where, find_row, arith, eq_iff, Bool-cases, inl, inr, IsKeyed,
  select_where-holds, select_where-mem, find_row-delete_where, find_row-update_where,
}
use tintwire.Store.Op.{
  Op, ok, err, pure, query, exec, require, require_some, transaction, ◌>>=◌, ◌>>◌,
  invalid_credentials, invalid_input, already_exists, desktop_cancelled,
}
use tintwire.Store.Ensures.{
  Ensures, query_then-Ensures, require_then-Ensures, exec_then-Ensures, pure-Ensures,
  transaction-Ensures, require_some_then-Ensures, call-Ensures,
}
use tintwire.Store.Login.{
  Platform, Confirmation, ConfirmationStatus, pending, approved, cancelled, LoginDb,
}
use tintwire.Store.Login.Sessions.{
  can_log_in, new_session, insert_session_for, user_for_session, account_of,
}

abbrev pub is_pending : ConfirmationStatus → Bool
is_pending pending = true
is_pending _ = false

abbrev pub is_approved : ConfirmationStatus → Bool
is_approved approved = true
is_approved _ = false

abbrev pub is_cancelled : ConfirmationStatus → Bool
is_cancelled cancelled = true
is_cancelled _ = false

abbrev pub set_confirmations : (List Confirmation → List Confirmation) → LoginDb → LoginDb
set_confirmations f db = record db { confirmations = f db.confirmations }

module _ (platform : Platform) where
  open platform use {sha256}

  -- `CreateOIDCDesktopConfirmation`; both hashes are unique in the table.
  unfoldable pub create_desktop_confirmation :
      String → String → String → String → ℕ → ℕ → Op LoginDb (Unit {0})
  create_desktop_confirmation user_id handoff secret code lifetime now = do
    require
        (not (user_id == "")
          && not (handoff == "")
          && not (secret == "")
          && not (code == "")
          && ltb 0 lifetime)
        invalid_input
    exec (set_confirmations (delete_where (λ c. leb c.expires_at now)))
    allowed ← query (λ db. any_row (can_log_in user_id) db.accounts)
    require allowed invalid_credentials
    taken ← query (λ db.
        any_row (λ c. c.handoff_hash == sha256 handoff || c.confirmation_hash == sha256 secret)
          db.confirmations)
    require (not taken) already_exists
    exec (
        set_confirmations (λ rows.
          record {
            handoff_hash = sha256 handoff;
            confirmation_hash = sha256 secret;
            user_id = user_id;
            verification_code = code;
            status = pending;
            expires_at = now + lifetime;
          }
          ∷ rows))

  -- `OIDCDesktopConfirmation`
  unfoldable pub oidc_desktop_confirmation : String → ℕ → Op LoginDb (String × ConfirmationStatus)
  oidc_desktop_confirmation secret now = do
    row ← query (λ db.
        select_where (λ c. c.confirmation_hash == sha256 secret && ltb now c.expires_at)
          db.confirmations)
    c ← require_some row invalid_credentials
    pure (c.verification_code, c.status)

  -- the `WHERE` of an answer
  abbrev pub is_answerable : String → ℕ → Confirmation → Bool
  is_answerable secret now c =
      c.confirmation_hash == sha256 secret && is_pending c.status && ltb now c.expires_at

  -- the `UPDATE` of an answer, which must change one row
  unfoldable pub answer : ConfirmationStatus → String → ℕ → Op LoginDb (Unit {0})
  answer status secret now = do
    changed ← query (λ db. count_where (is_answerable secret now) db.confirmations)
    exec (
        set_confirmations
          (update_where (is_answerable secret now) (λ c. record c { status = status })))
    require (changed == 1) invalid_credentials

  unfoldable pub approve_desktop_confirmation : String → ℕ → Op LoginDb (Unit {0})
  unfolding answer
  approve_desktop_confirmation secret now = answer approved secret now

  unfoldable pub cancel_desktop_confirmation : String → ℕ → Op LoginDb (Unit {0})
  unfolding answer
  cancel_desktop_confirmation secret now = answer cancelled secret now

  -- the row of a handoff
  abbrev pub handoff_row : String → LoginDb → Option Confirmation
  handoff_row handoff db = find_row (λ c. c.handoff_hash) (sha256 handoff) db.confirmations

  -- the `WHERE` of the `DELETE … RETURNING` of an exchange
  abbrev pub is_exchangeable : String → ℕ → Confirmation → Bool
  is_exchangeable handoff now c =
      c.handoff_hash == sha256 handoff && is_approved c.status && ltb now c.expires_at

  -- `ExchangeOIDCDesktopHandoff`, with the session token that it draws
  unfoldable pub exchange_desktop_handoff : String → String → ℕ → ℕ → Op LoginDb ℕ
  exchange_desktop_handoff handoff token lifetime now = do
    require (not (handoff == "") && ltb 0 lifetime) invalid_credentials
    transaction (do
      row ← query (handoff_row handoff)
      c ← require_some row invalid_credentials
      require (not (is_cancelled (c.status))) desktop_cancelled
      require (is_approved (c.status) && ltb now (c.expires_at)) invalid_credentials
      deleted ← query (λ db. select_where (is_exchangeable handoff now) db.confirmations)
      exec (set_confirmations (delete_where (is_exchangeable handoff now)))
      d ← require_some deleted invalid_credentials
      insert_session_for (new_session (sha256 token) (d.user_id) lifetime now)
      pure (now + lifetime))
