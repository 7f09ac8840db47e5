-- ===== src/Store/Login/Accounts.antt =====
-- internal/store/store.go: a user who logs in by OIDC gets an account, under a username that is free.
pub mod Usernames
pub mod FreeNames
pub mod Logins
use Prim.Native.Char.{Char, code}
use Prim.Native.String.{[], ◌∷◌, ◌++◌}
use tintwire.Prelude.{
  ℕ, zero, suc, ◌+◌, String, Bool, true, false, not, ◌&&◌, ◌||◌, Option, none, some, ◌==◌,
  string_eq, nat_eq, ltb, leb, if◌then◌else◌, any_row, select_where, trim_space, byte_length,
  length,
}
use tintwire.Prelude
use tintwire.Store.Op.{
  Op, pure, query, exec, require, require_some, ◌>>=◌, ◌>>◌, invalid_credentials, invalid_input,
  constraint, not_found,
}
use tintwire.Store.Login.{Platform, Account, LoginUser, login_user, LoginDb}
use tintwire.Convergence.Ids.{decimal}

-- `(r >= 'a' && r <= 'z') || (r >= '0' && r <= '9') || r == '-' || r == '_'`
abbrev pub is_plain : Char → Bool
is_plain c =
    let n = code c in leb b'a' n && ltb n 0x7b || leb b'0' n && leb n b'9' || n == b'-' || n == b'_'

abbrev pub is_dash : Char → Bool
is_dash c = code c == b'-' || code c == b'_'

abbrev pub write_rune : Char → String → String
write_rune r b = if is_plain r then b ++ (r ∷ []) else if not (b == "") then b ++ ("-" ∷ []) else b

-- the loop over the runes; `b` is the builder
unfoldable pub plain_from : String → String → String
plain_from [] b = b
plain_from (r ∷ value) b =
    let rest = plain_from value (write_rune r b) in
    if leb 80 (byte_length (write_rune r b)) then write_rune r b else rest

unfoldable pub trim_dashes_left : String → String
trim_dashes_left [] = []
trim_dashes_left (c ∷ s) = let rest = trim_dashes_left s in if is_dash c then rest else c ∷ s

abbrev pub cons_unless_dash : Char → String → String
cons_unless_dash c [] = if is_dash c then [] else c ∷ []
cons_unless_dash c (d ∷ s) = c ∷ (d ∷ s)

unfoldable pub trim_dashes_right : String → String
trim_dashes_right [] = []
trim_dashes_right (c ∷ s) = cons_unless_dash c (trim_dashes_right s)

-- the username of round `suffix` of the loop
unfoldable pub candidate : String → ℕ → String
candidate base suffix = if ltb 0 suffix then base ++ ("-" ∷ decimal (suffix + 1)) else base

module _ (platform : Platform) where
  open platform use {to_lower, fold}

  -- `normalizeOIDCUsername`
  unfoldable pub normalize_username : String → String
  unfolding plain_from trim_dashes_left trim_dashes_right
  normalize_username value =
      trim_dashes_left (trim_dashes_right (plain_from (to_lower (trim_space value)) []))

  -- `username=?`
  abbrev pub has_username : String → Account → Bool
  has_username name u = fold u.username == fold name

  -- the loop over the suffixes; `none` is the end of the fuel
  unfoldable pub free_username : ℕ → String → ℕ → LoginDb → Option String
  free_username zero base suffix db = none
  free_username (suc fuel) base suffix db =
      let next = free_username fuel base (suffix + 1) db in
      if any_row (has_username (candidate base suffix)) db.accounts
      then next
      else some (candidate base suffix)

  abbrev pub base_username : String → String
  base_username preferred =
      let name = normalize_username preferred in if name == "" then "pocket-user" else name

  abbrev pub has_subject : String → Option String → Bool
  has_subject subject none = false
  has_subject subject (some s) = s == subject

  abbrev pub account_of_subject : String → LoginDb → Option Account
  account_of_subject subject db = select_where (λ u. has_subject subject u.oidc_subject) db.accounts

  -- the `INSERT` of a new account; its subject has no account yet
  unfoldable pub insert_account : Account → Op LoginDb (Unit {0})
  insert_account account = do
    taken ←
        query
          (λ db. any_row (λ u. u.id == account.id || has_username (account.username) u) db.accounts)
    require (not taken) constraint
    exec (λ db. record db { accounts = Prelude.◌∷◌ account db.accounts })

  -- the rest of `FindOrCreateOIDCUser`, with the row of the subject and the id that `newID` draws
  unfoldable pub account_or_new : String → String → String → Option Account → Op LoginDb LoginUser
  unfolding insert_account free_username
  account_or_new subject preferred id (some u) = do
    require (not (u.disabled)) invalid_credentials
    pure (login_user u)
  account_or_new subject preferred id none = do
    name ← query (λ db. free_username (suc (length db.accounts)) (base_username preferred) 0 db)
    username ← require_some name not_found
    insert_account (record {
      id = id;
      username = username;
      is_admin = false;
      disabled = false;
      oidc_subject = some subject;
    })
    pure (record { id = id; username = username; is_admin = false })

  -- `FindOrCreateOIDCUser`
  unfoldable pub find_or_create_user : String → String → String → Op LoginDb LoginUser
  unfolding account_or_new
  find_or_create_user subject preferred id = do
    require (not (trim_space subject == "") && leb (byte_length (trim_space subject)) 255)
        invalid_input
    row ← query (account_of_subject (trim_space subject))
    account_or_new (trim_space subject) preferred id row
