-- ===== src/Store/Login/Accounts/Logins.antt =====
-- internal/store/store.go: one account for each OIDC subject.
use tintwire.Prelude.{
  String, true, false, not, ◌&&◌, Option, none, some, ◌==◌, string_eq, leb, ◌≡◌, refl, ap,
  trim_space, byte_length, arith, eq_iff, Bool-cases, inl, inr, List, [], ◌∷◌,
}
use tintwire.Store.Op.{ok, query, pure, require, ◌>>=◌}
use tintwire.Store.Ensures.{
  Ensures, query_then-Ensures, require_then-Ensures, exec-Ensures, pure-Ensures,
  require_some_then-Ensures, call-Ensures,
}
use tintwire.Store.Keeps.{
  Keeps, bind-Keeps, require-Keeps, require_some-Keeps, query-Keeps, query_then-Keeps, exec-Keeps,
  pure-Keeps,
}
use tintwire.Store.Login.{Platform, Account, LoginUser, login_user, LoginDb}
use tintwire.Store.Login.Accounts.{
  account_of_subject, account_or_new, find_or_create_user, insert_account,
}

-- the arguments of a login
pub record LoginRequest : Type 0 where
  pub subject : String
  pub preferred : String
  pub id : String

module _ (platform : Platform) where
  -- a subject whose account is found logs in as it
  found_again :
      (subject preferred id : String) (db : LoginDb) (u : Account)
      → (not (trim_space subject == "") && leb (byte_length (trim_space subject)) 255) ≡ true
      → account_of_subject platform (trim_space subject) db ≡ some u
      → u.disabled ≡ false
      → find_or_create_user platform subject preferred id db ≡ (db, ok (login_user u))
  unfolding find_or_create_user query require pure ◌>>=◌
  found_again subject preferred id db u proper found enabled =
      rw (proper, require, found, account_or_new, enabled, require) refl

  insert_account-Ensures :
      (account : Account) (db : LoginDb)
      → Ensures
          (λ _ after. after ≡ record db { accounts = ◌∷◌ account db.accounts })
          (insert_account platform account)
          db
  unfolding insert_account
  insert_account-Ensures account db =
      query_then-Ensures _ _ _ (require_then-Ensures _ _ _ _ λ free. exec-Ensures _ _ refl)

  -- the database after a sequence of logins, each successful or not
  pub after_logins : List LoginRequest → LoginDb → LoginDb
  after_logins [] db = db
  after_logins (l ∷ ls) db =
      after_logins ls (find_or_create_user platform l.subject l.preferred l.id db).0

  insert-Keeps :
      (subject : String) (u : Account) (other : String)
      → (other == subject) ≡ false
      → (account : Account) → account.oidc_subject ≡ some other
      → Keeps
          (λ db. account_of_subject platform subject db ≡ some u)
          (insert_account platform account)
  unfolding insert_account
  insert-Keeps subject u other apart account e =
      bind-Keeps _ _ (query-Keeps _)
        λ taken. bind-Keeps _ _ (require-Keeps _ _) λ _. exec-Keeps _ λ t h. rw (e, apart) h

  account_or_new-Keeps :
      (subject : String) (u : Account) (other preferred id : String) (row : Option Account)
      (db : LoginDb)
      → account_of_subject platform other db ≡ row
      → account_of_subject platform subject db ≡ some u
      → account_of_subject platform subject (account_or_new platform other preferred id row db).0
        ≡ some u
  unfolding account_or_new
  account_or_new-Keeps subject u other preferred id (some v) db e h =
      (bind-Keeps {P = λ db. account_of_subject platform subject db ≡ some u} _ _
          (require-Keeps _ _) λ _. pure-Keeps _).from
        db h
  account_or_new-Keeps subject u other preferred id none db e h =
      elim (Bool-cases (other == subject)) [
        | inl same ↦
            cc (e, h, ap (λ k. account_of_subject platform k db) ((eq_iff other subject).0 same))
        | inr apart ↦
            (bind-Keeps {P = λ db. account_of_subject platform subject db ≡ some u} _ _
                (query-Keeps _)
                λ name. bind-Keeps _ _ (require_some-Keeps _ _) λ username.
                  bind-Keeps _ _ (insert-Keeps subject u other apart _ refl) λ _. pure-Keeps _).from
              db h
      ]

  -- What a login establishes: the subject has an enabled account, that of the user it returns.
  abbrev LoggedIn : String → LoginUser → LoginDb → Type 0
  LoggedIn subject user db =
      (u : Account) × (account_of_subject platform subject db ≡ some u)
      × (u.disabled ≡ false)
      × (login_user u ≡ user)

  account_or_new-Ensures :
      (subject preferred id : String) (row : Option Account) (db : LoginDb)
      → account_of_subject platform subject db ≡ row
      → Ensures (LoggedIn subject) (account_or_new platform subject preferred id row) db
  unfolding account_or_new
  account_or_new-Ensures subject preferred id (some u) db found =
      require_then-Ensures _ _ _ _ λ enabled. pure-Ensures _ _ (u, found, ground arith, refl)
  account_or_new-Ensures subject preferred id none db found =
      let same : (subject == subject) ≡ true = (eq_iff subject subject).1 refl in
      query_then-Ensures _ _ _ (
        require_some_then-Ensures _ _ _ _ λ name free.
          call-Ensures _ _ _ (insert_account-Ensures _ _) λ _ after e. pure-Ensures _ _ (
            record {
              id = id;
              username = name;
              is_admin = false;
              disabled = false;
              oidc_subject = some subject;
            },
            rw (e, same) refl,
            refl,
            refl,
          ))

  find_or_create-Ensures :
      (subject preferred id : String) (db : LoginDb)
      → Ensures
          (λ user after.
            ((not (trim_space subject == "") && leb (byte_length (trim_space subject)) 255) ≡ true)
            × LoggedIn (trim_space subject) user after)
          (find_or_create_user platform subject preferred id)
          db
  unfolding find_or_create_user
  find_or_create-Ensures subject preferred id db = require_then-Ensures _ _ _ _ λ proper.
      query_then-Ensures _ _ _ (record {
        from = λ user done. (
          proper,
          (account_or_new-Ensures (trim_space subject) preferred id _ db refl).from user done,
        );
      })

  -- A login of any subject leaves an account that is there as it is.
  login-Keeps :
      (subject : String) (u : Account) (l : LoginRequest)
      → Keeps
          (λ db. account_of_subject platform subject db ≡ some u)
          (find_or_create_user platform l.subject l.preferred l.id)
  unfolding find_or_create_user
  login-Keeps subject u l = bind-Keeps _ _ (require-Keeps _ _) λ _.
      query_then-Keeps _ _
        λ db h. (account_or_new-Keeps subject u (trim_space l.subject) l.preferred l.id _ db refl h)

  logins-keep :
      (subject : String) (u : Account) (ls : List LoginRequest) (db : LoginDb)
      → account_of_subject platform subject db ≡ some u
      → account_of_subject platform subject (after_logins ls db) ≡ some u
  unfolding after_logins
  logins-keep subject u [] db h = h
  logins-keep subject u (l ∷ ls) db h =
      logins-keep subject u ls _ ((login-Keeps subject u l).from db h)

  -- When a subject has logged in, and any logins of any subjects have followed, successful or not, a
  -- login of the subject returns the same user and changes nothing, whatever username it prefers.
  pub login_again :
      (subject preferred preferred' id id' : String) (user : LoginUser) (ls : List LoginRequest)
      (db : LoginDb)
      → (find_or_create_user platform subject preferred id db).1 ≡ ok user
      → find_or_create_user platform subject preferred' id'
          (after_logins ls (find_or_create_user platform subject preferred id db).0)
        ≡ (after_logins ls (find_or_create_user platform subject preferred id db).0, ok user)
  login_again subject preferred preferred' id id' user ls db done =
      let (proper, login) = (find_or_create-Ensures subject preferred id db).from user done in
      let (u, found, enabled, same) = login in
      rw (← same) (
        found_again subject preferred' id'
          (after_logins ls (find_or_create_user platform subject preferred id db).0) u proper
          (logins-keep (trim_space subject) u ls _ found) enabled)
