-- ===== src/Store/Login/Sessions/Tokens.antt =====
-- internal/store/store.go: whom a session token stands for.
use tintwire.Prelude.{
  ℕ, ◌+◌, String, ◌≡◌, refl, Bool, true, false, ◌&&◌, none, List, [], ◌∷◌, ◌==◌, string_eq, ltb,
  if◌then◌else◌, any_row, delete_where, select_where, arith, Bool-cases, Option-cases, inl, inr,
  eq_iff,
}
use tintwire.Store.Op.{ok, err, require_some, invalid_credentials, run}
use tintwire.Store.Login.{Platform, Session, LoginDb}
use tintwire.Store.Ensures.{
  Ensures, query_then-Ensures, require_then-Ensures, exec-Ensures, exec_then-Ensures, call-Ensures,
  pure-Ensures, transaction-Ensures, require_some_then-Ensures,
}
use tintwire.Store.Login.Sessions.{
  can_log_in, set_sessions, insert_session, new_session, insert_session_for, account_of, owner_of,
  create_session_with_token, user_for_session, rotate_session,
}

pub insert_session-Ensures :
    (s : Session) (db : LoginDb)
    → Ensures
        (λ _ after.
          (after ≡ set_sessions (λ rows. s ∷ rows) db)
          × (any_row (λ r. r.token_hash == s.token_hash) db.sessions ≡ false))
        (insert_session s)
        db
unfolding insert_session
insert_session-Ensures s db =
    query_then-Ensures _ _ _
      (require_then-Ensures _ _ _ _ λ free. exec-Ensures _ _ (refl, ground arith))

module _ (platform : Platform) where
  open platform use {sha256}

  deleted_gone :
      (h : String) (t : ℕ) (rows : List Session)
      → select_where
          (λ s. s.token_hash == h && ltb t s.expires_at)
          (delete_where (λ s. s.token_hash == h) rows)
        ≡ none
  deleted_gone h t [] = refl
  deleted_gone h t (s ∷ rows) = elim (Bool-cases (s.token_hash == h)) [
    | inl here ↦ rw here (deleted_gone h t rows)
    | inr there ↦ rw (there, there) (deleted_gone h t rows)
  ]

  abbrev is_current : String → ℕ → Session → Bool
  is_current token t s = s.token_hash == sha256 token && ltb t s.expires_at

  user_for_session_lem :
      (token : String) (t : ℕ) (db : LoginDb)
      → (user_for_session platform token t db).1
        ≡ owner_of db.accounts (select_where (is_current token t) db.sessions)
  unfolding user_for_session run
  user_for_session_lem token t db =
      elim (Option-cases (select_where (is_current token t) db.sessions)) [
        | inl absent ↦ rw (absent, require_some) refl
        | inr (s, found) ↦ elim (Option-cases (select_where (can_log_in (s.user_id)) db.accounts)) [
          | inl gone ↦ rw (found, require_some, gone) refl
          | inr (u, there) ↦ rw (found, require_some, there) refl
        ]
      ]

  rotate_session-Ensures :
      (db : LoginDb) (token new_token : String) (lifetime now t : ℕ)
      → ltb t (now + lifetime) ≡ true
      → (sha256 new_token == sha256 token) ≡ false
      → Ensures
          (λ e after.
            ((user_for_session platform token t after).1 ≡ err invalid_credentials)
            × ((user_for_session platform new_token t after).1
                ≡ (user_for_session platform token now db).1))
          (rotate_session platform token new_token lifetime now)
          db
  unfolding rotate_session
  rotate_session-Ensures db token new_token lifetime now t within apart =
      let same : (sha256 new_token == sha256 new_token) ≡ true = (eq_iff _ _).1 refl in
      transaction-Ensures _ _ (
        query_then-Ensures _ _ _ (
          require_some_then-Ensures _ _ _ _ λ s found. exec_then-Ensures _ _ _ (
            call-Ensures _ _ _ (insert_session-Ensures _ _) λ _ after (e, free). pure-Ensures _ _ (
              rw (e, user_for_session_lem token t, apart, deleted_gone (sha256 token) t db.sessions)
                  refl,
              rw
                  (
                    e,
                    user_for_session_lem new_token t,
                    same,
                    within,
                    user_for_session_lem token now db,
                    found,
                  )
                  refl,
            ))))

  -- Once a session is rotated, its old token is refused at every time, and until the new session
  -- expires the new token stands for the user of the old one.
  pub rotate_session-replaces :
      (db : LoginDb) (token new_token : String) (lifetime now t expires : ℕ)
      → (rotate_session platform token new_token lifetime now db).1 ≡ ok expires
      → ltb t (now + lifetime) ≡ true
      → (sha256 new_token == sha256 token) ≡ false
      → ((user_for_session platform token t
            (rotate_session platform token new_token lifetime now db).0).1
          ≡ err invalid_credentials)
        × ((user_for_session platform new_token t
              (rotate_session platform token new_token lifetime now db).0).1
            ≡ (user_for_session platform token now db).1)
  rotate_session-replaces db token new_token lifetime now t expires done within apart =
      (rotate_session-Ensures db token new_token lifetime now t within apart).from expires done

  absent_current :
      (token : String) (t : ℕ) (rows : List Session)
      → any_row (λ r. r.token_hash == sha256 token) rows ≡ false
      → select_where (is_current token t) rows ≡ none
  absent_current token t [] absent = refl
  absent_current token t (s ∷ rows) absent = elim (Bool-cases (s.token_hash == sha256 token)) [
    | inl here ↦ cc (rw here at absent)
    | inr there ↦ rw there (absent_current token t rows (rw there at absent))
  ]

  created :
      (db : LoginDb) (user_id token : String) (lifetime now t : ℕ)
      → any_row (λ r. r.token_hash == sha256 token) db.sessions ≡ false
      → owner_of db.accounts (
          select_where
            (is_current token t)
            (new_session (sha256 token) user_id lifetime now ∷ db.sessions))
        ≡ (if ltb t (now + lifetime)
            then account_of (select_where (can_log_in user_id) db.accounts)
            else err invalid_credentials)
  created db user_id token lifetime now t free =
      let same : (sha256 token == sha256 token) ≡ true = (eq_iff _ _).1 refl in
      elim (Bool-cases (ltb t (now + lifetime))) [
        | inl within ↦ rw (same, within) refl
        | inr over ↦ rw (same, over, absent_current token t db.sessions free) refl
      ]

  pub insert_session_for-Ensures :
      (db : LoginDb) (user_id token : String) (lifetime now t : ℕ)
      → Ensures
          (λ _ after.
            (after
              ≡ set_sessions (λ rows. new_session (sha256 token) user_id lifetime now ∷ rows) db)
            × ((user_for_session platform token t after).1 ≡ (
                if ltb t (now + lifetime)
                then account_of (select_where (can_log_in user_id) db.accounts)
                else err invalid_credentials)))
          (insert_session_for (new_session (sha256 token) user_id lifetime now))
          db
  unfolding insert_session_for
  insert_session_for-Ensures db user_id token lifetime now t = query_then-Ensures _ _ _ (
      require_then-Ensures _ _ _ _ λ allowed. record {
        from = λ _ done.
            let (e, free) = (insert_session-Ensures _ _).from _ done in
            (
              e,
              rw (e, user_for_session_lem token t) (created db user_id token lifetime now t free),
            );
      })

  create_session-Ensures :
      (db : LoginDb) (user_id token : String) (lifetime now t : ℕ)
      → Ensures
          (λ expires after. (user_for_session platform token t after).1 ≡ (
            if ltb t expires
            then account_of (select_where (can_log_in user_id) db.accounts)
            else err invalid_credentials))
          (create_session_with_token platform user_id token lifetime now)
          db
  unfolding create_session_with_token
  create_session-Ensures db user_id token lifetime now t =
      call-Ensures _ _ _ (insert_session_for-Ensures db user_id token lifetime now t)
        λ _ after (e, works). pure-Ensures _ _ works

  -- A new session stands for its user while that account is enabled and until the session expires, and
  -- for nobody from then on.
  pub create_session-authenticates :
      (db : LoginDb) (user_id token : String) (lifetime now t expires : ℕ)
      → (create_session_with_token platform user_id token lifetime now db).1 ≡ ok expires
      → (user_for_session platform token t
          (create_session_with_token platform user_id token lifetime now db).0).1
        ≡ (if ltb t expires
            then account_of (select_where (can_log_in user_id) db.accounts)
            else err invalid_credentials)
  create_session-authenticates db user_id token lifetime now t expires done =
      (create_session-Ensures db user_id token lifetime now t).from expires done
