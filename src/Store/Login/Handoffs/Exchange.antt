-- ===== src/Store/Login/Handoffs/Exchange.antt =====
-- internal/store/store.go: a handoff is exchanged once, if it was approved.
use tintwire.Prelude.{
  ℕ, ◌+◌, String, ◌≡◌, refl, true, not, ◌&&◌, none, some, ◌==◌, string_eq, nat_eq, ltb,
  if◌then◌else◌, delete_where, update_where, count_where, select_where, arith, eq_iff, Bool-cases,
  inl, inr, IsKeyed, select_where-holds, select_where-mem, find_row-delete_where,
  find_row-update_where,
}
use tintwire.Store.Op.{
  ok, err, query, exec, require, require_some, transaction, ◌>>=◌, invalid_credentials,
  desktop_cancelled,
}
use tintwire.Store.Ensures.{
  Ensures, query_then-Ensures, require_then-Ensures, exec_then-Ensures, pure-Ensures,
  transaction-Ensures, require_some_then-Ensures, call-Ensures,
}
use tintwire.Store.Login.{Platform, Confirmation, cancelled, LoginDb}
use tintwire.Store.Login.Sessions.{can_log_in, user_for_session, account_of}
use tintwire.Store.Login.Sessions.Tokens.{insert_session_for-Ensures}
use tintwire.Store.Login.Handoffs.{
  is_approved, is_cancelled, set_confirmations, is_answerable, cancel_desktop_confirmation,
  handoff_row, is_exchangeable, exchange_desktop_handoff,
}

module _ (platform : Platform) where
  open platform use {sha256}

  handoff_gone :
      (handoff token : String) (lifetime now : ℕ) (db : LoginDb)
      → handoff_row platform handoff db ≡ none
      → (exchange_desktop_handoff platform handoff token lifetime now db).1
        ≡ err invalid_credentials
  unfolding exchange_desktop_handoff query require require_some transaction ◌>>=◌
  handoff_gone handoff token lifetime now db gone =
      elim (Bool-cases (not (handoff == "") && ltb 0 lifetime)) [
        | inl proper ↦ rw (proper, require, gone, require_some) refl
        | inr improper ↦ rw (improper, require) refl
      ]

  -- What a successful exchange had before it and leaves behind it.
  pub record Exchanged (handoff token : String) (lifetime now t later : ℕ) (db after : LoginDb)
      : Type 0 where
    pub row : Confirmation
    pub found : handoff_row platform handoff db ≡ some row
    pub approval : is_approved row.status ≡ true
    pub unexpired : ltb now row.expires_at ≡ true
    pub session : (user_for_session platform token t after).1 ≡ (
        if ltb t (now + lifetime)
        then account_of (select_where (can_log_in row.user_id) db.accounts)
        else err invalid_credentials)
    pub spent :
        (other : String)
        → (exchange_desktop_handoff platform handoff other lifetime later after).1
          ≡ err invalid_credentials

  exchanged :
      (db after : LoginDb) (handoff token : String) (lifetime now t later : ℕ) (d : Confirmation)
      → IsKeyed (λ c. c.handoff_hash) db.confirmations
      → select_where (is_exchangeable platform handoff now) db.confirmations ≡ some d
      → after.confirmations ≡ delete_where (is_exchangeable platform handoff now) db.confirmations
      → (user_for_session platform token t after).1 ≡ (
          if ltb t (now + lifetime)
          then account_of (select_where (can_log_in d.user_id) db.accounts)
          else err invalid_credentials)
      → Exchanged handoff token lifetime now t later db after
  exchanged db after handoff token lifetime now t later d keyed deleted e works =
      let p = is_exchangeable platform handoff now in
      let holds : p d ≡ true = select_where-holds p db.confirmations d deleted in
      let hash : d.handoff_hash ≡ sha256 handoff = (eq_iff _ _).0 (ground arith) in
      let found : handoff_row platform handoff db ≡ some d =
        rw (← hash) (keyed d (select_where-mem p db.confirmations d deleted)) in
      let gone : handoff_row platform handoff after ≡ none = rw e (
        find_row-delete_where (λ c. c.handoff_hash) p db.confirmations (sha256 handoff) d keyed
          found holds) in
      record {
        row = d;
        found = found;
        approval = ground arith;
        unexpired = ground arith;
        session = works;
        spent = λ other. handoff_gone handoff other lifetime later after gone;
      }

  exchange-Ensures :
      (db : LoginDb) (handoff token : String) (lifetime now t later : ℕ)
      → IsKeyed (λ c. c.handoff_hash) db.confirmations
      → Ensures
          (λ _ after. Exchanged handoff token lifetime now t later db after)
          (exchange_desktop_handoff platform handoff token lifetime now)
          db
  unfolding exchange_desktop_handoff
  exchange-Ensures db handoff token lifetime now t later keyed = require_then-Ensures _ _ _ _ λ _.
      transaction-Ensures _ _ (
        query_then-Ensures _ _ _ (
          require_some_then-Ensures _ _ _ _ λ c found. require_then-Ensures _ _ _ _ λ alive.
            require_then-Ensures _ _ _ _ λ granted. query_then-Ensures _ _ _ (
              exec_then-Ensures _ _ _ (
                require_some_then-Ensures _ _ _ _ λ d deleted.
                  call-Ensures _ _ _ (insert_session_for-Ensures platform _ _ token lifetime now t)
                    λ _ after (e, works). pure-Ensures _ _ (
                      exchanged db after handoff token lifetime now t later d keyed deleted
                        (rw e refl) works)))))

  -- A handoff is exchanged only if its row was approved and has not expired. The token then stands for the
  -- user of that row while the account is enabled and until the session expires, and no later exchange
  -- of the handoff succeeds.
  pub exchange_once :
      (db : LoginDb) (handoff token : String) (lifetime now t later expires : ℕ)
      → IsKeyed (λ c. c.handoff_hash) db.confirmations
      → (exchange_desktop_handoff platform handoff token lifetime now db).1 ≡ ok expires
      → Exchanged handoff token lifetime now t later db
          (exchange_desktop_handoff platform handoff token lifetime now db).0
  exchange_once db handoff token lifetime now t later expires keyed done =
      (exchange-Ensures db handoff token lifetime now t later keyed).from expires done

  cancelled_rows :
      (db : LoginDb) (secret : String) (now : ℕ)
      → (cancel_desktop_confirmation platform secret now db).0
        ≡ set_confirmations
            (update_where
              (is_answerable platform secret now)
              (λ c. record c { status = cancelled }))
            db
  unfolding cancel_desktop_confirmation query exec require ◌>>=◌
  cancelled_rows db secret now =
      elim (Bool-cases (count_where (is_answerable platform secret now) db.confirmations == 1)) [
        | inl one ↦ rw (one, require) refl
        | inr other ↦ rw (other, require) refl
      ]

  refused :
      (handoff token : String) (lifetime now : ℕ) (db : LoginDb) (c : Confirmation)
      → handoff_row platform handoff db ≡ some c
      → is_cancelled c.status ≡ true
      → exchange_desktop_handoff platform handoff token lifetime now db ≡ (
        db,
        err (
            if not (handoff == "") && ltb 0 lifetime
            then desktop_cancelled
            else invalid_credentials),
      )
  unfolding exchange_desktop_handoff query require require_some transaction ◌>>=◌
  refused handoff token lifetime now db c found over =
      elim (Bool-cases (not (handoff == "") && ltb 0 lifetime)) [
        | inl proper ↦ rw (proper, require, found, require_some, over, require) refl
        | inr improper ↦ rw (improper, require) refl
      ]

  -- Once a pending confirmation that has not expired is cancelled, its handoff is refused at every time,
  -- and the refusal changes nothing.
  pub cancelled_refused :
      (db : LoginDb) (handoff secret token : String) (now lifetime later : ℕ) (c : Confirmation)
      → handoff_row platform handoff db ≡ some c
      → is_answerable platform secret now c ≡ true
      → exchange_desktop_handoff platform handoff token lifetime later
          (cancel_desktop_confirmation platform secret now db).0
        ≡ (
          (cancel_desktop_confirmation platform secret now db).0,
          err (
              if not (handoff == "") && ltb 0 lifetime
              then desktop_cancelled
              else invalid_credentials),
        )
  cancelled_refused db handoff secret token now lifetime later c found open_row =
      let p = is_answerable platform secret now in
      let f = λ (r : Confirmation). record r { status = cancelled } in
      refused handoff token lifetime later (cancel_desktop_confirmation platform secret now db).0
        (f c)
        (rw
          (
            cancelled_rows db secret now,
            find_row-update_where (λ r. r.handoff_hash) p f db.confirmations (sha256 handoff)
                (λ r. refl),
            found,
            open_row,
          )
          refl)
        refl
