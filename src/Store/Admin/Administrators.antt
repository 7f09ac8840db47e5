-- ===== src/Store/Admin/Administrators.antt =====
-- internal/store/user_admin.go: some administrator can always log in.
use tintwire.Prelude.{
  ℕ, String, ◌≡◌, refl, ap, ◌⊎◌, Bool, true, false, not, Option, some, List, [], ◌∷◌, ◌&&◌, ◌||◌,
  ◌==◌, string_eq, ltb, arith, eq_iff, Bool-cases, inl, inr, IsKeyed, any_row, any_row_of_mem,
  mem-any_row, mem-count_where, updated_mem, find_row, update_where, update_where-IsKeyed, ltb→lt,
}
use tintwire.Store.Op.{Op}
use tintwire.Store.Keeps.{
  Keeps, keeps_rules, bind-Keeps, query-Keeps, require-Keeps, require_some-Keeps, exec-Keeps,
  pure-Keeps, branch-Keeps, transaction-Keeps,
}
use tintwire.Store.Ensures.{
  Ensures, transaction-kept, query_then-Ensures, require_then-Ensures, exec_then-Ensures,
  call-Ensures, pure-Ensures, require_some_then-Ensures,
}
use tintwire.Store.Login.{Account}
use tintwire.Store.Admin.{
  AdminDb, set_accounts, account_row, managed_user_state, record_admin_audit, is_administrator,
  other_administrators, audit_if, with_admin, with_disabled, set_managed_user_admin,
  end_sessions_if, set_managed_user_disabled, revoke_managed_user_sessions,
  reset_managed_user_password, remove_channel_member, set_channel_member_by_id, Call, sets_admin,
  sets_disabled, revokes_sessions, resets_password, removes_member, sets_member, operation_of,
  after_calls,
}

-- The ids of accounts are distinct, and an enabled administrator who is a person is among them.
pub record HasAdministrator (db : AdminDb) : Type 0 where
  pub keyed : IsKeyed (λ u. u.id) db.login.accounts
  pub someone : any_row (is_administrator db) db.login.accounts ≡ true

record_admin_audit-Keeps :
    (actor target action detail : String) (now : ℕ)
    → Keeps HasAdministrator (record_admin_audit actor target action detail now)
unfolding record_admin_audit
record_admin_audit-Keeps actor target action detail now = bind-Keeps _ _ (query-Keeps _) λ known.
    bind-Keeps _ _ (require-Keeps _ _)
      λ _. exec-Keeps _ λ s h. record { keyed = h.keyed; someone = h.someone }

audit_if-Keeps :
    (changed : Bool) (actor target action detail : String) (now : ℕ)
    → Keeps HasAdministrator (audit_if changed actor target action detail now)
audit_if-Keeps changed actor target action detail now =
    branch-Keeps changed _ _ (record_admin_audit-Keeps actor target action detail now)
      (pure-Keeps tt)

-- A change of one user leaves an administrator, if another is left or the user still is one.
changed-someone :
    (db : AdminDb) (user_id : String) (u : Account) (f : Account → Account)
    → account_row user_id db ≡ some u
    → (ltb 0 (other_administrators user_id db) ≡ true)
      ⊎ (is_administrator db u ≡ true → is_administrator db (f u) ≡ true)
    → HasAdministrator db
    → any_row (is_administrator db) (update_where (λ r. r.id == user_id) f db.login.accounts) ≡ true
changed-someone db user_id u f found (inl left) h =
    let rows = db.login.accounts in
    let (r, m, other) =
      mem-count_where (λ r. is_administrator db r && not (r.id == user_id)) rows
        (ltb→lt _ _ left) in
    let apart : (r.id == user_id) ≡ false = ground arith in
    let able : is_administrator db r ≡ true = ground arith in
    any_row_of_mem (is_administrator db) _ r
      (rw apart at (updated_mem (λ r. r.id == user_id) f rows r m)) able
changed-someone db user_id u f found (inr still) h =
    let rows = db.login.accounts in
    let (r, m, able) = mem-any_row (is_administrator db) rows h.someone in
    let there = updated_mem (λ r. r.id == user_id) f rows r m in
    elim (Bool-cases (r.id == user_id)) [
      | inr apart ↦ any_row_of_mem (is_administrator db) _ r (rw apart at there) able
      | inl here ↦
          let same : r ≡ u =
            cc (h.keyed r m, ap (λ k. find_row (λ u. u.id) k rows) ((eq_iff _ _).0 here), found) in
          any_row_of_mem (is_administrator db) _ (f r) (rw here at there)
            (rw same (still (rw same at able)))
    ]

managed_user_state-Ensures :
    (user_id : String) (s : AdminDb)
    → Ensures
        (λ state t. (t ≡ s) × (account_row user_id s ≡ some state.1))
        (managed_user_state user_id)
        s
unfolding managed_user_state
managed_user_state-Ensures user_id s = query_then-Ensures _ _ _ (
    require_some_then-Ensures _ _ _ _
      λ u found. query_then-Ensures _ _ _ (pure-Ensures _ _ (refl, found)))

still_admin :
    (db : AdminDb) (u : Account) (enabled : Bool) (others : ℕ)
    → (not (u.is_admin && not enabled) || ltb 0 others) ≡ true
    → (ltb 0 others ≡ true)
      ⊎ (is_administrator db u ≡ true → is_administrator db (with_admin enabled u) ≡ true)
still_admin db u enabled others safe = elim (Bool-cases (ltb 0 others)) [
  | inl left ↦ inl left
  | inr alone ↦ inr λ able. ground arith
]

still_enabled :
    (db : AdminDb) (u : Account) (disabled : Bool) (others : ℕ)
    → (not (u.is_admin && disabled && not u.disabled) || ltb 0 others) ≡ true
    → (ltb 0 others ≡ true)
      ⊎ (is_administrator db u ≡ true → is_administrator db (with_disabled disabled u) ≡ true)
still_enabled db u disabled others safe = elim (Bool-cases (ltb 0 others)) [
  | inl left ↦ inl left
  | inr alone ↦ inr λ able. ground arith
]

-- A change of a user that leaves an administrator keeps the invariant.
changed-HasAdministrator :
    (s : AdminDb) (user : String) (u : Account) (f : Account → Account)
    → ((r : Account) → (f r).id ≡ r.id)
    → account_row user s ≡ some u
    → (ltb 0 (other_administrators user s) ≡ true)
      ⊎ (is_administrator s u ≡ true → is_administrator s (f u) ≡ true)
    → HasAdministrator s
    → HasAdministrator (set_accounts (update_where (λ r. r.id == user) f) s)
changed-HasAdministrator s user u f same found still h = record {
  keyed = update_where-IsKeyed (λ u. u.id) (λ u. u.id == user) f s.login.accounts same h.keyed;
  someone = changed-someone s user u f found still h;
}

-- An operation after which the invariant is kept succeeds or fails.
kept-Ensures {ℓ} :
    {A : Type ℓ} (m : Op AdminDb A) (s : AdminDb)
    → Keeps HasAdministrator m
    → HasAdministrator s
    → Ensures (λ _ t. HasAdministrator t) m s
kept-Ensures m s keeps h = record { from = λ a e. keeps.from s h }

end_sessions_if-HasAdministrator :
    (ends : Bool) (user : String) (s : AdminDb)
    → HasAdministrator s
    → HasAdministrator (end_sessions_if ends user s)
end_sessions_if-HasAdministrator true user s h = record { keyed = h.keyed; someone = h.someone }
end_sessions_if-HasAdministrator false user s h = h

set_admin-Keeps :
    (actor user : String) (enabled : Bool) (now : ℕ)
    → Keeps HasAdministrator (set_managed_user_admin actor user enabled now)
unfolding set_managed_user_admin
set_admin-Keeps actor user enabled now = record {
  from = λ s h. transaction-kept HasAdministrator _ s h (
      call-Ensures _ _ _ (managed_user_state-Ensures user s) λ state t (same, found). rw same (
        require_then-Ensures _ _ _ _ λ open_to_change. query_then-Ensures _ _ _ (
          require_then-Ensures _ _ _ _ λ safe. exec_then-Ensures _ _ _ (
            kept-Ensures _ _ (audit_if-Keeps _ _ _ _ _ _) (
              changed-HasAdministrator s user state.1 (with_admin enabled) (λ r. refl) found
                (still_admin s state.1 enabled _ safe) h)))));
}

set_disabled-Keeps :
    (actor user : String) (disabled : Bool) (now : ℕ)
    → Keeps HasAdministrator (set_managed_user_disabled actor user disabled now)
unfolding set_managed_user_disabled
set_disabled-Keeps actor user disabled now = bind-Keeps _ _ (require-Keeps _ _) λ _. record {
  from = λ s h. transaction-kept HasAdministrator _ s h (
      call-Ensures _ _ _ (managed_user_state-Ensures user s) λ state t (same, found). rw same (
        require_then-Ensures _ _ _ _ λ open_to_change. query_then-Ensures _ _ _ (
          require_then-Ensures _ _ _ _ λ safe. exec_then-Ensures _ _ _ (
            exec_then-Ensures _ _ _ (
              kept-Ensures _ _ (audit_if-Keeps _ _ _ _ _ _) (
                end_sessions_if-HasAdministrator disabled user _ (
                  changed-HasAdministrator s user state.1 (with_disabled disabled) (λ r. refl) found
                    (still_enabled s state.1 disabled _ safe) h)))))));
}

managed_user_state-Keeps : (user : String) → Keeps HasAdministrator (managed_user_state user)
unfolding managed_user_state
managed_user_state-Keeps user = search keeps_rules depth 9

revoke-Keeps :
    (actor user : String) (now : ℕ)
    → Keeps HasAdministrator (revoke_managed_user_sessions actor user now)
unfolding revoke_managed_user_sessions
revoke-Keeps actor user now = transaction-Keeps _ (
    bind-Keeps _ _ (managed_user_state-Keeps user) λ state. bind-Keeps _ _ (require-Keeps _ _) λ _.
      bind-Keeps _ _ (exec-Keeps _ λ s h. record { keyed = h.keyed; someone = h.someone })
        λ _. record_admin_audit-Keeps _ _ _ _ _)

reset-Keeps :
    (actor user password : String) (hashed : Option String) (now : ℕ)
    → Keeps HasAdministrator (reset_managed_user_password actor user password hashed now)
unfolding reset_managed_user_password
reset-Keeps actor user password hashed now = bind-Keeps _ _ (require-Keeps _ _) λ _.
    bind-Keeps _ _ (query-Keeps _) λ row. bind-Keeps _ _ (require_some-Keeps _ _) λ u.
      bind-Keeps _ _ (query-Keeps _) λ kind. bind-Keeps _ _ (require-Keeps _ _) λ _.
        bind-Keeps _ _ (require_some-Keeps _ _) λ hash. transaction-Keeps _ (
          bind-Keeps _ _ (exec-Keeps _ λ s h. record { keyed = h.keyed; someone = h.someone }) λ _.
            bind-Keeps _ _ (exec-Keeps _ λ s h. record { keyed = h.keyed; someone = h.someone })
              λ _. record_admin_audit-Keeps _ _ _ _ _)

remove_member-Keeps :
    (actor channel user : String) (now : ℕ)
    → Keeps HasAdministrator (remove_channel_member actor channel user now)
unfolding remove_channel_member
remove_member-Keeps actor channel user now = transaction-Keeps _ (
    bind-Keeps _ _ (exec-Keeps _ λ s h. record { keyed = h.keyed; someone = h.someone })
      λ _. record_admin_audit-Keeps _ _ _ _ _)

set_member-Keeps :
    (actor channel user role : String) (now : ℕ)
    → Keeps HasAdministrator (set_channel_member_by_id actor channel user role now)
unfolding set_channel_member_by_id
set_member-Keeps actor channel user role now = bind-Keeps _ _ (require_some-Keeps _ _) λ r.
    transaction-Keeps _ (
      bind-Keeps _ _ (query-Keeps _) λ known. bind-Keeps _ _ (require-Keeps _ _) λ _.
        bind-Keeps _ _ (exec-Keeps _ λ s h. record { keyed = h.keyed; someone = h.someone })
          λ _. record_admin_audit-Keeps _ _ _ _ _)

operation_of-Keeps : (c : Call) → Keeps HasAdministrator (operation_of c)
unfolding operation_of
operation_of-Keeps (sets_admin actor user enabled now) = set_admin-Keeps actor user enabled now
operation_of-Keeps (sets_disabled actor user disabled now) =
    set_disabled-Keeps actor user disabled now
operation_of-Keeps (revokes_sessions actor user now) = revoke-Keeps actor user now
operation_of-Keeps (resets_password actor user password hashed now) =
    reset-Keeps actor user password hashed now
operation_of-Keeps (removes_member actor channel user now) =
    remove_member-Keeps actor channel user now
operation_of-Keeps (sets_member actor channel user role now) =
    set_member-Keeps actor channel user role now

-- After any calls of the interface, in any order, by any callers and at any times, successful or not, an
-- administrator who is enabled, not the local inbox and not an agent is left, if there was one and the
-- ids of the accounts were distinct.
pub after_calls-HasAdministrator :
    (cs : List Call) (db : AdminDb) → HasAdministrator db → HasAdministrator (after_calls cs db)
unfolding after_calls
after_calls-HasAdministrator [] db h = h
after_calls-HasAdministrator (c ∷ cs) db h =
    after_calls-HasAdministrator cs (operation_of c db).0 ((operation_of-Keeps c).from db h)
