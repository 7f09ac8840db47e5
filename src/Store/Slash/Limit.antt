-- ===== src/Store/Slash/Limit.antt =====
-- internal/store/store.go: the token of a run is good for five responses.
use tintwire.Prelude.{
  ℕ, ◌+◌, ◌-◌, ◌≤◌, ◌<◌, String, ◌≡◌, refl, sym, ap, ◌∙◌, Bool, true, false, Option, none, some,
  List, [], ◌∷◌, ◌==◌, string_eq, ltb, if◌then◌else◌, arith, eq_iff, Bool-cases, Option-cases, inl,
  inr, any_row, any_row_of_mem, select_where, select_where-holds, select_where-mem,
  select_where-update_where, update_where,
}
use mathlib.Core.Option
use tintwire.Store.Op.{
  Result, ok, err, query, exec, pure, require, require_some, transaction, ◌>>=◌, not_found,
  forbidden,
}
use tintwire.Store.Keeps.{
  Keeps, bind-Keeps, query-Keeps, require-Keeps, require_some-Keeps, exec-Keeps, pure-Keeps,
}
use tintwire.Store.Slash.{
  SlashCommandExecution, ExecutionRow, SlashDb, set_execution_rows, shares_key, is_insertable,
  insert_execution, replay_execution, create_slash_command_execution, add_slash_command_response,
  has_token, is_usable_token, count_response, scanned_execution, use_slash_response_token, Call,
  creates, responds, uses,
}

abbrev succeeds : Result SlashCommandExecution → ℕ
succeeds (ok e) = 1
succeeds (err e) = 0

-- The database after a call, and how often the call has let a token be used.
unfoldable pub after_call : Call → SlashDb → SlashDb
after_call (creates e) db = (create_slash_command_execution e db).0
after_call (responds id execution kind text payload now) db =
    (add_slash_command_response id execution kind text payload now db).0
after_call (uses token now) db = (use_slash_response_token token now db).0

unfoldable pub grants : String → Call → SlashDb → ℕ
grants token (uses other now) db =
    if other == token then succeeds (use_slash_response_token other now db).1 else 0
grants token _ db = 0

-- how often calls let a token be used
unfoldable pub uses_granted : String → List Call → SlashDb → ℕ
uses_granted token [] db = 0
uses_granted token (c ∷ cs) db = grants token c db + uses_granted token cs (after_call c db)

-- what the row of a token leaves of the five responses
abbrev left_by : Option ExecutionRow → ℕ
left_by none = 5
left_by (some r) = 5 - r.response_count

abbrev left : String → SlashDb → ℕ
left token db = left_by (select_where (has_token token) db.executions)

-- the row of a token after a count
abbrev counted : String → ExecutionRow → ExecutionRow
counted id r = if r.execution.id == id then count_response r else r

left-counted :
    (token id : String) (rows : List ExecutionRow)
    → left_by (
        select_where
          (has_token token)
          (update_where (λ s. s.execution.id == id) count_response rows))
      ≡ left_by (Option.map (counted id) (select_where (has_token token) rows))
left-counted token id rows = ap left_by (
    select_where-update_where (has_token token) (λ s. s.execution.id == id) count_response rows
      (λ r. refl))

counted-le :
    (id : String) (o : Option ExecutionRow) → left_by (Option.map (counted id) o) ≤ left_by o
counted-le id none = omega arith
counted-le id (some r) = elim (Bool-cases (r.execution.id == id)) [
  | inl here ↦ rw here (omega arith)
  | inr there ↦ rw there (omega arith)
]

one_less :
    (r : ExecutionRow)
    → ltb r.response_count 5 ≡ true
    → 1 + (5 - (r.response_count + 1)) ≤ 5 - r.response_count
one_less r few = let low : r.response_count < 5 = ground arith in omega arith

-- A count at a row costs one of the five, if the row is of the token.
use_found :
    (token other : String) (r : ExecutionRow) (rows : List ExecutionRow)
    → select_where (has_token other) rows ≡ some r
    → ltb r.response_count 5 ≡ true
    → (if other == token then 1 else 0)
        + left_by (
            select_where
              (has_token token)
              (update_where (λ s. s.execution.id == r.execution.id) count_response rows))
      ≤ left_by (select_where (has_token token) rows)
use_found token other r rows found few = elim (Bool-cases (other == token)) [
  | inl same ↦
      let here : other ≡ token = (eq_iff _ _).0 same in
      let mine : select_where (has_token token) rows ≡ some r = rw (sym here) found in
      let self : (r.execution.id == r.execution.id) ≡ true = (eq_iff _ _).1 refl in
      rw (same, left-counted token r.execution.id rows, mine, self) (one_less r few)
  | inr away ↦
      let le = counted-le r.execution.id (select_where (has_token token) rows) in
      rw (away, left-counted token r.execution.id rows) (omega arith)
]

use-absent :
    (token : String) (now : ℕ) (db : SlashDb)
    → select_where (has_token token) db.executions ≡ none
    → use_slash_response_token token now db ≡ (db, err not_found)
unfolding use_slash_response_token query require_some transaction ◌>>=◌
use-absent token now db absent = rw (absent, require_some) refl

use-closed :
    (token : String) (now : ℕ) (db : SlashDb) (r : ExecutionRow)
    → select_where (has_token token) db.executions ≡ some r
    → is_usable_token now r ≡ false
    → use_slash_response_token token now db ≡ (db, err forbidden)
unfolding use_slash_response_token query require require_some transaction ◌>>=◌
use-closed token now db r found closed = rw (found, require_some, closed, require) refl

use-usable :
    (token : String) (now : ℕ) (db : SlashDb) (r : ExecutionRow)
    → select_where (has_token token) db.executions ≡ some r
    → is_usable_token now r ≡ true
    → use_slash_response_token token now db ≡ (
      set_execution_rows (update_where (λ s. s.execution.id == r.execution.id) count_response) db,
      ok (scanned_execution r.execution),
    )
unfolding use_slash_response_token query require require_some exec pure transaction ◌>>=◌
use-usable token now db r found usable = rw (found, require_some, usable, require) refl

none_granted : (b : Bool) (n : ℕ) → (if b then 0 else 0) + n ≤ n
none_granted true n = omega arith
none_granted false n = omega arith

-- A use costs one of the five, if it is of the token.
use-left :
    (token other : String) (now : ℕ) (db : SlashDb)
    → grants token (uses other now) db + left token (after_call (uses other now) db) ≤ left token db
unfolding grants after_call
use-left token other now db = elim (Option-cases (select_where (has_token other) db.executions)) [
  | inl absent ↦ rw (after_call, use-absent other now db absent) (none_granted (other == token) _)
  | inr (r, found) ↦ elim (Bool-cases (is_usable_token now r)) [
    | inl usable ↦
        rw (after_call, use-usable other now db r found usable)
          (use_found token other r db.executions found (ground arith))
    | inr closed ↦
        rw (after_call, use-closed other now db r found closed) (none_granted (other == token) _)
  ]
]

-- A run that is inserted has a token of its own.
insert-left :
    (token : String) (e : SlashCommandExecution) (db : SlashDb)
    → any_row (shares_key e) db.executions ≡ false
    → left_by (
        select_where
          (has_token token)
          (record { execution = e; response_count = 0 } ∷ db.executions))
      ≤ left token db
insert-left token e db unique = elim (Bool-cases (e.response_token_hash == token)) [
  | inr away ↦ rw away (omega arith)
  | inl same ↦ elim (Option-cases (select_where (has_token token) db.executions)) [
    | inl absent ↦ rw (same, absent) (omega arith)
    | inr (r, found) ↦
        let holds = select_where-holds (has_token token) db.executions r found in
        let there = select_where-mem (has_token token) db.executions r found in
        let one : r.execution.response_token_hash ≡ token = (eq_iff _ _).0 holds in
        let two : e.response_token_hash ≡ token = (eq_iff _ _).0 same in
        let equal : (r.execution.response_token_hash == e.response_token_hash) ≡ true =
          (eq_iff _ _).1 (one ∙ sym two) in
        let clash : shares_key e r ≡ true = ground arith in
        cc (unique, any_row_of_mem (shares_key e) db.executions r there clash)
  ]
]

replay-Keeps :
    (token : String) (n : ℕ) (e : SlashCommandExecution)
    → Keeps (λ db. left token db ≤ n) (replay_execution e)
unfolding replay_execution
replay-Keeps token n e = bind-Keeps _ _ (query-Keeps _) λ row.
    bind-Keeps _ _ (require_some-Keeps _ _)
      λ r. bind-Keeps _ _ (require-Keeps _ _) λ _. pure-Keeps _

respond-Keeps :
    (token : String) (n : ℕ) (id execution kind text payload : String) (now : ℕ)
    → Keeps
        (λ db. left token db ≤ n)
        (add_slash_command_response id execution kind text payload now)
unfolding add_slash_command_response
respond-Keeps token n id execution kind text payload now = bind-Keeps _ _ (query-Keeps _) λ row.
    bind-Keeps _ _ (require_some-Keeps _ _) λ r. bind-Keeps _ _ (query-Keeps _) λ taken.
      bind-Keeps _ _ (require-Keeps _ _)
        λ _. bind-Keeps _ _ (exec-Keeps _ λ s h. h) λ _. pure-Keeps _

create-left :
    (token : String) (e : SlashCommandExecution) (db : SlashDb)
    → left token (create_slash_command_execution e db).0 ≤ left token db
unfolding create_slash_command_execution insert_execution query exec pure ◌>>=◌
create-left token e db = elim (Bool-cases (is_insertable e db)) [
  | inl insertable ↦ rw insertable (insert-left token e db (ground arith))
  | inr clashing ↦ rw clashing ((replay-Keeps token (left token db) e).from db (omega arith))
]

-- What a call grants is taken from what is left.
call-left :
    (token : String) (c : Call) (db : SlashDb)
    → grants token c db + left token (after_call c db) ≤ left token db
unfolding grants after_call
call-left token (creates e) db = let le = create-left token e db in omega arith
call-left token (responds id execution kind text payload now) db =
    let le =
      (respond-Keeps token (left token db) id execution kind text payload now).from db
        (omega arith) in
    omega arith
call-left token (uses other now) db = use-left token other now db

granted-le :
    (token : String) (cs : List Call) (db : SlashDb) → uses_granted token cs db ≤ left token db
unfolding uses_granted
granted-le token [] db = omega arith
granted-le token (c ∷ cs) db =
    let one = call-left token c db in
    let rest = granted-le token cs (after_call c db) in omega arith

left-le : (o : Option ExecutionRow) → left_by o ≤ 5
left-le none = omega arith
left-le (some r) = omega arith

-- Whatever calls of the interface are made, in any order, successful or not, a response token is let be used
-- at most five times.
pub five_responses : (token : String) (cs : List Call) (db : SlashDb) → uses_granted token cs db ≤ 5
five_responses token cs db =
    let granted = granted-le token cs db in
    let most = left-le (select_where (has_token token) db.executions) in omega arith
