-- ===== src/Store/Actions/Once.antt =====
-- internal/store/store.go: a key that is reserved to run an action is held while it may run.
use tintwire.Prelude.{
  ℕ, ◌+◌, ◌≤◌, String, ◌≡◌, refl, ap, Bool, true, false, Option, none, some, List, [], ◌∷◌, ◌==◌,
  string_eq, nat_eq, find_row, delete_where, arith, eq_iff, Bool-cases, inl, inr, All,
  if◌then◌else◌,
}
use tintwire.Store.Op.{
  Result, ok, err, query, exec, require, pure, ◌>>=◌, constraint, import_conflict,
}
use tintwire.Store.Keeps.{require_then-kept}
use tintwire.Store.Ensures.{
  Ensures, query_then-Ensures, require_then-Ensures, exec_then-Ensures, pure-Ensures,
}
use tintwire.Store.Actions.{
  ActionExecution, ActionRow, ActionDb, row_key, is_stale, running, same_action, set_executions,
  insert_or_find, reserve_action_execution,
}

-- The key of `e` is held by the run that was reserved at `now`.
abbrev Holds : ActionExecution → ℕ → ActionDb → Type 0
Holds e now db =
    find_row row_key e.key db.executions ≡ some (record { execution = running e; created_at = now })

insert-Ensures :
    (e : ActionExecution) (now : ℕ) (row : Option ActionRow) (db : ActionDb)
    → Ensures (λ result after. result.1 ≡ true → Holds e now after) (insert_or_find e now row) db
unfolding insert_or_find
insert-Ensures e now none db =
    let same : (e.key == e.key) ≡ true = (eq_iff e.key e.key).1 refl in
    query_then-Ensures _ _ _ (
      require_then-Ensures _ _ _ _
        λ allowed. exec_then-Ensures _ _ _ (pure-Ensures _ _ λ _. rw same refl))
insert-Ensures e now (some r) db = require_then-Ensures _ _ _ _ λ same. pure-Ensures _ _ λ h. cc h

reserve-Ensures :
    (e : ActionExecution) (now : ℕ) (db : ActionDb)
    → Ensures
        (λ result after. result.1 ≡ true → Holds e now after)
        (reserve_action_execution e now)
        db
unfolding reserve_action_execution
reserve-Ensures e now db = exec_then-Ensures _ _ _ (
    query_then-Ensures _ _ _
      (record { from = λ result done first. (insert-Ensures e now _ _).from result done first }))

-- The row found by a key is still found where other rows are deleted.
find_row-undeleted :
    (p : ActionRow → Bool) (rows : List ActionRow) (key : String) (r : ActionRow)
    → find_row row_key key rows ≡ some r
    → p r ≡ false
    → find_row row_key key (delete_where p rows) ≡ some r
find_row-undeleted p [] key r found stays = found
find_row-undeleted p (q ∷ rows) key r found stays = elim (Bool-cases (row_key q == key)) [
  | inl here ↦ let same : q ≡ r = cc (rw here at found) in rw (same, stays) (rw (← same, here) refl)
  | inr there ↦
      let rest = find_row-undeleted p rows key r (rw there at found) stays in
      elim (Bool-cases (p q)) [ inl gone ↦ rw gone rest | inr kept ↦ rw (kept, there) rest ]
]

-- A run that was reserved 15 minutes ago at most is not deleted.
fresh_row :
    (e : ActionExecution) (key : String) (now later : ℕ) (db : ActionDb)
    → later ≤ now + 900000
    → Holds e now db
    → Holds e now (set_executions (delete_where (is_stale key later)) db)
fresh_row e key now later db soon held =
    find_row-undeleted (is_stale key later) db.executions e.key _ held (ground arith)

insert-Holds :
    (e other : ActionExecution) (now later : ℕ) (row : Option ActionRow) (db : ActionDb)
    → find_row row_key other.key db.executions ≡ row
    → Holds e now db
    → Holds e now (insert_or_find other later row db).0
unfolding insert_or_find query exec pure ◌>>=◌
insert-Holds e other now later none db absent held = elim (Bool-cases (other.key == e.key)) [
  | inl same ↦
      cc
        (ap (λ k. find_row row_key k db.executions) ((eq_iff other.key e.key).0 same), absent, held)
  | inr apart ↦
      require_then-kept (Holds e now) _ constraint
        (λ _.
          exec (
            set_executions
              (λ rows. record { execution = running other; created_at = later } ∷ rows))
          >>= λ _. pure (record other { status = "running" }, true))
        db held λ allowed. rw apart held
]
insert-Holds e other now later (some r) db found held =
    require_then-kept (Holds e now) _ import_conflict (λ _. pure (r.execution, false)) db held
      λ same. held

reserve-Holds :
    (e other : ActionExecution) (now later : ℕ) (db : ActionDb)
    → later ≤ now + 900000
    → Holds e now db
    → Holds e now (reserve_action_execution other later db).0
unfolding reserve_action_execution query exec ◌>>=◌
reserve-Holds e other now later db soon held =
    insert-Holds e other now later _ _ refl (fresh_row e other.key now later db soon held)

-- what a reservation of a held key is told
abbrev pub told_of : ActionExecution → ActionExecution → Result (ActionExecution × Bool)
told_of e other =
    if same_action (running e) other then ok (running e, false) else err import_conflict

found_again :
    (e other : ActionExecution) (now later : ℕ) (db : ActionDb)
    → later ≤ now + 900000
    → other.key ≡ e.key
    → Holds e now db
    → (reserve_action_execution other later db).1 ≡ told_of e other
unfolding reserve_action_execution insert_or_find query exec pure require ◌>>=◌
found_again e other now later db soon key held =
    rw (key, fresh_row e e.key now later db soon held)
      (elim (Bool-cases (same_action (running e) other)) [
        | inl same ↦ rw same refl
        | inr apart ↦ rw apart refl
      ])

-- The table after a sequence of reservations, each at its time, whether it succeeds or fails.
pub after_reservations : List (ActionExecution × ℕ) → ActionDb → ActionDb
after_reservations [] db = db
after_reservations ((e, at) ∷ rest) db =
    after_reservations rest (reserve_action_execution e at db).0

reservations-Hold :
    (e : ActionExecution) (now : ℕ) (calls : List (ActionExecution × ℕ)) (db : ActionDb)
    → All (λ c. c.1 ≤ now + 900000) calls
    → Holds e now db
    → Holds e now (after_reservations calls db)
unfolding after_reservations
reservations-Hold e now [] db soon held = held
reservations-Hold e now ((other, at) ∷ rest) db soon held =
    reservations-Hold e now rest _ soon.1 (reserve-Holds e other now at db soon.0 held)

-- A call that was told to run an action holds its key for 15 minutes: whatever reservations of any keys
-- follow in that time, a reservation under this key is not told to run. It gets the running
-- execution if notification, action and user are the same, and is refused as a conflict otherwise.
pub reserve_once :
    (e reserved other : ActionExecution) (now later : ℕ) (calls : List (ActionExecution × ℕ))
    (db : ActionDb)
    → (reserve_action_execution e now db).1 ≡ ok (reserved, true)
    → All (λ c. c.1 ≤ now + 900000) calls
    → later ≤ now + 900000
    → other.key ≡ e.key
    → (reserve_action_execution other later
        (after_reservations calls (reserve_action_execution e now db).0)).1
      ≡ told_of e other
reserve_once e reserved other now later calls db done times soon key =
    found_again e other now later _ soon key (
      reservations-Hold e now calls _ times
        ((reserve-Ensures e now db).from (reserved, true) done refl))
