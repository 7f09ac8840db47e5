-- ===== src/Store/Actions.antt =====
-- internal/store/store.go: an action of a notification is reserved under a key before it is run.
pub mod Once
mod Tests
use tintwire.Prelude.{
  ℕ, ◌+◌, String, Bool, true, false, not, Option, none, some, List, ◌∷◌, ◌&&◌, ◌==◌, string_eq,
  nat_eq, ltb, if◌then◌else◌, any_row, find_row, delete_where,
}
use tintwire.Store.Op.{
  Op, pure, fail, query, exec, require, require_some, ◌>>=◌, ◌>>◌, constraint, import_conflict,
}

pub record ActionExecution : Type 0 where
  pub key : String
  pub status : String
  pub response_text : String
  pub notification_id : String
  pub action_index : ℕ
  pub user_id : String

-- a row of `action_executions`
pub record ActionRow : Type 0 where
  pub execution : ActionExecution
  pub created_at : ℕ

-- The table, and the keys of the tables that it references.
pub record ActionDb : Type 0 where
  pub executions : List ActionRow
  pub notification_ids : List String
  pub user_ids : List String

abbrev pub row_key : ActionRow → String
row_key r = r.execution.key

abbrev pub set_executions : (List ActionRow → List ActionRow) → ActionDb → ActionDb
set_executions f db = record db { executions = f db.executions }

-- a run that has not ended 15 minutes after it was reserved
abbrev pub is_stale : String → ℕ → ActionRow → Bool
is_stale key now r =
    row_key r == key && r.execution.status == "running" && ltb (r.created_at + 900000) now

abbrev pub has_references : ActionExecution → ActionDb → Bool
has_references e db =
    any_row (λ id. id == e.notification_id) db.notification_ids
    && any_row (λ id. id == e.user_id) db.user_ids

-- what the `INSERT` stores
abbrev pub running : ActionExecution → ActionExecution
running e = record e { status = "running"; response_text = "" }

abbrev pub same_action : ActionExecution → ActionExecution → Bool
same_action existing e =
    existing.notification_id == e.notification_id
    && existing.action_index == e.action_index
    && existing.user_id == e.user_id

-- the `INSERT` of a reservation, with the row that has its key
unfoldable pub insert_or_find :
    ActionExecution → ℕ → Option ActionRow → Op ActionDb (ActionExecution × Bool)
insert_or_find e now none = do
  allowed ← query (has_references e)
  require allowed constraint
  exec (set_executions (λ rows. record { execution = running e; created_at = now } ∷ rows))
  pure (record e { status = "running" }, true)
insert_or_find e now (some r) = do
  require (same_action (r.execution) e) import_conflict
  pure (r.execution, false)

-- `ReserveActionExecution`
unfoldable pub reserve_action_execution : ActionExecution → ℕ → Op ActionDb (ActionExecution × Bool)
unfolding insert_or_find
reserve_action_execution e now = do
  exec (set_executions (delete_where (is_stale (e.key) now)))
  row ← query (λ db. find_row row_key (e.key) db.executions)
  insert_or_find e now row
