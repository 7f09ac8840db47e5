-- ===== src/Store/Agents/Revocation/Final.antt =====
-- `RevokeAgent` of internal/store/agents.go: a revoked agent is gone for good.
use tintwire.Prelude.{
  ℕ, ◌≢◌, String, ◌≡◌, refl, ap, ◌∙◌, true, false, some, List, ◌&&◌, ◌==◌, string_eq, nat_eq,
  if◌then◌else◌, arith, eq_iff, Bool-cases, inl, inr, Memᴰ, any_row, any_row_of_mem,
  any_row-unchanged, any_row-cleared, find_row, find_row-update_where, update_where,
  select_where-holds, select_where-mem, trim_space,
}
use mathlib.Core.Option
use tintwire.Store.Op.{ok}
use tintwire.Store.Ensures.{
  Ensures, query_then-Ensures, require_then-Ensures, exec_then-Ensures, exec-Ensures, pure-Ensures,
  require_some_then-Ensures, transaction-Ensures,
}
use tintwire.Store.Tables.{User}
use tintwire.Store.Login.{Platform}
use tintwire.Store.Agents.{
  AgentRow, AgentRun, AgentDb, is_live_agent, agent_for_token, agent_for_oauth_subject, is_running,
  revoke_row, cancel_run, revoke_agent,
}
use tintwire.Store.Agents.Calls.{Call, after_calls}
use tintwire.Store.Agents.Revocation.{is_usable}
use tintwire.Store.Agents.Revocation.Kept.{Goes, after_calls-Goes}

-- the runs of an agent are over
abbrev pub AreOver : String → List AgentRun → List AgentRun → Type 0
AreOver agent_id runs after =
    (k : String) (r : AgentRun)
    → find_row (λ r. r.id) k runs ≡ some r
    → r.agent_id ≡ agent_id
    → (r' : AgentRun) × (find_row (λ r. r.id) k after ≡ some r') × (is_running r'.state ≡ false)

-- What `RevokeAgent` has done when it succeeds.
record Revoked (name : String) (s t : AgentDb) : Type 0 where
  pub row : AgentRow
  pub found : find_row (λ r. r.agent.name) (trim_space name) s.agents ≡ some row
  pub goes : Goes row.agent.id t.runs t
  pub over : AreOver row.agent.id s.runs t.runs

no_usable :
    (agent_id : String) (rows : List AgentRow)
    → any_row (is_usable agent_id) (update_where (λ s. s.agent.id == agent_id) revoke_row rows)
      ≡ false
no_usable agent_id rows =
    any_row-cleared (λ s. s.agent.id == agent_id) (is_usable agent_id) revoke_row rows
      λ r. elim (Bool-cases (r.agent.id == agent_id)) [
        | inl here ↦ rw here (ground arith)
        | inr there ↦ rw (there, there) refl
      ]

still_taken :
    (agent_id : String) (rows : List AgentRow)
    → any_row
        (λ r. r.agent.id == agent_id)
        (update_where (λ s. s.agent.id == agent_id) revoke_row rows)
      ≡ any_row (λ r. r.agent.id == agent_id) rows
still_taken agent_id rows =
    any_row-unchanged (λ s. s.agent.id == agent_id) (λ r. r.agent.id == agent_id) revoke_row rows
      λ r. elim (Bool-cases (r.agent.id == agent_id)) [
        | inl here ↦ rw here here
        | inr there ↦ rw there there
      ]

cancelled-AreOver :
    (agent_id : String) (now : ℕ) (runs : List AgentRun)
    → AreOver agent_id runs (
        update_where
          (λ run. run.agent_id == agent_id && is_running run.state)
          (cancel_run now)
          runs)
cancelled-AreOver agent_id now runs k r found his =
    let p = λ (run : AgentRun). run.agent_id == agent_id && is_running run.state in
    (
      if p r then cancel_run now r else r,
      find_row-update_where (λ r. r.id) p (cancel_run now) runs k (λ r. refl)
          ∙ ap (Option.map (λ r. if p r then cancel_run now r else r)) found,
      elim (Bool-cases (is_running r.state)) [
        | inl running ↦ rw (running, (eq_iff _ _).1 his) refl
        | inr over ↦ rw over (ground arith)
      ],
    )

revoked :
    (name : String) (now : ℕ) (s : AgentDb) (t : AgentDb) (r : AgentRow)
    → find_row (λ r. r.agent.name) (trim_space name) s.agents ≡ some r
    → t.agents ≡ update_where (λ s. s.agent.id == r.agent.id) revoke_row s.agents
    → t.runs
      ≡ update_where
          (λ run. run.agent_id == r.agent.id && is_running run.state)
          (cancel_run now)
          s.runs
    → Revoked name s t
revoked name now s t r found agents runs = record {
  row = r;
  found = found;
  goes = record {
    taken = rw agents (
        still_taken r.agent.id s.agents
        ∙ any_row_of_mem (λ s. s.agent.id == r.agent.id) s.agents r
            (select_where-mem (λ r. r.agent.name == trim_space name) s.agents r found)
            ((eq_iff _ _).1 refl));
    dead = rw agents (no_usable r.agent.id s.agents);
    ended = λ k r known over. (r, known, refl);
  };
  over = rw runs (cancelled-AreOver r.agent.id now s.runs);
}

revoke-Ensures :
    (name : String) (now : ℕ) (s : AgentDb)
    → Ensures (λ _ t. Revoked name s t) (revoke_agent name now) s
unfolding revoke_agent
revoke-Ensures name now s = transaction-Ensures _ _ (
    query_then-Ensures _ _ _ (
      require_some_then-Ensures _ _ _ _ λ r found.
        exec_then-Ensures _ _ _
          (exec_then-Ensures _ _ _ (exec-Ensures _ _ (revoked name now s _ r found refl refl)))))

module _ (platform : Platform) (agent_id : String) (db : AgentDb) where
  usable_found :
      (r : AgentRow)
      → any_row (is_usable agent_id) db.agents ≡ false
      → Memᴰ r db.agents
      → r.agent.enabled ≡ true
      → r.agent.id ≢ agent_id
  usable_found r dead m enabled same = cc (
    dead,
    any_row_of_mem (is_usable agent_id) db.agents r m (rw ((eq_iff _ _).1 same, enabled) refl),
  )

  token-Ensures :
      (token : String) (now : ℕ)
      → any_row (is_usable agent_id) db.agents ≡ false
      → Ensures (λ result _. result.0.agent.id ≢ agent_id) (agent_for_token platform token now) db
  unfolding agent_for_token
  token-Ensures token now dead = require_then-Ensures _ _ _ _ λ prefixed. query_then-Ensures _ _ _ (
      require_some_then-Ensures _ _ _ _ λ c known. query_then-Ensures _ _ _ (
        require_some_then-Ensures _ _ _ _ λ r live. query_then-Ensures _ _ _ (
          query_then-Ensures _ _ _ (
            require_some_then-Ensures _ _ _ _ λ u principal. require_then-Ensures _ _ _ _ λ owned.
              exec_then-Ensures _ _ _ (
                pure-Ensures _ _ (
                  let holds =
                    select_where-holds (λ r. r.agent.id == c.agent_id && is_live_agent r) db.agents
                      r live in
                  usable_found r dead
                    (select_where-mem (λ r. r.agent.id == c.agent_id && is_live_agent r) db.agents r
                      live)
                    (ground arith)))))))

  subject-Ensures :
      (subject : String)
      → any_row (is_usable agent_id) db.agents ≡ false
      → Ensures
          (λ result _. result.0.agent.id ≢ agent_id)
          (agent_for_oauth_subject platform subject)
          db
  unfolding agent_for_oauth_subject
  subject-Ensures subject dead = query_then-Ensures _ _ _ (
      require_some_then-Ensures _ _ _ _ λ r known. query_then-Ensures _ _ _ (
        require_some_then-Ensures _ _ _ _ λ u principal. require_then-Ensures _ _ _ _ λ enabled.
          pure-Ensures _ _ (usable_found r dead (select_where-mem _ db.agents r known) enabled)))

-- What is left of an agent after its revocation and later calls: no token and no OAuth subject stands for it,
-- and the runs that it had are over.
pub record Gone (platform : Platform) (name : String) (s t : AgentDb) : Type 0 where
  pub row : AgentRow
  pub found : find_row (λ r. r.agent.name) (trim_space name) s.agents ≡ some row
  pub token :
      (token : String) (now : ℕ) (r : AgentRow) (u : User)
      → (agent_for_token platform token now t).1 ≡ ok (r, u)
      → r.agent.id ≢ row.agent.id
  pub subject :
      (subject : String) (r : AgentRow) (u : User)
      → (agent_for_oauth_subject platform subject t).1 ≡ ok (r, u)
      → r.agent.id ≢ row.agent.id
  pub over : AreOver row.agent.id s.runs t.runs

still_over :
    (agent_id : String) (runs middle : List AgentRun) (t : AgentDb)
    → AreOver agent_id runs middle
    → Goes agent_id middle t
    → AreOver agent_id runs t.runs
still_over agent_id runs middle t over goes k r found his =
    let (r', there, done) = over k r found his in
    let (r'', later, same) = goes.ended k r' there done in (r'', later, rw same done)

-- Once an agent is revoked, whatever calls of the interface follow, successful or not, in any order and at
-- any times: no token and no OAuth subject authenticates the agent, and each run that it had at the
-- revocation is still there and is not running.
pub revoked_for_good :
    (platform : Platform) (name : String) (now : ℕ) (db : AgentDb) (cs : List Call)
    → (revoke_agent name now db).1 ≡ ok tt
    → Gone platform name db (after_calls platform cs (revoke_agent name now db).0)
revoked_for_good platform name now db cs done =
    let t = (revoke_agent name now db).0 in
    let r = (revoke-Ensures name now db).from tt done in
    let final = after_calls platform cs t in
    let goes = after_calls-Goes r.row.agent.id t.runs platform cs t r.goes in
    record {
      row = r.row;
      found = r.found;
      token = λ token later a u granted.
          (token-Ensures platform r.row.agent.id final token later goes.dead).from (a, u) granted;
      subject = λ subject a u granted.
          (subject-Ensures platform r.row.agent.id final subject goes.dead).from (a, u) granted;
      over = still_over r.row.agent.id db.runs t.runs final r.over goes;
    }
