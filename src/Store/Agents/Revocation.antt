-- ===== src/Store/Agents/Revocation.antt =====
-- `RevokeAgent` of internal/store/agents.go: what later calls cannot undo.
pub mod Kept
pub mod Final
use tintwire.Prelude.{
  ℕ, String, ◌≡◌, refl, sym, ap, ◌∙◌, Bool, true, false, not, Option, none, some, List, [], ◌∷◌,
  ◌&&◌, ◌||◌, ◌==◌, string_eq, nat_eq, if◌then◌else◌, arith, eq_iff, Bool-cases, Option-cases, inl,
  inr, Memᴰ, any_row, any_row_of_mem, mem-any_row, any_row-update_where, any_row-unchanged,
  any_row-cleared, find_row, find_row-update_where, update_where, select_where-holds,
  select_where-mem,
}
use mathlib.Core.Option
use tintwire.Store.Agents.{
  AgentRow, AgentRun, RunState, AgentDb, CreateAgentInput, NewIds, collides, new_agent_row,
  is_running, revoke_row, cancel_run,
}
use tintwire.Store.Agents.Runs.{is_open_run, close_run, new_run}

-- a row of the agent that could still authenticate
abbrev pub is_usable : String → AgentRow → Bool
is_usable agent_id r = r.agent.id == agent_id && (r.agent.enabled || not r.revoked)

-- How the tables of agents and runs may go on from `before` once the agent is revoked: its id is taken and
-- no row of it is usable, and a run that is over is in the same state.
pub record Since (agent_id : String) (before : List AgentRun) (agents : List AgentRow)
    (runs : List AgentRun) : Type 0 where
  pub taken : any_row (λ r. r.agent.id == agent_id) agents ≡ true
  pub dead : any_row (is_usable agent_id) agents ≡ false
  pub ended :
      (k : String) (r : AgentRun)
      → find_row (λ r. r.id) k before ≡ some r
      → is_running r.state ≡ false
      → (r' : AgentRun) × (find_row (λ r. r.id) k runs ≡ some r') × (r'.state ≡ r.state)

module _ (agent_id : String) (before : List AgentRun) where
  -- a row that is added has another id
  pub added-Since :
      (ids : NewIds) (input : CreateAgentInput) (agents : List AgentRow) (runs : List AgentRun)
      → any_row (collides ids input) agents ≡ false
      → Since agent_id before agents runs
      → Since agent_id before (new_agent_row ids input ∷ agents) runs
  added-Since ids input agents runs free h =
      let (r, m, here) = mem-any_row (λ r. r.agent.id == agent_id) agents h.taken in
      let apart : (ids.agent_id == agent_id) ≡ false =
        elim (Bool-cases (ids.agent_id == agent_id)) [
          | inr away ↦ away
          | inl same ↦
              let both : (r.agent.id == ids.agent_id) ≡ true =
                (eq_iff _ _).1
                  ((eq_iff _ _).0 here ∙ sym ((eq_iff ids.agent_id agent_id).0 same)) in
              cc (free, any_row_of_mem (collides ids input) agents r m (rw both refl))
        ] in
      record { taken = rw apart h.taken; dead = rw apart h.dead; ended = h.ended }

  pub revoked-Since :
      (other : String) (now : ℕ) (agents : List AgentRow) (runs : List AgentRun)
      → Since agent_id before agents runs
      → Since agent_id before (update_where (λ s. s.agent.id == other) revoke_row agents) runs
  revoked-Since other now agents runs h = record {
    taken =
        any_row-unchanged (λ s. s.agent.id == other) (λ r. r.agent.id == agent_id) revoke_row agents
          (λ r. elim (Bool-cases (r.agent.id == other)) [
            | inl revoked ↦ rw revoked refl
            | inr left ↦ rw left refl
          ])
        ∙ h.taken;
    dead =
        any_row-update_where (λ s. s.agent.id == other) (is_usable agent_id) revoke_row agents
          (λ r unusable. elim (Bool-cases (r.agent.id == other)) [
            | inl revoked ↦ rw revoked (ground arith)
            | inr left ↦ rw left unusable
          ])
          h.dead;
    ended = h.ended;
  }

  -- an update that leaves the state of a run that is over
  pub updated-Since :
      (p : AgentRun → Bool) (f : AgentRun → AgentRun) (agents : List AgentRow)
      (runs : List AgentRun)
      → ((r : AgentRun) → (f r).id ≡ r.id)
      → ((r : AgentRun) → is_running r.state ≡ false → (if p r then f r else r).state ≡ r.state)
      → Since agent_id before agents runs
      → Since agent_id before agents (update_where p f runs)
  updated-Since p f agents runs same state h = record {
    taken = h.taken;
    dead = h.dead;
    ended = λ k r known over.
        let (r', found, e) = h.ended k r known over in
        (
          if p r' then f r' else r',
          find_row-update_where (λ r. r.id) p f runs k same
              ∙ ap (Option.map (λ r. if p r then f r else r)) found,
          state r' (rw e over) ∙ e,
        );
  }

  pub started-Since :
      (run : AgentRun) (agents : List AgentRow) (runs : List AgentRun)
      → any_row (λ r. r.id == run.id) runs ≡ false
      → Since agent_id before agents runs
      → Since agent_id before agents (run ∷ runs)
  started-Since run agents runs free h = record {
    taken = h.taken;
    dead = h.dead;
    ended = λ k r known over.
        let (r', found, e) = h.ended k r known over in
        elim (Bool-cases (run.id == k)) [
          | inr apart ↦ (r', rw apart found, e)
          | inl same ↦
              let here : (r'.id == k) ≡ true = select_where-holds (λ r. r.id == k) runs r' found in
              let both : (r'.id == run.id) ≡ true =
                (eq_iff _ _).1 ((eq_iff _ _).0 here ∙ sym ((eq_iff run.id k).0 same)) in
              cc (
                free,
                any_row_of_mem (λ r. r.id == run.id) runs r'
                    (select_where-mem (λ r. r.id == k) runs r' found) both,
              )
        ];
  }
