-- ===== src/Store/Queue/Leases.antt =====
-- internal/store/agent_queue.go: what a lease protects.
use Prim.Native.String.{◌++◌}
use mathlib.Core.Path.{subst}
use tintwire.Prelude.{
  ℕ, ◌<◌, String, ◌≡◌, refl, ap, Bool, true, false, Option, none, some, Memᴰ, arith, eq_iff, ltb,
  Bool-cases, inl, inr, ◌&&◌, ◌==◌, string_eq, nat_eq, update_where, find_row-update_where,
  update_where_none,
}
use tintwire.Store.Op.{Op, exec, pure, transaction, ◌>>=◌, ◌>>◌, require, Error, forbidden}
use tintwire.Store.Fails.{Fails, read_then-Fails, transaction-Fails}
use tintwire.Store.Keeps.{
  Keeps, exec-Keeps, keeps_rules, query_then-Keeps, bind-Keeps, query-Keeps, require-Keeps,
}
use tintwire.Store.Tables.{Db, Agent, Command, CommandState}
use tintwire.Store.Authority.{require_channel_operator, channel_id_by_name}
use tintwire.Store.Queue.{
  is_started, find_command, set_commands, agent_command, AgentCommand, update_commands,
}
use tintwire.Store.Queue.Claiming.{
  claim_agent_command, claim_transaction, claim_head, renew_agent_command, complete_agent_command,
  fetch_claimed, head_of, drop_unauthorized, interrupt_expired, insert_reply, reply_message,
  renew_lease, finish,
}
use tintwire.Store.Queue.History.{
  Since, IsQueueTable, Since-refl, drop_unauthorized-Since, interrupt_expired-Since, found_by_id,
}
use tintwire.Store.Queue.Growth.{claim_head-Since, head_found, row_unique}

-- The database stays a queue table, and one row stays as it is.
record Holds (id : String) (r : Command) (before db : Db) : Type 0 where
  since : Since before db
  row : find_command id db ≡ some r

module _ (id : String) (r : Command) (before : Db) where
  unmatched-Holds :
      (p : Command → Bool) (f : Command → Command) (db : Db)
      → ((c : Command) → (f c).id ≡ c.id)
      → p r ≡ false
      → find_command id db ≡ some r
      → find_command id (set_commands (update_where p f) db) ≡ some r
  unmatched-Holds p f db ids no_match found =
      rw (find_row-update_where (λ c. c.id) p f db.commands id ids, found, no_match) refl

  module _ (now : ℕ) (started : is_started r.state ≡ true) (live : now < r.lease_until) where
    drop-Holds :
        (channel_id : String) → Keeps (Holds id r before) (exec (drop_unauthorized channel_id now))
    unfolding exec
    drop-Holds channel_id = exec-Keeps _ λ db h. record {
      since = (drop_unauthorized-Since before channel_id now).from db h.since;
      row = unmatched-Holds _ _ db (λ c. refl) (ground arith) h.row;
    }

    expire-Holds :
        (channel_id : String) → Keeps (Holds id r before) (exec (interrupt_expired channel_id now))
    unfolding exec
    expire-Holds channel_id = exec-Keeps _ λ db h. record {
      since = (interrupt_expired-Since before channel_id now).from db h.since;
      row = unmatched-Holds _ _ db (λ c. refl) (ground arith) h.row;
    }

    other_head :
        (db : Db) (channel_id : String) (head : Command)
        → IsQueueTable db
        → find_command id db ≡ some r
        → head_of channel_id db ≡ some head
        → ltb now head.lease_until ≡ false
        → (r.id == head.id) ≡ false
    other_head db channel_id head t found e free = elim (Bool-cases (r.id == head.id)) [
      | inl same ↦
          let equal : r ≡ head =
            row_unique db r head (found_by_id id db r found) (head_found db channel_id head t e).0
              same in
          absurd (ground (arith, ap (λ (c : Command). c.lease_until) equal))
      | inr other ↦ other
    ]

    claim_head-Holds :
        (db : Db) (channel_id owner : String) (head : Option Command)
        → head_of channel_id db ≡ head
        → Holds id r before db
        → Holds id r before (claim_head head owner now db).0
    unfolding pure exec ◌>>=◌
    claim_head-Holds db channel_id owner none e h = h
    claim_head-Holds db channel_id owner (some head) e h =
        elim (Bool-cases (ltb now head.lease_until)) [
          | inl leased ↦ rw leased h
          | inr free ↦ rw free (record {
            since =
                rw free at (claim_head-Since before db channel_id owner now (some head) e h.since);
            row =
                unmatched-Holds _ _ db (λ c. refl)
                  (other_head db channel_id head h.since.table h.row e free) h.row;
          })
        ]

    claim_transaction-Holds :
        (agent : Agent) (channel_id owner : String)
        → Keeps (Holds id r before) (claim_transaction agent channel_id owner now)
    unfolding claim_transaction
    claim_transaction-Holds agent channel_id owner = bind-Keeps _ _ (query-Keeps _) λ bound.
        bind-Keeps _ _ (require-Keeps _ _) λ _. bind-Keeps _ _ (drop-Holds channel_id) λ _.
          bind-Keeps _ _ (expire-Holds channel_id)
            λ _. query_then-Keeps _ _ λ db h. claim_head-Holds db channel_id owner _ refl h

    reads-Holds : (c : Option String) → Keeps (Holds id r before) (fetch_claimed c)
    unfolding agent_command
    reads-Holds none = search keeps_rules
    reads-Holds (some k) = search keeps_rules

    claim-Holds :
        (agent : Agent) (channel owner : String)
        → Keeps (Holds id r before) (claim_agent_command agent channel owner now)
    unfolding claim_agent_command require_channel_operator channel_id_by_name
    claim-Holds agent channel owner =
        search (keeps_rules, reads-Holds, claim_transaction-Holds) depth 9

-- A command that has been started and whose lease runs at the time of a claim is left as it is by the
-- claim, whichever bridge makes it, for whichever channel and owner, and whether it succeeds or fails.
pub claim_keeps_leases :
    (db : Db) (agent : Agent) (channel owner : String) (now : ℕ) (id : String) (r : Command)
    → IsQueueTable db
    → find_command id db ≡ some r
    → is_started r.state ≡ true
    → now < r.lease_until
    → find_command id (claim_agent_command agent channel owner now db).0 ≡ some r
claim_keeps_leases db agent channel owner now id r t found started live =
    ((claim-Holds id r db now started live agent channel owner).from db
      (record { since = Since-refl db t; row = found })).row

-- The bridge that may act on a command: the agent's, holding a running lease on a started command.
abbrev pub holds_lease : Agent → String → ℕ → Command → Bool
holds_lease agent owner now c =
    c.agent_id == agent.id && c.lease_owner == owner && ltb now c.lease_until && is_started c.state

module _ (db : Db) (agent : Agent) (id owner : String) (now : ℕ) (r : Command) (t : IsQueueTable db)
    (found : find_command id db ≡ some r) (stranger : holds_lease agent owner now r ≡ false) where
  the_row : (c : Command) → Memᴰ c db.commands → (c.id == id) ≡ true → c ≡ r
  the_row c m e =
      cc (subst (λ k. find_command k db ≡ some c) ((eq_iff c.id id).0 e) (t.keyed c m), found)

  no_row :
      (p : Command → Bool)
      → ((c : Command)
          → p c ≡ true
          → ((c.id == id) ≡ true) × (holds_lease agent owner now c ≡ true))
      → (c : Command) → Memᴰ c db.commands
      → p c ≡ false
  no_row p only c m = elim (Bool-cases (p c)) [
    | inl matched ↦
        let (named, holder) = only c matched in
        absurd (ground (arith, ap (holds_lease agent owner now) (the_row c m named)))
    | inr other ↦ other
  ]

  update-Fails {ℓ} :
      {A : Type ℓ} (p : Command → Bool) (f : Command → Command) (e : Error) (rest : Op Db A)
      → ((c : Command)
          → p c ≡ true
          → ((c.id == id) ≡ true) × (holds_lease agent owner now c ≡ true))
      → Fails db (update_commands p f >>= λ n. require (n == 1) e >> rest)
  unfolding update_commands require ◌>>=◌
  update-Fails p f e rest only =
      let none_hit = update_where_none p f db.commands (no_row p only) in
      record {
        unchanged = rw (none_hit.1, require, none_hit.0) refl;
        is_error = rw (none_hit.1, require) refl;
      }

  renew-Fails : (turn_id : String) → Fails db (renew_agent_command agent id owner turn_id now)
  unfolding renew_agent_command renew_lease agent_command require_channel_operator
  renew-Fails turn_id =
      let last : Fails db (
          renew_lease agent id owner turn_id now >>= λ n.
          require (n == 1) forbidden >> agent_command id) =
        update-Fails _ _ forbidden (agent_command id) (λ c p. ground arith) in
      search (read_then-Fails, keeps_rules, last) depth 11

  complete_row-Fails :
      (state : CommandState) (result : String) (c : AgentCommand) (text : String)
      → Fails db (
          transaction (
            finish agent id owner state result now >>= λ n.
            require (n == 1) forbidden
            >> (exec (insert_reply (reply_message agent c.row text now))
                >> pure ("msg_reply_" ++ id))))
  unfolding finish
  complete_row-Fails state result c text =
      transaction-Fails _ (update-Fails _ _ forbidden _ (λ c p. ground arith))

  complete-Fails :
      (state result : String) → Fails db (complete_agent_command agent id owner state result now)
  unfolding complete_agent_command agent_command require_channel_operator
  complete-Fails state result = search (read_then-Fails, keeps_rules, complete_row-Fails) depth 11

-- A caller that does not hold the lease of a started command (another agent or owner, a lease that
-- has run out, a command that is queued or closed) can neither renew the command nor complete it,
-- whatever turn, state and result it reports: both return an error and change nothing in the database.
pub holder_only :
    (db : Db) (agent : Agent) (id owner turn_id state result : String) (now : ℕ) (r : Command)
    → IsQueueTable db
    → find_command id db ≡ some r
    → holds_lease agent owner now r ≡ false
    → Fails db (renew_agent_command agent id owner turn_id now)
      × Fails db (complete_agent_command agent id owner state result now)
holder_only db agent id owner turn_id state result now r t found stranger = (
  renew-Fails db agent id owner now r t found stranger turn_id,
  complete-Fails db agent id owner now r t found stranger state result,
)
