-- ===== src/Store/Queue/Oldest.antt =====
-- internal/store/agent_queue.go: which command a claim takes.
use tintwire.Prelude.{
  ℕ, ◌+◌, ◌≤◌, ◌<◌, String, ◌≡◌, refl, ◌∙◌, Bool, true, false, Option, none, some, Memᴰ, arith,
  eq_iff, ltb, Bool-cases, Option-cases, inl, inr, ◌⊎◌, ◌&&◌, ◌==◌, string_eq, nat_eq, update_where,
  count_where, find_row-update_where, if◌then◌else◌,
}
use tintwire.Store.Op.{Result, ok, exec, query, pure, ◌>>=◌, require}
use tintwire.Store.Tables.{Db, Agent, Command}
use tintwire.Store.Queue.{is_open, is_started, set_commands, find_command}
use tintwire.Store.Queue.Claiming.{
  claim_transaction, claim_head, head_of, drop_unauthorized, interrupt_expired, claimed_state,
  lease_ms,
}
use tintwire.Store.Queue.History.{
  IsQueueTable, Since-refl, drop_unauthorized-Since, interrupt_expired-Since,
}
use tintwire.Store.Queue.Growth.{head_found}
use tintwire.Store.Queue.Order.{
  IsOldest, leased, head-IsOldest, head_channel, no_head, stays-IsOldest,
}

-- A claim took the command `row`, whose lease had run out, and leases it to `owner` for a minute.
pub record Taken (before : Db) (channel_id owner : String) (now : ℕ)
    (answer : Result (Option String)) (after : Db) : Type 0 where
  pub row : Command
  pub earlier : Command
  pub was : find_command row.id before ≡ some earlier
  pub free : earlier.lease_until ≤ now
  pub answered : answer ≡ ok (some row.id)
  pub found : find_command row.id after ≡ some row
  pub of_channel : row.channel_id ≡ channel_id
  pub started : is_started row.state ≡ true
  pub holder : row.lease_owner ≡ owner
  pub term : row.lease_until ≡ now + 60000
  pub oldest : IsOldest row channel_id after

-- A claim took nothing: no command of the channel is open, or the oldest has a running lease.
pub record Blocked (channel_id : String) (now : ℕ) (answer : Result (Option String)) (after : Db)
    : Type 0 where
  pub answered : answer ≡ ok none
  pub reason :
      ((c : Command) → Memᴰ c after.commands → c.channel_id ≡ channel_id → is_open c.state ≡ false)
      ⊎ ((row : Command) × (find_command row.id after ≡ some row)
          × (row.channel_id ≡ channel_id)
          × (now < row.lease_until)
          × IsOldest row channel_id after)

abbrev prepared : String → ℕ → Db → Db
prepared channel_id now db = interrupt_expired channel_id now (drop_unauthorized channel_id now db)

prepared-IsQueueTable :
    (channel_id : String) (now : ℕ) (db : Db)
    → IsQueueTable db
    → IsQueueTable (prepared channel_id now db)
unfolding exec
prepared-IsQueueTable channel_id now db t =
    ((interrupt_expired-Since db channel_id now).from (drop_unauthorized channel_id now db)
      ((drop_unauthorized-Since db channel_id now).from db (Since-refl db t))).table

claim_transaction_lem :
    (db : Db) (agent : Agent) (channel_id owner : String) (now : ℕ)
    → count_where (λ b. b.channel_id == channel_id && b.agent_id == agent.id) db.bindings ≡ 1
    → claim_transaction agent channel_id owner now db
      ≡ claim_head
          (head_of channel_id (prepared channel_id now db))
          owner
          now
          (prepared channel_id now db)
unfolding claim_transaction query require exec ◌>>=◌
claim_transaction_lem db agent channel_id owner now bound = rw (bound, require) refl

claim_head_lem :
    (db : Db) (owner : String) (now : ℕ) (head : Command)
    → find_command head.id db ≡ some head
    → head.lease_until ≤ now
    → ((claim_head (some head) owner now db).1 ≡ ok (some (head.id)))
      × (find_command head.id (claim_head (some head) owner now db).0
          ≡ some (leased head owner now))
unfolding exec pure ◌>>=◌
claim_head_lem db owner now head found free =
    let over : ltb now head.lease_until ≡ false = ground arith in
    let own : (head.id == head.id) ≡ true = (eq_iff head.id head.id).1 refl in
    (
      rw over refl,
      rw over (
          find_row-update_where (λ c. c.id) (λ c. c.id == head.id)
            (λ c. record c {
              state = claimed_state head.state;
              lease_owner = owner;
              lease_until = now + lease_ms;
              updated_at = now;
            })
            db.commands head.id (λ c. refl)
          ∙ rw (found, own) refl),
    )

-- An update that leaves ids and leases alone finds a row whose lease was the same before.
same_lease :
    (p : Command → Bool) (f : Command → Command) (db : Db) (id : String) (r : Command)
    → ((c : Command) → (f c).id ≡ c.id)
    → ((c : Command) → (f c).lease_until ≡ c.lease_until)
    → find_command id (set_commands (update_where p f) db) ≡ some r
    → (w : Command) × (find_command id db ≡ some w) × (w.lease_until ≡ r.lease_until)
same_lease p f db id r ids leases h = elim (Option-cases (find_command id db)) [
  | inl missing ↦ cc (rw (find_row-update_where (λ c. c.id) p f db.commands id ids, missing) at h)
  | inr (w, found) ↦
      let changed : some (if p w then f w else w) ≡ some r =
        rw (find_row-update_where (λ c. c.id) p f db.commands id ids, found) at h in
      elim (Bool-cases (p w)) [
        | inl hit ↦ (w, found, cc (rw hit at changed, leases w))
        | inr miss ↦ (w, found, cc (rw miss at changed))
      ]
]

lease_before :
    (db : Db) (channel_id id : String) (now : ℕ) (r : Command)
    → find_command id (prepared channel_id now db) ≡ some r
    → (w : Command) × (find_command id db ≡ some w) × (w.lease_until ≡ r.lease_until)
lease_before db channel_id id now r h =
    let (v, found, same) =
      same_lease _ _ (drop_unauthorized channel_id now db) id r (λ c. refl) (λ c. refl) h in
    let (w, found', same') = same_lease _ _ db id v (λ c. refl) (λ c. refl) found in
    (w, found', same' ∙ same)

-- Where the channel is bound to the agent, a claim either takes the oldest open command of the channel,
-- whose lease has run out, returns its id and leaves it started and leased to the caller for a minute;
-- or it takes nothing, and then no command of the channel is open or the oldest one has a running lease.
pub claim_takes_oldest :
    (db : Db) (agent : Agent) (channel_id owner : String) (now : ℕ)
    → count_where (λ b. b.channel_id == channel_id && b.agent_id == agent.id) db.bindings ≡ 1
    → IsQueueTable db
    → Taken db channel_id owner now
        (claim_transaction agent channel_id owner now db).1
        (claim_transaction agent channel_id owner now db).0
      ⊎ Blocked channel_id now
          (claim_transaction agent channel_id owner now db).1
          (claim_transaction agent channel_id owner now db).0
unfolding exec pure ◌>>=◌
claim_takes_oldest db agent channel_id owner now bound t =
    rw (claim_transaction_lem db agent channel_id owner now bound)
      (elim (Option-cases (head_of channel_id (prepared channel_id now db))) [
        | inl empty ↦ rw empty (
            inr (record {
              answered = refl;
              reason = inl (no_head (prepared channel_id now db) channel_id empty);
            }))
        | inr (head, e) ↦
            let table = prepared-IsQueueTable channel_id now db t in
            let (found, active) = head_found (prepared channel_id now db) channel_id head table e in
            elim (Bool-cases (ltb now head.lease_until)) [
              | inl running ↦
                  rw (e, running)
                    (inr (record {
                      answered = refl;
                      reason = inr (
                        head,
                        found,
                        head_channel (prepared channel_id now db) channel_id head e,
                        ground arith,
                        head-IsOldest (prepared channel_id now db) channel_id head e,
                      );
                    }))
              | inr over ↦
                  let (w, was, same) = lease_before db channel_id head.id now head found in
                  let done =
                    claim_head_lem (prepared channel_id now db) owner now head found
                      (ground arith) in
                  rw (e, over)
                    (inl (record {
                      row = leased head owner now;
                      earlier = w;
                      was = was;
                      free = ground arith;
                      answered = refl;
                      found = rw over at (done.1);
                      of_channel = head_channel (prepared channel_id now db) channel_id head e;
                      started = ground arith;
                      holder = refl;
                      term = refl;
                      oldest =
                          stays-IsOldest (prepared channel_id now db) channel_id owner now head
                            table e;
                    }))
            ]
      ])
