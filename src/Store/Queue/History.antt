-- ===== src/Store/Queue/History.antt =====
-- internal/store/agent_queue.go: what every operation does to the rows of `agent_commands`.
use Prim.Native.String.{◌++◌}
use mathlib.Core.Path.{subst}
use tintwire.Prelude.{
  ℕ, String, ◌≡◌, ◌≢◌, refl, sym, ap, ◌∙◌, Bool, true, false, none, some, Memᴰ, ◌==◌, string_eq,
  nat_eq, if◌then◌else◌, arith, eq_iff, update_where, IsKeyed, find_row-update_where,
  update_where-IsKeyed, mem-update_where, key_kept, select_where-holds, Bool-cases, inl, inr,
}
use tintwire.Store.Op.{exec}
use tintwire.Store.Keeps.{Keeps, exec-Keeps, bind-Keeps, query-Keeps, require-Keeps}
use tintwire.Store.Tables.{Db, User, Agent, Message, Command, CommandState}
use tintwire.Store.Queue.{
  is_open, is_queued, find_command, set_commands, record_queue_control, insert_binding,
  update_commands,
}
use tintwire.Store.Queue.Claiming.{
  drop_unauthorized, interrupt_expired, insert_reply, renew_lease, finish, Control,
  cancel_statement, reconcile_statement, control_statement,
}

-- How a row may change, in one step or in many.
pub record Evolves (r r' : Command) : Type 0 where
  pub same_id : r'.id ≡ r.id
  pub same_message : r'.message_id ≡ r.message_id
  pub same_channel : r'.channel_id ≡ r.channel_id
  pub same_agent : r'.agent_id ≡ r.agent_id
  pub same_author : r'.author_id ≡ r.author_id
  pub closed_stays : is_open r.state ≡ false → r' ≡ r
  pub never_requeued : is_queued r.state ≡ false → is_queued r'.state ≡ false
  pub turn_kept : r.turn_id ≢ "" → r'.turn_id ≡ r.turn_id
  pub cancel_kept : r.cancel_requested ≡ true → r'.cancel_requested ≡ true

pub Evolves-refl : (r : Command) → Evolves r r
Evolves-refl r = ground arith

pub Evolves-trans : (r s t : Command) → Evolves r s → Evolves s t → Evolves r t
Evolves-trans r s t a b = record {
  same_id = b.same_id ∙ a.same_id;
  same_message = b.same_message ∙ a.same_message;
  same_channel = b.same_channel ∙ a.same_channel;
  same_agent = b.same_agent ∙ a.same_agent;
  same_author = b.same_author ∙ a.same_author;
  closed_stays = λ h. let e = a.closed_stays h in b.closed_stays (rw e h) ∙ e;
  never_requeued = λ h. b.never_requeued (a.never_requeued h);
  turn_kept = λ h. let e = a.turn_kept h in b.turn_kept (rw e h) ∙ e;
  cancel_kept = λ h. b.cancel_kept (a.cancel_kept h);
}

-- The primary key of `agent_commands`, and how `enqueueCommand` makes it.
pub record IsQueueTable (db : Db) : Type 0 where
  pub keyed : IsKeyed (λ c. c.id) db.commands
  pub derived : (c : Command) → Memᴰ c db.commands → c.id ≡ "cmd_" ++ c.message_id

-- Since `before`, every row of the queue is still there, and has changed only as it may.
pub record Since (before db : Db) : Type 0 where
  pub table : IsQueueTable db
  pub row :
      (id : String) (r : Command)
      → find_command id before ≡ some r
      → (r' : Command) × (find_command id db ≡ some r') × Evolves r r'

pub Since-refl : (db : Db) → IsQueueTable db → Since db db
Since-refl db t = record { table = t; row = λ id r found. (r, found, Evolves-refl r) }

pub found_by_id :
    (id : String) (db : Db) (s : Command)
    → find_command id db ≡ some s
    → find_command s.id db ≡ some s
found_by_id id db s e =
    let same : s.id ≡ id =
      (eq_iff s.id id).0 (select_where-holds (λ c. c.id == id) db.commands s e) in
    subst (λ k. find_command k db ≡ some s) (sym same) e

module _ (before : Db) where
  update-table :
      (p : Command → Bool) (f : Command → Command) (db : Db)
      → ((r : Command) → (f r).id ≡ r.id)
      → ((r : Command) → (f r).message_id ≡ r.message_id)
      → IsQueueTable db
      → IsQueueTable (set_commands (update_where p f) db)
  update-table p f db ids messages t = record {
    keyed = update_where-IsKeyed (λ c. c.id) p f db.commands ids t.keyed;
    derived = λ c m.
        let (s, n, e) = mem-update_where p f db.commands c m in
        ap (λ x. x.id) e
        ∙ key_kept (λ x. x.id) p f s ids
        ∙ t.derived s n
        ∙ sym (
            ap (λ x. "cmd_" ++ x.message_id) e
            ∙ ap (λ x. "cmd_" ++ x) (key_kept (λ x. x.message_id) p f s messages));
  }

  -- An `UPDATE` that lets each of its rows evolve.
  pub update-Since :
      (p : Command → Bool) (f : Command → Command) (db : Db)
      → ((r : Command) → (f r).id ≡ r.id)
      → ((r : Command) → (f r).message_id ≡ r.message_id)
      → ((r : Command) → find_command r.id db ≡ some r → p r ≡ true → Evolves r (f r))
      → Since before db
      → Since before (set_commands (update_where p f) db)
  update-Since p f db ids messages evolves h = record {
    table = update-table p f db ids messages h.table;
    row = λ id r found.
        let (s, e, v) = h.row id r found in
        (
          (if p s then f s else s),
          rw (find_row-update_where (λ c. c.id) p f db.commands id ids, e) refl,
          Evolves-trans r s _ v (elim (Bool-cases (p s)) [
            | inl changed ↦ rw changed (evolves s (found_by_id id db s e) changed)
            | inr left ↦ rw left (Evolves-refl s)
          ]),
        );
  }

-- Statements that leave `agent_commands` alone.
same_commands-Since :
    (before db db' : Db) → db'.commands ≡ db.commands → Since before db → Since before db'
same_commands-Since before db db' e h = record {
  table = record { keyed = rw e h.table.keyed; derived = rw e h.table.derived };
  row = rw e h.row;
}

pub insert_binding-Since :
    (before : Db) (channel_id agent_id : String)
    → Keeps (Since before) (exec (insert_binding channel_id agent_id))
insert_binding-Since before channel_id agent_id =
    exec-Keeps _ λ db h. same_commands-Since before db _ (ground arith) h

pub insert_reply-Since : (before : Db) (m : Message) → Keeps (Since before) (exec (insert_reply m))
insert_reply-Since before m = exec-Keeps _ λ db h. same_commands-Since before db _ (ground arith) h

pub record_queue_control-Since :
    (before : Db) (user : User) (action detail : String) (now : ℕ)
    → Keeps (Since before) (record_queue_control user action detail now)
unfolding record_queue_control
record_queue_control-Since before user action detail now = bind-Keeps _ _ (query-Keeps _) λ known.
    bind-Keeps _ _ (require-Keeps _ _)
      λ _. exec-Keeps _ λ db h. same_commands-Since before db _ refl h

pub drop_unauthorized-Since :
    (before : Db) (channel_id : String) (now : ℕ)
    → Keeps (Since before) (exec (drop_unauthorized channel_id now))
drop_unauthorized-Since before channel_id now =
    exec-Keeps _
      λ db h. update-Since before _ _ db (λ r. refl) (λ r. refl) (λ r found p. ground arith) h

pub interrupt_expired-Since :
    (before : Db) (channel_id : String) (now : ℕ)
    → Keeps (Since before) (exec (interrupt_expired channel_id now))
interrupt_expired-Since before channel_id now =
    exec-Keeps _
      λ db h. update-Since before _ _ db (λ r. refl) (λ r. refl) (λ r found p. ground arith) h

pub update_commands-Since :
    (before : Db) (p : Command → Bool) (f : Command → Command)
    → ((r : Command) → (f r).id ≡ r.id)
    → ((r : Command) → (f r).message_id ≡ r.message_id)
    → ((r : Command) → p r ≡ true → Evolves r (f r))
    → Keeps (Since before) (update_commands p f)
unfolding update_commands
update_commands-Since before p f ids messages evolves = record {
  from = λ db h. update-Since before p f db ids messages (λ r found. evolves r) h;
}

pub renew_lease-Since :
    (before : Db) (agent : Agent) (id owner turn_id : String) (now : ℕ)
    → Keeps (Since before) (renew_lease agent id owner turn_id now)
unfolding renew_lease
renew_lease-Since before agent id owner turn_id now =
    update_commands-Since before _ _ (λ r. refl) (λ r. refl)
      (λ r p. ground (arith, eq_iff r.turn_id "", eq_iff turn_id "", eq_iff r.turn_id turn_id))

pub finish-Since :
    (before : Db) (agent : Agent) (id owner : String) (state : CommandState) (result : String)
    (now : ℕ)
    → is_queued state ≡ false
    → Keeps (Since before) (finish agent id owner state result now)
unfolding finish
finish-Since before agent id owner state result now final =
    update_commands-Since before _ _ (λ r. refl) (λ r. refl) (λ r p. ground arith)

cancel-Since :
    (before : Db) (id : String) (now : ℕ)
    → Keeps
        (Since before)
        (update_commands (cancel_statement id now).matches (cancel_statement id now).change)
cancel-Since before id now =
    update_commands-Since before _ _ (λ r. refl) (λ r. refl) (λ r p. ground arith)

reconcile-Since :
    (before : Db) (id : String) (now : ℕ)
    → Keeps
        (Since before)
        (update_commands (reconcile_statement id now).matches (reconcile_statement id now).change)
reconcile-Since before id now =
    update_commands-Since before _ _ (λ r. refl) (λ r. refl) (λ r p. ground arith)

-- Both statements of `ControlAgentCommand` let their rows evolve.
pub control_statement-Since :
    (before : Db) (id action : String) (now : ℕ) (c : Control)
    → control_statement id action now ≡ some c
    → Keeps (Since before) (update_commands c.matches c.change)
control_statement-Since before id action now c e = elim (Bool-cases (action == "cancel")) [
  | inl cancel ↦ statement (cc (rw cancel at e)) (cancel-Since before id now)
  | inr other ↦ elim (Bool-cases (action == "reconciled")) [
    | inl reconciled ↦
        let e' : (if action == "reconciled" then some (reconcile_statement id now) else none)
            ≡ some c =
          rw other at e in
        statement (cc (rw reconciled at e')) (reconcile-Since before id now)
    | inr unknown ↦
        let e' : (if action == "reconciled" then some (reconcile_statement id now) else none)
            ≡ some c =
          rw other at e in
        absurd (cc (rw unknown at e'))
  ]
]
  where
    statement :
        {d : Control}
        → d ≡ c
        → Keeps (Since before) (update_commands d.matches d.change)
        → Keeps (Since before) (update_commands c.matches c.change)
    statement same = subst (λ x. Keeps (Since before) (update_commands x.matches x.change)) same
