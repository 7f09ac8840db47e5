-- ===== src/Store/Queue/Growth.antt =====
-- internal/store/agent_queue.go: what the last step of a claim and a new command do to the rows.
use Prim.Native.String.{◌++◌}
use mathlib.Core.List.Memᴰ
use mathlib.Core.Path.{subst}
use text.Mathlib.TextLemmas.{append_cancel_left}
use tintwire.Prelude.{
  ℕ, ◌+◌, String, ◌≡◌, refl, sym, ap, ◌∙◌, true, false, not, Option, none, some, ◌∷◌, Memᴰ, ◌&&◌,
  ◌==◌, string_eq, nat_eq, arith, eq_iff, ltb, find_row, select_where-holds, select_where-mem,
  any_row_of_mem, any_row, select_least-holds, Bool-cases, inl, inr,
}
use tintwire.Store.Op.{exec, pure, ◌>>=◌}
use tintwire.Store.Keeps.{Keeps, exec-Keeps}
use tintwire.Store.Tables.{Db, User, Message, Binding, Command}
use tintwire.Store.Queue.{
  is_open, find_command, enqueue_command, comes_before, new_command, add_command, is_deliberate,
}
use tintwire.Store.Queue.Claiming.{claim_head, head_of, claimed_state, lease_ms}
use tintwire.Store.Queue.History.{update-Since, Evolves, IsQueueTable, Since}

pub head_found :
    (db : Db) (channel_id : String) (head : Command)
    → IsQueueTable db
    → head_of channel_id db ≡ some head
    → (find_command head.id db ≡ some head) × (is_open head.state ≡ true)
head_found db channel_id head t e =
    let (holds, m) = select_least-holds comes_before _ db.commands head e in
    (t.keyed head m, ground arith)

pub row_unique :
    (db : Db) (r s : Command)
    → find_command r.id db ≡ some r
    → find_command s.id db ≡ some s
    → (r.id == s.id) ≡ true
    → r ≡ s
row_unique db r s p q e =
    cc (p, subst (λ k. find_command k db ≡ some s) (sym ((eq_iff r.id s.id).0 e)) q)

lease-Evolves :
    (head : Command) (owner : String) (now : ℕ)
    → is_open head.state ≡ true
    → Evolves head (record head {
      state = claimed_state head.state;
      lease_owner = owner;
      lease_until = now + lease_ms;
      updated_at = now;
    })
lease-Evolves head owner now active = ground arith

pub claim_head-Since :
    (before db : Db) (channel_id owner : String) (now : ℕ) (head : Option Command)
    → head_of channel_id db ≡ head
    → Since before db
    → Since before (claim_head head owner now db).0
unfolding pure exec ◌>>=◌
claim_head-Since before db channel_id owner now none e h = h
claim_head-Since before db channel_id owner now (some head) e h =
    elim (Bool-cases (ltb now head.lease_until)) [
      | inl leased ↦ rw leased h
      | inr free ↦
          let (found, active) = head_found db channel_id head h.table e in
          rw free (
            update-Since before _ _ db (λ r. refl) (λ r. refl)
              (λ r known p.
                let same : r ≡ head = row_unique db r head known found p in
                subst
                  (λ x. Evolves x (record x {
                    state = claimed_state head.state;
                    lease_owner = owner;
                    lease_until = now + lease_ms;
                    updated_at = now;
                  }))
                  (sym same) (lease-Evolves head owner now active))
              h)
    ]

-- The command of a message that has none yet gets an id of its own.
fresh_id :
    (db : Db) (m : Message) (c : Command)
    → IsQueueTable db
    → any_row (λ c. c.message_id == m.id) db.commands ≡ false
    → Memᴰ c db.commands
    → (("cmd_" ++ m.id) == c.id) ≡ false
fresh_id db m c t none_yet n = elim (Bool-cases (("cmd_" ++ m.id) == c.id)) [
  | inl equal ↦
      let ids : "cmd_" ++ m.id ≡ "cmd_" ++ c.message_id = (eq_iff _ _).0 equal ∙ t.derived c n in
      let same : c.message_id ≡ m.id = sym (append_cancel_left "cmd_" m.id c.message_id ids) in
      let taken : any_row (λ x. x.message_id == m.id) db.commands ≡ true =
        any_row_of_mem (λ x. x.message_id == m.id) db.commands c n
          ((eq_iff c.message_id m.id).1 same) in
      cc (none_yet, taken)
  | inr other ↦ other
]

insert_command-Since :
    (before db : Db) (m : Message) (b : Binding)
    → any_row (λ c. c.message_id == m.id) db.commands ≡ false
    → Since before db
    → Since before (record db { commands = new_command m b ∷ db.commands })
insert_command-Since before db m b none_yet h = record {
  table = record {
    keyed = λ r n. elim (Memᴰ.cases_cons n) [
      | inl here ↦
          subst (λ x. find_row (λ c. c.id) x.id (new_command m b ∷ db.commands) ≡ some x) (sym here)
            (rw ((eq_iff ("cmd_" ++ m.id) ("cmd_" ++ m.id)).1 refl) refl)
      | inr later ↦ rw (fresh_id db m r h.table none_yet later) (h.table.keyed r later)
    ];
    derived = λ r n. elim (Memᴰ.cases_cons n) [
      | inl here ↦ ap (λ x. x.id) here ∙ sym (ap (λ x. "cmd_" ++ x.message_id) here)
      | inr later ↦ h.table.derived r later
    ];
  };
  row = λ id r found.
      let (s, e, v) = h.row id r found in
      let mem = select_where-mem _ db.commands s e in
      let same : s.id ≡ id = (eq_iff s.id id).0 (select_where-holds _ db.commands s e) in
      let fresh : (("cmd_" ++ m.id) == id) ≡ false =
        subst (λ k. (("cmd_" ++ m.id) == k) ≡ false) same (fresh_id db m s h.table none_yet mem) in
      (s, rw fresh e, v);
}

add_command-Since :
    (before db : Db) (m : Option Message) (b : Option Binding) (u : Option User)
    → Since before db
    → Since before (add_command m b u db)
add_command-Since before db (some m) (some b) (some u) h =
    elim (Bool-cases
      (is_deliberate db m u && not (any_row (λ c. c.message_id == m.id) db.commands))) [
        | inl new ↦ rw new (insert_command-Since before db m b (ground arith) h)
        | inr old ↦ rw old h
      ]
add_command-Since before db (some m) (some b) none h = h
add_command-Since before db (some m) none u h = h
add_command-Since before db none b u h = h

pub enqueue-Since :
    (before : Db) (message_id : String) → Keeps (Since before) (enqueue_command message_id)
unfolding enqueue_command
enqueue-Since before message_id = exec-Keeps _ λ db h. add_command-Since before db _ _ _ h
