-- ===== src/Store/Queue/Order.antt =====
-- internal/store/agent_queue.go: the order in which a channel's commands are run.
use tintwire.Prelude.{
  ℕ, ◌+◌, ◌<◌, String, ◌≡◌, refl, ap, ◌∙◌, true, false, none, some, Memᴰ, arith, eq_iff, ltb,
  Bool-cases, inl, inr, ◌⊎◌, ◌&&◌, ◌==◌, string_eq, nat_eq, mem-update_where, str_ltb, str_ltb-asym,
  str_ltb-cotrans, select_least-holds, select_least-none, select_least-first, if◌then◌else◌,
}
use tintwire.Store.Tables.{Db, Command}
use tintwire.Store.Queue.{is_open, comes_before}
use tintwire.Store.Queue.Claiming.{head_of, take_lease, claimed_state, lease_ms}
use tintwire.Store.Queue.History.{IsQueueTable}
use tintwire.Store.Queue.Growth.{head_found, row_unique}

-- `r` is the oldest open command of a channel; of equally old ones, that with the least id.
abbrev pub IsOldest : Command → String → Db → Type 0
IsOldest r channel_id db =
    (c : Command)
    → Memᴰ c db.commands
    → c.channel_id ≡ channel_id
    → is_open c.state ≡ true
    → (r.created_at < c.created_at) ⊎ ((r.created_at ≡ c.created_at) × (str_ltb c.id r.id ≡ false))

-- the row of a command after it is claimed
abbrev pub leased : Command → String → ℕ → Command
leased head owner now = record head {
  state = claimed_state head.state;
  lease_owner = owner;
  lease_until = now + lease_ms;
  updated_at = now;
}

str_ltb_self : (s : String) → str_ltb s s ≡ false
str_ltb_self s = elim (Bool-cases (str_ltb s s)) [
  | inl less ↦ str_ltb-asym s s less
  | inr not_less ↦ not_less
]

comes_before-asym : (a b : Command) → comes_before a b ≡ true → comes_before b a ≡ false
comes_before-asym a b h = ground (arith, str_ltb-asym a.id b.id)

comes_before-cotrans :
    (a b c : Command)
    → comes_before a b ≡ false
    → comes_before b c ≡ false
    → comes_before a c ≡ false
comes_before-cotrans a b c h k = ground (arith, str_ltb-cotrans a.id b.id c.id)

pub head-IsOldest :
    (db : Db) (channel_id : String) (head : Command)
    → head_of channel_id db ≡ some head
    → IsOldest head channel_id db
head-IsOldest db channel_id head e c m channel active =
    let selected : (c.channel_id == channel_id && is_open c.state) ≡ true =
      rw (active, (eq_iff _ _).1 channel) refl in
    let first =
      select_least-first comes_before comes_before-asym comes_before-cotrans
        (λ c. c.channel_id == channel_id && is_open c.state) db.commands head e c m selected in
    elim (Bool-cases (ltb head.created_at c.created_at)) [
      | inl older ↦ inl (ground arith)
      | inr level ↦ inr (ground arith, ground arith)
    ]

pub head_channel :
    (db : Db) (channel_id : String) (head : Command)
    → head_of channel_id db ≡ some head
    → head.channel_id ≡ channel_id
head_channel db channel_id head e =
    let holds = (select_least-holds comes_before _ db.commands head e).0 in
    (eq_iff head.channel_id channel_id).0 (ground arith)

pub no_head :
    (db : Db) (channel_id : String)
    → head_of channel_id db ≡ none
    → (c : Command) → Memᴰ c db.commands
    → c.channel_id ≡ channel_id
    → is_open c.state ≡ false
no_head db channel_id e c m channel =
    let closed =
      select_least-none comes_before comes_before-asym comes_before-cotrans
        (λ c. c.channel_id == channel_id && is_open c.state) db.commands e c m in
    let same : (c.channel_id == channel_id) ≡ true = (eq_iff _ _).1 channel in rw same at closed

-- what a claim of `head` sets in a row
abbrev claim_set : Command → String → ℕ → Command → Command
claim_set head owner now c = record c {
  state = claimed_state head.state;
  lease_owner = owner;
  lease_until = now + lease_ms;
  updated_at = now;
}

row-IsLater :
    (db : Db) (channel_id owner : String) (now : ℕ) (head c s : Command)
    → IsQueueTable db
    → head_of channel_id db ≡ some head
    → Memᴰ s db.commands
    → c ≡ (if s.id == head.id then claim_set head owner now s else s)
    → c.channel_id ≡ channel_id
    → is_open c.state ≡ true
    → (head.created_at < c.created_at)
      ⊎ ((head.created_at ≡ c.created_at) × (str_ltb c.id head.id ≡ false))
row-IsLater db channel_id owner now head c s t e n same channel active =
    elim (Bool-cases (s.id == head.id)) [
      | inl here ↦
          let (found, open_head) = head_found db channel_id head t e in
          let one : s ≡ head = row_unique db s head (t.keyed s n) found here in
          let changed : c ≡ leased head owner now =
            (rw here at same) ∙ ap (claim_set head owner now) one in
          inr (cc changed, rw changed (str_ltb_self head.id))
      | inr apart ↦
          let left : c ≡ s = rw apart at same in
          rw left (head-IsOldest db channel_id head e s n (rw left at channel) (rw left at active))
    ]

pub stays-IsOldest :
    (db : Db) (channel_id owner : String) (now : ℕ) (head : Command)
    → IsQueueTable db
    → head_of channel_id db ≡ some head
    → IsOldest (leased head owner now) channel_id (take_lease head owner now db)
stays-IsOldest db channel_id owner now head t e c m channel active =
    let (s, n, same) =
      mem-update_where (λ r. r.id == head.id) (claim_set head owner now) db.commands c m in
    row-IsLater db channel_id owner now head c s t e n same channel active
