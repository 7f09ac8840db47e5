-- ===== src/Store/Agents/Invocations/Replay.antt =====
-- internal/store/agents.go: a tool call that was completed under a key is not run again.
use tintwire.Prelude.{
  ℕ, String, ◌≡◌, refl, sym, ◌∙◌, Bool, true, false, not, Option, none, some, List, [], ◌∷◌, ◌&&◌,
  ◌==◌, string_eq, if◌then◌else◌, arith, eq_iff, Bool-cases, inl, inr, select_where,
  select_where-holds, select_where-delete_where, select_where-update_where, delete_where,
  update_where,
}
use tintwire.Store.Op.{Result, ok, err, query, exec, pure, require, ◌>>=◌, import_conflict}
use tintwire.Store.Keeps.{
  Keeps, bind-Keeps, query-Keeps, require-Keeps, exec-Keeps, pure-Keeps, query_then-Keeps,
}
use tintwire.Store.Login.{Platform}
use tintwire.Store.Agents.{Invocation, AgentDb}
use tintwire.Store.Agents.Invocations.{
  is_invocation, is_abandoned, reservation, insert_or_replay, reserve_agent_tool_invocation,
  complete_with, complete_agent_tool_invocation, release_agent_tool_invocation,
}
use tintwire.Store.Agents.Calls.{
  Call, creates, authenticates_token, revokes, starts, finishes, records, reserves, completes,
  releases, after_call, after_calls,
}
use tintwire.Store.Agents.Invocations.Apart.{
  create-Keeps, token-Keeps, revoke-Keeps, start-Keeps, finish-Keeps, record-Keeps,
}

abbrev pub invocation_of : String → String → AgentDb → Option Invocation
invocation_of agent_id key db = select_where (is_invocation agent_id key) db.invocations

-- the calls that do not complete the invocation of a key again
abbrev pub is_foreign : String → String → Call → Bool
is_foreign agent_id key (completes agent other result) = not (agent == agent_id && other == key)
is_foreign agent_id key _ = true

abbrev pub all_foreign : String → String → List Call → Bool
all_foreign agent_id key [] = true
all_foreign agent_id key (c ∷ cs) = is_foreign agent_id key c && all_foreign agent_id key cs

same_key :
    (a k b j : String) (i : Invocation)
    → is_invocation a k i ≡ true
    → is_invocation b j i ≡ true
    → (b == a && j == k) ≡ true
same_key a k b j i one two =
    let agent : i.agent_id ≡ a = (eq_iff _ _).0 (ground arith) in
    let key : i.key ≡ k = (eq_iff _ _).0 (ground arith) in
    let agent' : (b == a) ≡ true =
      (eq_iff _ _).1 (sym ((eq_iff i.agent_id b).0 (ground arith)) ∙ agent) in
    let key' : (j == k) ≡ true = (eq_iff _ _).1 (sym ((eq_iff i.key j).0 (ground arith)) ∙ key) in
    rw (agent', key') refl

module _ (agent_id key : String) (i : Invocation) where
  -- the table has the completed row
  abbrev Has : List Invocation → Type 0
  Has rows = (select_where (is_invocation agent_id key) rows ≡ some i) × (i.completed ≡ true)

  other-Has :
      (new : Invocation) (rows : List Invocation)
      → is_invocation agent_id key new ≡ false
      → Has rows
      → Has (new ∷ rows)
  other-Has new rows other h = (rw other h.0, h.1)

  released-Has :
      (agent other : String) (rows : List Invocation)
      → Has rows
      → Has (delete_where (λ j. is_invocation agent other j && not j.completed) rows)
  released-Has agent other rows h = (
    select_where-delete_where (λ j. is_invocation agent other j && not j.completed)
        (is_invocation agent_id key) rows i h.0 (rw h.1 (ground arith)),
    h.1,
  )

  abandoned-Has :
      (agent other : String) (now : ℕ) (rows : List Invocation)
      → Has rows
      → Has (delete_where (is_abandoned agent other now) rows)
  abandoned-Has agent other now rows h = (
    select_where-delete_where (is_abandoned agent other now) (is_invocation agent_id key) rows i h.0
        (rw h.1 (ground arith)),
    h.1,
  )

  completed-Has :
      (agent other result : String) (rows : List Invocation)
      → not (agent == agent_id && other == key) ≡ true
      → Has rows
      → Has (update_where (is_invocation agent other) (complete_with result) rows)
  completed-Has agent other result rows foreign h = (
    rw
        (
          select_where-update_where (is_invocation agent_id key) (is_invocation agent other)
              (complete_with result) rows (λ r. refl),
          h.0,
        )
        (elim (Bool-cases (is_invocation agent other i)) [
          | inr away ↦ rw away refl
          | inl same ↦
              let holds = select_where-holds (is_invocation agent_id key) rows i h.0 in
              cc (rw (same_key agent_id key agent other i holds same) at foreign)
        ]),
    h.1,
  )

  insert-Keeps :
      (agent other tool fingerprint : String) (now : ℕ) (row : Option Invocation)
      → (row ≡ none → (agent == agent_id && other == key) ≡ false)
      → Keeps (λ db. Has db.invocations) (insert_or_replay agent other tool fingerprint now row)
  unfolding insert_or_replay
  insert-Keeps agent other tool fingerprint now none apart = bind-Keeps _ _ (query-Keeps _) λ known.
      bind-Keeps _ _ (require-Keeps _ _) λ _.
        bind-Keeps _ _
          (exec-Keeps _ λ s h.
            other-Has (reservation agent other tool fingerprint now) s.invocations (apart refl) h)
          λ _. pure-Keeps _
  insert-Keeps agent other tool fingerprint now (some j) apart =
      bind-Keeps _ _ (require-Keeps _ _) λ _. bind-Keeps _ _ (require-Keeps _ _) λ _. pure-Keeps _

  absent_apart :
      (agent other : String) (rows : List Invocation)
      → Has rows
      → select_where (is_invocation agent other) rows ≡ none
      → (agent == agent_id && other == key) ≡ false
  absent_apart agent other rows h absent = elim (Bool-cases (agent == agent_id && other == key)) [
    | inr away ↦ away
    | inl same ↦
        let one : agent ≡ agent_id = (eq_iff _ _).0 (ground arith) in
        let two : other ≡ key = (eq_iff _ _).0 (ground arith) in cc (h.0, rw (one, two) at absent)
  ]

  reserve-Keeps :
      (agent other tool fingerprint : String) (now : ℕ)
      → Keeps
          (λ db. Has db.invocations)
          (reserve_agent_tool_invocation agent other tool fingerprint now)
  unfolding reserve_agent_tool_invocation
  reserve-Keeps agent other tool fingerprint now =
      bind-Keeps _ _ (exec-Keeps _ λ s h. abandoned-Has agent other now s.invocations h) λ _.
        query_then-Keeps _ _ λ s h.
          (insert-Keeps agent other tool fingerprint now
              (select_where (is_invocation agent other) s.invocations)
              (absent_apart agent other s.invocations h)).from
            s h

  after_call-Has :
      (platform : Platform) (c : Call) (db : AgentDb)
      → is_foreign agent_id key c ≡ true
      → Has db.invocations
      → Has (after_call platform c db).invocations
  unfolding after_call complete_agent_tool_invocation release_agent_tool_invocation exec
  after_call-Has platform (creates ids input) db foreign h =
      (create-Keeps Has platform ids input).from db h
  after_call-Has platform (authenticates_token token now) db foreign h =
      (token-Keeps Has platform token now).from db h
  after_call-Has platform (revokes name now) db foreign h = (revoke-Keeps Has name now).from db h
  after_call-Has platform (starts id agent initiator purpose now) db foreign h =
      (start-Keeps Has id agent initiator purpose now).from db h
  after_call-Has platform (finishes agent run state now) db foreign h =
      (finish-Keeps Has agent run state now).from db h
  after_call-Has platform (records agent run tool notification now) db foreign h =
      (record-Keeps Has agent run tool notification now).from db h
  after_call-Has platform (reserves agent other tool fingerprint now) db foreign h =
      (reserve-Keeps agent other tool fingerprint now).from db h
  after_call-Has platform (completes agent other result) db foreign h =
      completed-Has agent other result db.invocations foreign h
  after_call-Has platform (releases agent other) db foreign h =
      released-Has agent other db.invocations h

  after_calls-Has :
      (platform : Platform) (cs : List Call) (db : AgentDb)
      → all_foreign agent_id key cs ≡ true
      → Has db.invocations
      → Has (after_calls platform cs db).invocations
  unfolding after_calls
  after_calls-Has platform [] db foreign h = h
  after_calls-Has platform (c ∷ cs) db foreign h =
      after_calls-Has platform cs (after_call platform c db) (ground arith)
        (after_call-Has platform c db (ground arith) h)

-- the answer to a call whose arguments match, or do not match, those of the completed one
abbrev pub replayed : Invocation → String → String → Result (String × Bool)
replayed i tool fingerprint =
    if i.tool == tool && i.fingerprint == fingerprint
    then ok (i.result, false)
    else err import_conflict

reserve-replayed :
    (agent_id key tool fingerprint : String) (now : ℕ) (i : Invocation) (db : AgentDb)
    → Has agent_id key i db.invocations
    → (reserve_agent_tool_invocation agent_id key tool fingerprint now db).1
      ≡ replayed i tool fingerprint
unfolding reserve_agent_tool_invocation insert_or_replay query exec pure require ◌>>=◌
reserve-replayed agent_id key tool fingerprint now i db h =
    rw ((abandoned-Has agent_id key i agent_id key now db.invocations h).0)
      (elim (Bool-cases (i.tool == tool && i.fingerprint == fingerprint)) [
        | inl same ↦ rw (same, require, h.1, require) refl
        | inr other ↦ rw (other, require) refl
      ])

-- Once a tool call is completed under a key, whatever calls of the interface follow but another completion of
-- that key: a reservation of the key is never told to run the call. It gets the stored result if tool and
-- arguments are those of the completed call, and is refused as a conflict otherwise.
pub completed_once :
    (platform : Platform) (agent_id key tool fingerprint : String) (now : ℕ) (i : Invocation)
    (db : AgentDb) (cs : List Call)
    → invocation_of agent_id key db ≡ some i
    → i.completed ≡ true
    → all_foreign agent_id key cs ≡ true
    → (reserve_agent_tool_invocation agent_id key tool fingerprint now
        (after_calls platform cs db)).1
      ≡ replayed i tool fingerprint
completed_once platform agent_id key tool fingerprint now i db cs found completed foreign =
    reserve-replayed agent_id key tool fingerprint now i (after_calls platform cs db)
      (after_calls-Has agent_id key i platform cs db foreign (found, completed))
