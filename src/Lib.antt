-- ===== src/Lib.antt =====
-- Tintwire is a notification inbox for teams: a Go server over a SQL database, with a replication protocol
-- between nodes and a bridge that runs an agent on behalf of humans in a channel.
--
-- Prelude holds the shared names: Boolean tests and equality as an interface (Tests), lists (Lists), Go maps
-- (Maps), rows with a key (Upsert), SQL tables (Table, Least, Witnesses) and Go's text functions (Text).
--
-- Convergence is internal/replication/model.go. Convergence/Ids is `Operation.ID`, Convergence/Node the types and
-- the methods of `*Node`: `apply`, `merge`, `state_of` (`State`) and `cursor` (`Cursor`); Convergence/Snapshot is `Snapshot`, whose
-- `sort.Slice` is an insertion sort, and Restore what a new node makes of it. Step and Merge
-- say what `Apply` and `Merge` do to the two maps, Order and Cursor use this. The loop of `Cursor` takes one
-- more round of fuel than there are applied operations, since it passes each of them at most once.
--
-- Store is internal/store. Store/Op is the shape of an operation: a function on the database that returns
-- it with a value or an error; `transaction` restores the database on an error, as the deferred
-- `Rollback` does. Store/Tables has the rows, as records with the columns that the modelled operations use,
-- and a table is the list of its rows. SQL statements are the functions of Prelude/Table under the
-- conditions of the source. Store/Authority is `RequireChannelOperator` (internal/store/incidents.go) and the channel
-- lookups (internal/store/timeline.go). Store/Queue is internal/store/agent_queue.go, one function for each
-- method: `bind_agent` (`BindAgent`), `enqueue_command` (`enqueueCommand`), `agent_command_pending`,
-- and, in Queue/Claiming, `claim_agent_command`, `renew_agent_command`, `complete_agent_command` and
-- `control_agent_command`. Store/Keeps and Store/Fails hold the rules by which the proofs follow an operation's
-- steps; Queue/History, Queue/Growth and Queue/Operations prove what every operation keeps, Queue/Leases what a
-- lease protects, Queue/Order and Queue/Oldest which command a claim takes.
--
-- Store/Snapshot is internal/store/replication_snapshot.go: `apply_snapshot` (`ApplyReplicationSnapshot`) over the tables of
-- the replicated notifications, a record `Replica` of their own. What the code takes from JSON, SHA-256 and the
-- pattern of identities are the fields of `Codec`, a parameter. `merge_change` is the `UPDATE` that the comparison
-- of two rows chooses, `merge_row` its effect on the stored row. `state_rank` is `stateRank`
-- (internal/store/replication.go) one higher, so that 0 stands for -1. Join is about merging one row, Growth about a
-- whole snapshot. Creation and update times of a row are never negative here; the code refuses an incoming
-- row with a creation time below 1. The foreign keys and the unique index of a new row are left out, so that a
-- snapshot that the database refuses for them may be accepted here.
--
-- Store/Schedules is `ClaimSchedules` and `FinishSchedule` of internal/store/workflows.go over the rows of
-- `workflow_schedules`: `claim_candidate` is one round of the loop over the candidates, the tokens that `newID` draws
-- are a function of a schedule's id, and `none` stands for the zero time. Rows due at the same time come in
-- the table's order. Schedules/Leases is about the calls of several workers.
--
-- Store/Attention is `AttentionPreferences` of internal/store/workflows.go: `validate` (true where `Validate` returns nil),
-- `quiet`, and the reading and saving of preferences, whose table is an association list by user, beside the ids
-- of the users. Time zones and clock times are the fields of `Clock`, a parameter. Attention/Quiet counts quiet
-- hours in minutes, Attention/OneDigit is about ends such as 9:30, which `Validate` accepts.
--
-- Store/Login is the login of internal/store/store.go over tables of its own, `LoginDb`: States has `CreateOIDCLoginState`,
-- `ConsumeOIDCLoginState` and `OIDCLoginState`; Handoffs the desktop confirmations and `ExchangeOIDCDesktopHandoff`; Accounts
-- `FindOrCreateOIDCUser` and `normalizeOIDCUsername`; Sessions the operations on sessions. SHA-256, `strings.ToLower` and the
-- collation of usernames are the fields of `Platform`, a parameter, and random tokens and ids are arguments.
-- Lifetimes are whole milliseconds and never negative. The loop over the suffixes takes one more round of fuel
-- than there are accounts, since each account takes at most one of the names it tries. Store/Ensures holds the
-- rules by which a proof follows an operation that succeeds.
--
-- Store/Replication is internal/store/replication.go: `apply_replication_operations` (`ApplyReplicationOperations`) over the tables of
-- the log, where the effect of an operation is a function of the tables that effects change, the fields of
-- `Receiver`. `apply_range` is the loop; its outcome `held_back` is the commit of `quarantineReplication`, after which
-- the caller gets the error `quarantined`. Replication/Effects is `applyReplicationEffect`, which fills `Receiver`; JSON and
-- SHA-256 are the fields of `Wire`. Replication/Origin has `appendReplicationOperation`, whose `next_stamp` keeps the wrap-around
-- of `uint32` and `uint64`, `PruneReplicationOperations` and `ReplicationCursor`; Origin/Stamps is
-- about the last stamp of a node and Origin/Growth about its own appends and prunings. When all operations of a node are
-- pruned, its next stamp starts from the cursor and the clock alone. A statement that fails leaves what was done before it in the transaction.
--
-- Store/Actions is `ReserveActionExecution` of internal/store/store.go over the table of executions and the keys that it
-- references. The key of an execution is the client's: the same action under another key is another run.
--
-- Store/Notifications is the life of a notification in internal/store/store.go, over tables of its own, `NotificationDb`, beside the
-- log. Incoming is `CreateFromWebhook` (`create_from_webhook`) with `saveIncidentKey`; State is `SetNotificationState`; Reading has
-- `MarkAllRead`, `MarkChannelRead`, `SetNotificationInboxState` and `UnreadCount`, whose three counts are `is_unread`,
-- `is_unread_message` (`messageUnreadCount`) and `is_unread_response` (`commandUnreadCount`); Monitors is internal/store/monitors.go,
-- with `DigestConfig.Next` of internal/store/workflows.go. The configuration of the node and what the code takes from JSON and SHA-256
-- are the fields of `Site`, time zones and calendar days those of `Calendar`, both parameters; ids that `newID` draws are arguments,
-- and no row has them yet, save that the id of a new notification is checked. A row of `slash_command_responses` stands with the
-- channel of its execution. Rows with a key of two columns are association lists (Prelude/Upsert).
-- Incoming/Post has the transaction of `CreateFromWebhook` and Monitors/Check that of `transitionMonitor`. Incoming/Delivery and
-- Redelivery, State/Raise, Reading/Times and Marked, and Monitors/Once hold the proofs; Replication/Apart says that an
-- operation appended to the log leaves the other tables alone.
--
-- Store/Admin is internal/store/user_admin.go, one function for each operation (`SetManagedUserAdmin`, `SetManagedUserDisabled`,
-- `RevokeManagedUserSessions`, `ResetManagedUserPassword`, `RemoveChannelMember`, `SetChannelMemberByID`), over the accounts and sessions of
-- Store/Login and tables of its own. What `bcrypt` makes of a password is an argument. Admin/Administrators is about every
-- sequence of calls, Admin/Access about the sessions of a user whose access ends.
--
-- Store/Agents is internal/store/agents.go: `create_agent`, `agent_for_token`, `agent_for_oauth_subject` and `revoke_agent`; Agents/Runs has the
-- runs and Agents/Invocations the reservations of tool calls. The random parts of ids and tokens are arguments, SHA-256 and
-- the collation of usernames the fields of `Platform`. The summary of a run's event is left out: it may be cut inside a
-- character, which no text can show. Agents/Calls is any call of this interface, and Agents/Revocation says
-- what all of them leave of a revoked agent. `CreateFromAgent`, which publishes a notification, is not modelled.
--
-- Store/Slash is the runs of slash commands in internal/store/store.go: `create_slash_command_execution` with its replay of a
-- request key, `add_slash_command_response` and `use_slash_response_token`. Slash/Limit counts the uses of a
-- response token. Importing the commands, and the listings, are not modelled.
--
-- Numbers are natural numbers: times in milliseconds after 1970 and sequence numbers. Only `next_stamp` writes out the
-- wrap-around; a sequence number elsewhere is below 2^64. Texts are native strings, that is, valid UTF-8. An operation reads the clock
-- once, as an argument. A failing statement of the database itself, a cancelled context and concurrent
-- transactions inside one operation are not modelled: calls are sequences of whole operations. Random ids and
-- the columns that no modelled operation reads are left out.
pub mod Prelude
pub mod Convergence
pub mod Store
