-- ===== src/Store/Replication/Tests.antt =====
-- A range of two operations, received twice by a node that counts effects.
use tintwire.Prelude.{ℕ, ◌+◌, ◌≡◌, refl, true, some, [], ◌∷◌, byte_length, lookup, insert}
use tintwire.Store.Op.{ok, run}
use tintwire.Store.Replication.{
  ReplicationOperation, Log, Receiver, apply_replication_operations, apply_range, check_repeat,
  store_operation, attempt_effect,
}
use tintwire.Store.Replication.Again.{apply_again}
use tintwire.Store.Replication.Effects.{Inbox, Wire, ReplicatedNotification, apply_effect}
use tintwire.Store.Replication.Effects.Rows.{KeepsRows, apply_effect-KeepsRows}
use tintwire.Prelude.{List, length, arith}
use tintwire.Store.Replication.Origin.{
  next_stamp, max_sequence, replication_cursor, prune_replication_operations,
  append_replication_operation, append_encoded, last_stamp, insert_operation,
}
use tintwire.Store.Replication.Origin.Cursors.{prune_keeps_cursors}
use tintwire.Store.Replication.Origin.Stamps.{IsOwnLog}
use tintwire.Store.Replication.Origin.Growth.{
  Call, appends, prunes, after_calls, after_calls-IsOwnLog,
}
use mathlib.Core.List.Memᴰ

abbrev counting : Receiver ℕ
counting = record { json_valid = λ t. true; effect = λ op n. (n + 1, ok tt) }

abbrev first : ReplicationOperation
first = record {
  version = 1;
  cluster_id = "cluster-a";
  origin = "node-two";
  sequence = 1;
  physical_ms = 1000;
  logical = 0;
  kind = "notification.created";
  channel_id = "c1";
  actor_type = "webhook";
  actor_id = "w1";
  payload = "{}";
  created_at = 1000;
}

abbrev second : ReplicationOperation
second = record first { sequence = 2; kind = "notification.state" }

abbrev fresh : Log ℕ
fresh = record { effects = 0; operations = []; cursors = []; quarantine = [] }

two_effects :
    (run (apply_replication_operations counting "cluster-a" (first ∷ second ∷ [])) fresh).0.effects
    ≡ 2
unfolding run apply_replication_operations apply_range check_repeat store_operation attempt_effect
    byte_length lookup insert
two_effects = refl

apply_again_example :
    apply_replication_operations counting "cluster-a"
      (first ∷ second ∷ [])
      (apply_replication_operations counting "cluster-a" (first ∷ second ∷ []) fresh).0
    ≡ ((apply_replication_operations counting "cluster-a" (first ∷ second ∷ []) fresh).0, ok tt)
unfolding run apply_replication_operations apply_range check_repeat store_operation attempt_effect
    byte_length lookup insert
apply_again_example = apply_again counting "cluster-a" (first ∷ second ∷ []) fresh refl

abbrev payload : ReplicatedNotification
payload = record {
  notification_id = "ntf_1";
  state = "firing";
  text = "disk full";
  username = "monitor";
  icon_url = "";
  card_json = "";
  attachments_json = "[]";
  raw_payload_json = "{}";
  external_key = "disk";
  channel_name = "ops";
  created_at = 10;
  updated_at = 50;
  event_id = "e1";
}

abbrev wire : Wire
wire = record {
  codec = record {
    marshal_texts = λ ts. "";
    marshal_snapshot = λ s. "";
    sha256_hex = λ t. t;
    json_valid = λ t. true;
    matches_identity = λ t. true;
  };
  decode = λ t. some payload;
  external_key_digest = λ w k. k;
}

abbrev inbox : Inbox
inbox = record { channels = []; webhooks = []; notifications = [] }

apply_effect-KeepsRows_example :
    KeepsRows
      (apply_effect wire first inbox).0
      (apply_effect wire second (apply_effect wire first inbox).0).0
apply_effect-KeepsRows_example =
    apply_effect-KeepsRows wire (apply_effect wire first inbox).0 second

abbrev full : Log ℕ
full = record fresh { operations = second ∷ first ∷ [] }

prune_keeps_cursors_example :
    replication_cursor "node-two" (prune_replication_operations true "node-two" 1 full).0
    ≡ replication_cursor "node-two" full
prune_keeps_cursors_example = prune_keeps_cursors true "node-two" "node-two" 1 full

pruned_log : (run (prune_replication_operations true "node-two" 1) full).0.operations ≡ second ∷ []
unfolding run prune_replication_operations max_sequence lookup insert
pruned_log = refl

appended_log :
    (run
      (append_replication_operation "cluster-a" "node-two" "notification.state" "c1" "webhook" "w1"
        "{}" 900)
      full).0.operations
    ≡ record second { sequence = 3; logical = 1; created_at = 900 } ∷ second ∷ first ∷ []
unfolding run append_replication_operation append_encoded last_stamp next_stamp insert_operation
    byte_length lookup
appended_log = refl

-- Two operations, the second with the clock gone back, and the pruning of the first.
abbrev own_calls : List Call
own_calls =
    appends "cluster-a" "notification.state" "c1" "webhook" "w1" "{}" 1000
    ∷ appends "cluster-a" "notification.state" "c1" "webhook" "w1" "{}" 900
    ∷ prunes true "node-two" 1
    ∷ []

fresh-IsOwnLog : IsOwnLog "node-two" 0 fresh
unfolding lookup
fresh-IsOwnLog = record {
  cursor_fits = omega arith;
  own = λ r m e. absurd (Memᴰ.not-nil m);
  keyed = λ r s m. absurd (Memᴰ.not-nil m);
  ordered = λ r s m. absurd (Memᴰ.not-nil m);
}

after_calls-IsOwnLog_example :
    IsOwnLog "node-two" (0 + length own_calls) (after_calls "node-two" own_calls fresh)
after_calls-IsOwnLog_example =
    after_calls-IsOwnLog "node-two" own_calls 0 fresh fresh-IsOwnLog (omega arith)

own_log :
    (after_calls "node-two" own_calls fresh).operations
    ≡ record second { sequence = 2; physical_ms = 1000; logical = 1; created_at = 900 } ∷ []
unfolding after_calls run append_replication_operation append_encoded last_stamp next_stamp
    insert_operation byte_length lookup insert prune_replication_operations max_sequence
own_log = refl
