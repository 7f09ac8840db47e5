-- ===== src/Store/Snapshot/Tests.antt =====
-- Two nodes with different rows of one notification.
use Prim.Native.String.{◌++◌}
use tintwire.Prelude.{String, List, ◌≡◌, refl, true, [], ◌∷◌, eq_iff, lookup, insert}
use tintwire.Store.Op.{ok, run}
use tintwire.Store.Snapshot.{
  Notification, Snapshot, Replica, Codec, state_rank, merge_row, apply_snapshot, incoming_wins,
  content_key,
}
use tintwire.Store.Snapshot.Join.{
  IsJoin, SameNotification, merge_row-IsJoin, merge_row_comm, merge_row_again,
}
use tintwire.Store.Snapshot.Growth.{Grown, apply_snapshot-Grown}

abbrev joined_texts : List String → String
joined_texts [] = ""
joined_texts (t ∷ ts) = t ++ "," ++ joined_texts ts

abbrev codec : Codec
codec = record {
  marshal_texts = joined_texts;
  marshal_snapshot = λ s. s.source;
  sha256_hex = λ t. t;
  json_valid = λ t. true;
  matches_identity = λ t. true;
}

abbrev ours : Notification
ours = record {
  id = "ntf_1";
  channel_id = "c1";
  webhook_id = "w1";
  text = "disk full";
  username = "monitor";
  icon_url = "";
  attachments = "[]";
  raw_payload = "{}";
  card = "";
  created_at = 10;
  updated_at = 50;
  external_key = "disk";
  state = "firing";
}

abbrev theirs : Notification
theirs = record ours { text = "disk ok"; created_at = 12; state = "resolved" }

apart : content_key codec ours ≡ content_key codec theirs → ⊥
unfolding content_key
apart e = cc ((eq_iff (content_key codec ours) (content_key codec theirs)).1 e)

same_notification : SameNotification codec ours theirs
same_notification = record {
  id = refl;
  webhook_id = refl;
  external_key = refl;
  encoded = λ e. absurd (apart e);
}

abbrev node : Replica
node = record { notifications = ours ∷ []; cursors = ("node-one", 3) ∷ []; statuses = [] }

abbrev snapshot : Snapshot
snapshot = record {
  version = 1;
  protocol_version = 1;
  cluster_id = "cluster-a";
  source = "node-two";
  created_at = 60;
  cursors = ("node-two", 9) ∷ ("node-one", 2) ∷ [];
  notifications = theirs ∷ [];
  digest = "node-two";
}

applies : run (apply_snapshot codec "cluster-a" snapshot 70) node ≡ (
  record {
    notifications = record theirs { created_at = 10 } ∷ [];
    cursors = ("node-one", 3) ∷ ("node-two", 9) ∷ [];
    statuses =
        ("node-two", record { last_applied_at = 70; application_count = 1; notification_count = 1 })
        ∷ [];
  },
  ok tt,
)
unfolding run apply_snapshot incoming_wins content_key state_rank lookup insert
applies = refl

merge_row-IsJoin_example : IsJoin codec ours theirs (merge_row codec ours theirs)
merge_row-IsJoin_example = merge_row-IsJoin codec ours theirs

merge_row_comm_example : merge_row codec ours theirs ≡ merge_row codec theirs ours
unfolding state_rank
merge_row_comm_example = merge_row_comm codec ours theirs same_notification refl

merge_row_again_example :
    merge_row codec (merge_row codec ours theirs) theirs ≡ merge_row codec ours theirs
merge_row_again_example = merge_row_again codec ours theirs

apply_snapshot-Grown_example : Grown node (apply_snapshot codec "cluster-a" snapshot 70 node).0
apply_snapshot-Grown_example = apply_snapshot-Grown codec node "cluster-a" snapshot 70
