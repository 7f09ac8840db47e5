-- ===== src/Store/Snapshot.antt =====
-- internal/store/replication_snapshot.go: a snapshot of another node's notifications is merged into the local
-- tables. JSON, SHA-256 and regular expressions are the standard library's work, and stand as parameters.
mod Join
mod Growth
mod Tests
use tintwire.Prelude.{
  ℕ, ◌+◌, min, max, String, Bool, true, not, Option, none, some, List, [], ◌∷◌, ◌&&◌, ◌||◌, ◌==◌,
  string_eq, nat_eq, ltb, leb, if◌then◌else◌, find_row, update_where, any_row, str_ltb, lookup,
  insert, length,
}
use tintwire.Store.Op.{
  Op, pure, query, exec, require, transaction, ◌>>=◌, ◌>>◌, invalid_input, collision,
}

-- `ReplicationSnapshotNotification`, and a row of `notifications`
pub record Notification : Type 0 where
  pub id : String
  pub channel_id : String
  pub webhook_id : String
  pub text : String
  pub username : String
  pub icon_url : String
  pub attachments : String
  pub raw_payload : String
  pub card : String
  pub created_at : ℕ
  pub updated_at : ℕ
  pub external_key : String
  pub state : String

-- `ReplicationSnapshot`; the map of cursors in the order of its iteration
pub record Snapshot : Type 0 where
  pub version : ℕ
  pub protocol_version : ℕ
  pub cluster_id : String
  pub source : String
  pub created_at : ℕ
  pub cursors : List (String × ℕ)
  pub notifications : List Notification
  pub digest : String

-- `replication_snapshot_status`
pub record Status : Type 0 where
  pub last_applied_at : ℕ
  pub application_count : ℕ
  pub notification_count : ℕ

-- the tables of the replicated domain
pub record Replica : Type 0 where
  pub notifications : List Notification
  pub cursors : List (String × ℕ)
  pub statuses : List (String × Status)

-- `stateRank`, one higher: 0 stands for its -1.
unfoldable pub state_rank : String → ℕ
state_rank state =
    if state == "received"
    then 1
    else if state == "firing"
    then 2
    else if state == "acknowledged"
    then 3
    else if state == "resolved"
    then 4
    else 0

abbrev pub higher_state : String → String → String
higher_state current incoming =
    if ltb (state_rank current) (state_rank incoming) then incoming else current

abbrev pub same_identity : Notification → Notification → Bool
same_identity stored incoming =
    stored.webhook_id == incoming.webhook_id && stored.external_key == incoming.external_key

abbrev pub set_notifications : (List Notification → List Notification) → Replica → Replica
set_notifications f db = record db { notifications = f db.notifications }

abbrev pub cursor_or_zero : Option ℕ → ℕ
cursor_or_zero none = 0
cursor_or_zero (some c) = c

-- `ON CONFLICT(origin) DO UPDATE SET sequence=MAX(sequence,excluded.sequence)`
abbrev pub raise_cursor : String → ℕ → List (String × ℕ) → List (String × ℕ)
raise_cursor origin sequence cursors =
    insert origin (max (cursor_or_zero (lookup origin cursors)) sequence) cursors

unfoldable pub raise_cursors : List (String × ℕ) → List (String × ℕ) → List (String × ℕ)
raise_cursors [] cursors = cursors
raise_cursors ((origin, sequence) ∷ more) cursors =
    raise_cursors more (raise_cursor origin sequence cursors)

abbrev pub count_application : ℕ → ℕ → Option Status → Status
count_application now n none = record {
  last_applied_at = now;
  application_count = 1;
  notification_count = n;
}
count_application now n (some s) = record {
  last_applied_at = now;
  application_count = s.application_count + 1;
  notification_count = n;
}

-- What the code takes from `encoding/json`, `crypto/sha256` and `regexp`.
pub record Codec : Type 0 where
  pub marshal_texts : List String → String  -- `json.Marshal` of an array of texts
  pub marshal_snapshot : Snapshot → String  -- `json.Marshal` of a snapshot
  pub sha256_hex : String → String
  pub json_valid : String → Bool  -- `json.Valid`
  pub matches_identity : String → Bool  -- `replicationIdentityPattern.MatchString`

module _ (codec : Codec) where
  open codec use {marshal_texts, marshal_snapshot, sha256_hex, json_valid, matches_identity}

  -- `snapshotNotificationContentKey`
  unfoldable pub content_key : Notification → String
  content_key n = marshal_texts (
      n.channel_id ∷ n.text ∷ n.username ∷ n.icon_url ∷ n.attachments ∷ n.raw_payload ∷ n.card ∷ [])

  -- `validSnapshotJSON`
  abbrev pub valid_snapshot_json : String → Bool
  valid_snapshot_json value = value == "" || json_valid value

  -- `replicationSnapshotDigest`
  abbrev pub snapshot_digest : Snapshot → String
  snapshot_digest snapshot = sha256_hex (marshal_snapshot (record snapshot { digest = "" }))

  -- `incomingWins`
  unfoldable pub incoming_wins : Notification → Notification → Bool
  incoming_wins stored incoming =
      if incoming.updated_at == stored.updated_at
      then str_ltb (content_key stored) (content_key incoming)
      else ltb stored.updated_at incoming.updated_at

  -- the `UPDATE` that the comparison of a stored row with an incoming one chooses, on a row
  unfoldable pub merge_change : Notification → Notification → Notification → Notification
  merge_change stored incoming row =
      let state = higher_state stored.state incoming.state in
      if incoming_wins stored incoming
      then record row {
        channel_id = incoming.channel_id;
        text = incoming.text;
        username = incoming.username;
        icon_url = incoming.icon_url;
        attachments = incoming.attachments;
        raw_payload = incoming.raw_payload;
        card = incoming.card;
        created_at = min row.created_at incoming.created_at;
        updated_at = incoming.updated_at;
        state = state;
      }
      else if not (state == stored.state)
      then record row { created_at = min row.created_at incoming.created_at; state = state }
      else if ltb incoming.created_at stored.created_at
      then record row { created_at = incoming.created_at }
      else row

  -- the stored row after the merge
  unfoldable pub merge_row : Notification → Notification → Notification
  unfolding merge_change
  merge_row stored incoming = merge_change stored incoming stored

  -- the checks of an incoming notification, but for repetition
  unfoldable pub is_acceptable : Notification → Bool
  is_acceptable n =
      not (n.id == "")
      && not (n.channel_id == "")
      && not (n.webhook_id == "")
      && ltb 0 n.created_at
      && leb n.created_at n.updated_at
      && ltb 0 (state_rank n.state)
      && valid_snapshot_json n.attachments
      && valid_snapshot_json n.raw_payload
      && valid_snapshot_json n.card

  abbrev pub store_row : Option Notification → Notification → Op Replica (Unit {0})
  store_row none incoming = exec (set_notifications (λ rows. incoming ∷ rows))
  store_row (some stored) incoming = do
    require (same_identity stored incoming) collision
    exec
        (set_notifications (update_where (λ n. n.id == incoming.id) (merge_change stored incoming)))

  -- one round of the loop over the notifications
  unfoldable pub merge_notification : List String → Notification → Op Replica (Unit {0})
  unfolding merge_change is_acceptable
  merge_notification seen incoming = do
    require (is_acceptable incoming && not (any_row (λ id. id == incoming.id) seen)) invalid_input
    stored ← query (λ db. find_row (λ n. n.id) incoming.id db.notifications)
    store_row stored incoming

  unfoldable pub merge_notifications : List String → List Notification → Op Replica (Unit {0})
  unfolding merge_notification
  merge_notifications seen [] = pure tt
  merge_notifications seen (n ∷ ns) = do
    merge_notification seen n
    merge_notifications (n.id ∷ seen) ns

  unfoldable pub all_cursors_valid : List (String × ℕ) → Bool
  all_cursors_valid [] = true
  all_cursors_valid ((origin, sequence) ∷ more) =
      matches_identity origin && not (sequence == 0) && all_cursors_valid more

  -- `ApplyReplicationSnapshot` on the node of the cluster `cluster_id`
  unfoldable pub apply_snapshot : String → Snapshot → ℕ → Op Replica (Unit {0})
  unfolding merge_notifications raise_cursors all_cursors_valid
  apply_snapshot cluster_id snapshot now = do
    require
        (snapshot.version == 1
          && snapshot.protocol_version == 1
          && snapshot.cluster_id == cluster_id
          && matches_identity snapshot.source)
        invalid_input
    require (not (snapshot.digest == "") && snapshot.digest == snapshot_digest snapshot)
        invalid_input
    require (leb snapshot.created_at (now + 120000)) invalid_input
    require (all_cursors_valid snapshot.cursors) invalid_input
    transaction (do
      merge_notifications [] snapshot.notifications
      exec (λ db. record db { cursors = raise_cursors snapshot.cursors db.cursors })
      exec (λ db. record db {
        statuses =
            insert snapshot.source
              (count_application now (length snapshot.notifications)
                (lookup snapshot.source db.statuses))
              db.statuses;
      }))
