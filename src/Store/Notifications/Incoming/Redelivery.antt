-- ===== src/Store/Notifications/Incoming/Redelivery.antt =====
-- `CreateFromWebhook` of internal/store/store.go: posts under one external key go to one notification.
use tintwire.Prelude.{
  ℕ, ◌<◌, ◌≤◌, String, ◌≡◌, refl, ◌∙◌, false, some, ◌==◌, string_eq, nat_eq, arith, length,
}
use tintwire.Store.Op.{ok}
use tintwire.Store.Ensures.{
  Ensures, query_then-Ensures, require_then-Ensures, transaction-Ensures, require_some_then-Ensures,
  call-Ensures,
}
use tintwire.Store.Snapshot.{state_rank}
use tintwire.Store.Notifications.{Webhook, Store, Site}
use tintwire.Store.Notifications.Incoming.{
  IncomingNotification, Delivered, with_defaults, is_reopened, next_state, webhook_row,
}
use tintwire.Store.Notifications.Incoming.Post.{deliver, create_from_webhook}
use tintwire.Store.Notifications.Incoming.Delivery.{Posted, write-Ensures, target_channel-Keeps}

next_state-rank :
    (current incoming : String)
    → is_reopened current incoming ≡ false
    → state_rank current ≤ state_rank (next_state current incoming)
unfolding next_state
next_state-rank current incoming h = rw h (ground arith)

module _ (site : Site) where
  -- A delivery under an external key: the webhook of the token, and what has changed under its key.
  pub record Accepted (s : Store) (token key incoming : String) (d : Delivered) (t : Store)
      : Type 0 where
    pub hook : Webhook
    pub found : webhook_row site token s ≡ some hook
    pub posted : Posted s hook.id key incoming d t

  deliver-Ensures :
      (s : Store) (token : String) (input : IncomingNotification) (fresh event_id : String)
      (now : ℕ)
      → (input.external_key == "") ≡ false
      → Ensures
          (Accepted s token input.external_key input.state)
          (deliver site token input fresh event_id now)
          s
  unfolding deliver
  deliver-Ensures s token input fresh event_id now keyed = query_then-Ensures _ _ _ (
      require_some_then-Ensures _ _ _ _ λ hook found. query_then-Ensures _ _ _ (
        require_some_then-Ensures _ _ _ _ λ home at_home.
          call-Ensures {P = λ c t. t ≡ s} _ _ _
            (record { from = λ c e. (target_channel-Keeps site s token input home).from s refl })
            λ channel t same. rw same (
              query_then-Ensures _ _ _ (record {
                from = λ d done. record {
                  hook = hook;
                  found = found;
                  posted =
                      (write-Ensures site s hook channel input fresh event_id now keyed).from d
                        done;
                };
              }))))

  create-Ensures :
      (s : Store) (token key : String) (input : IncomingNotification) (fresh event_id : String)
      (now : ℕ)
      → input.external_key ≡ key
      → (key == "") ≡ false
      → Ensures
          (Accepted s token key (with_defaults input).state)
          (create_from_webhook site token input fresh event_id now)
          s
  unfolding create_from_webhook with_defaults
  create-Ensures s token key input fresh event_id now same keyed = rw (← same) (
      require_then-Ensures _ _ _ _ λ proper.
        transaction-Ensures _ _
          (deliver-Ensures s token (with_defaults input) fresh event_id now (rw same keyed)))

  -- What a second delivery `q` under the key of a first one, `p`, has done: it went to the same row, and only
  -- an alert that fires again takes a resolved row back.
  pub record Redelivered (s t : Store) (incoming : String) (p q : Delivered) : Type 0 where
    pub id : q.id ≡ p.id
    pub rows : length t.effects.notifications ≡ length s.effects.notifications
    pub later : q.created_at < q.updated_at
    pub state : q.state ≡ next_state p.state incoming
    pub rank : is_reopened p.state incoming ≡ false → state_rank p.state ≤ state_rank q.state

  same_row :
      (s t u : Store) (token key first second : String) (p q : Delivered)
      → Accepted s token key first p t
      → Accepted t token key second q u
      → Redelivered t u second p q
  unfolding webhook_row
  same_row s t u token key first second p q one two =
      let (n, at, id, state) = one.posted.row in
      let same : one.hook ≡ two.hook = cc (one.found, rw one.posted.webhooks at two.found) in
      let (eid, created, later, next, rows) = two.posted.earlier n (rw (← same) at) in
      let next : q.state ≡ next_state p.state second = rw (← state) next in
      record {
        id = eid ∙ id;
        rows = rows;
        later = later;
        state = next;
        rank = λ once. rw next (next_state-rank p.state second once);
      }

  -- Two posts with the token of one webhook and one external key, if both are accepted, are one notification:
  -- the second changes the row of the first, adds none, and stamps it later than its creation.
  -- Its state is the incoming one unless that is a step back, and falls in rank only when a resolved alert
  -- fires again.
  pub redelivered :
      (s : Store) (token : String) (a b : IncomingNotification)
      (fresh event_id fresh' event_id' : String) (now now' : ℕ) (p q : Delivered)
      → (a.external_key == "") ≡ false
      → b.external_key ≡ a.external_key
      → (create_from_webhook site token a fresh event_id now s).1 ≡ ok p
      → (create_from_webhook site token b fresh' event_id' now'
          (create_from_webhook site token a fresh event_id now s).0).1
        ≡ ok q
      → Redelivered
          (create_from_webhook site token a fresh event_id now s).0
          (create_from_webhook site token b fresh' event_id' now'
            (create_from_webhook site token a fresh event_id now s).0).0
          (with_defaults b).state
          p
          q
  redelivered s token a b fresh event_id fresh' event_id' now now' p q keyed same first second =
      let t = (create_from_webhook site token a fresh event_id now s).0 in
      let one =
        (create-Ensures s token a.external_key a fresh event_id now refl keyed).from p first in
      let two =
        (create-Ensures t token a.external_key b fresh' event_id' now' same keyed).from q second in
      same_row s t _ token a.external_key _ _ p q one two
