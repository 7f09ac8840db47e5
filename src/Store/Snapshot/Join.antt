-- ===== src/Store/Snapshot/Join.antt =====
-- internal/store/replication_snapshot.go: merging a row is a join, the same on both nodes.
use tintwire.Prelude.{
  min, max, String, ◌≡◌, ◌⊎◌, sym, ◌∙◌, true, false, not, ◌==◌, string_eq, nat_eq, ltb,
  if◌then◌else◌, arith, eq_iff, Bool-cases, inl, inr, str_ltb, str_ltb-asym, str_ltb-total,
}
use tintwire.Store.Snapshot.{
  Notification, Codec, state_rank, higher_state, content_key, incoming_wins, merge_row,
}

-- The columns that the last writer decides.
pub record SameContent (a b : Notification) : Type 0 where
  pub channel_id : a.channel_id ≡ b.channel_id
  pub text : a.text ≡ b.text
  pub username : a.username ≡ b.username
  pub icon_url : a.icon_url ≡ b.icon_url
  pub attachments : a.attachments ≡ b.attachments
  pub raw_payload : a.raw_payload ≡ b.raw_payload
  pub card : a.card ≡ b.card

module _ (codec : Codec) where
  -- The later or, at one time, greater content of two rows.
  pub record IsJoin (stored incoming merged : Notification) : Type 0 where
    pub created_at : merged.created_at ≡ min stored.created_at incoming.created_at
    pub updated_at : merged.updated_at ≡ max stored.updated_at incoming.updated_at
    pub state : merged.state ≡ higher_state stored.state incoming.state
    pub content :
        SameContent merged (if incoming_wins codec stored incoming then incoming else stored)
    pub id : merged.id ≡ stored.id
    pub webhook_id : merged.webhook_id ≡ stored.webhook_id
    pub external_key : merged.external_key ≡ stored.external_key

  -- Merging an incoming row keeps the stored row's id, webhook and external key, and takes the earlier creation
  -- time, the later update time, the state of higher rank, and the content of the row that was updated
  -- last or, if both were updated at the same time, has the greater JSON text.
  pub merge_row-IsJoin :
      (stored incoming : Notification) → IsJoin stored incoming (merge_row codec stored incoming)
  unfolding merge_row incoming_wins
  merge_row-IsJoin stored incoming =
      ground (arith, eq_iff (higher_state stored.state incoming.state) stored.state)

-- Two rows are one if all their columns are.
row_path :
    (a b : Notification)
    → SameContent a b
    → (a.id ≡ b.id)
      × (a.webhook_id ≡ b.webhook_id)
      × (a.external_key ≡ b.external_key)
      × (a.created_at ≡ b.created_at)
      × (a.updated_at ≡ b.updated_at)
      × (a.state ≡ b.state)
    → a ≡ b
row_path a b c h = ground arith

content_trans :
    {a b c d : Notification} → SameContent a b → SameContent b c → SameContent d c → SameContent a d
content_trans p q r = record {
  channel_id = p.channel_id ∙ q.channel_id ∙ sym r.channel_id;
  text = p.text ∙ q.text ∙ sym r.text;
  username = p.username ∙ q.username ∙ sym r.username;
  icon_url = p.icon_url ∙ q.icon_url ∙ sym r.icon_url;
  attachments = p.attachments ∙ q.attachments ∙ sym r.attachments;
  raw_payload = p.raw_payload ∙ q.raw_payload ∙ sym r.raw_payload;
  card = p.card ∙ q.card ∙ sym r.card;
}

-- Known states of one rank are one state.
state_rank-injective :
    (a b : String) → ltb 0 (state_rank a) ≡ true → state_rank a ≡ state_rank b → a ≡ b
unfolding state_rank
state_rank-injective a b known same = ground (
  arith,
  eq_iff a "received",
  eq_iff a "firing",
  eq_iff a "acknowledged",
  eq_iff a "resolved",
  eq_iff b "received",
  eq_iff b "firing",
  eq_iff b "acknowledged",
  eq_iff b "resolved",
)

higher_state_comm :
    (a b : String) → ltb 0 (state_rank a) ≡ true → higher_state a b ≡ higher_state b a
higher_state_comm a b known = ground (arith, state_rank-injective a b known)

-- Two rows of one notification: their identity columns agree, and they have the same content if its
-- JSON text is the same.
pub record SameNotification (codec : Codec) (a b : Notification) : Type 0 where
  pub id : a.id ≡ b.id
  pub webhook_id : a.webhook_id ≡ b.webhook_id
  pub external_key : a.external_key ≡ b.external_key
  pub encoded : content_key codec a ≡ content_key codec b → SameContent a b

module _ (codec : Codec) where
  -- One of two rows wins on both sides, unless they have the same content.
  winner :
      (a b : Notification)
      → SameNotification codec a b
      → (incoming_wins codec a b ≡ not (incoming_wins codec b a)) ⊎ SameContent a b
  unfolding incoming_wins
  winner a b same =
      let ka = content_key codec a in
      let kb = content_key codec b in
      elim (Bool-cases (a.updated_at == b.updated_at)) [
        | inr apart ↦ inl (ground arith)
        | inl level ↦ elim (Bool-cases (str_ltb ka kb)) [
          | inl below ↦ inl (ground (arith, str_ltb-asym ka kb below))
          | inr not_below ↦ elim (Bool-cases (str_ltb kb ka)) [
            | inl above ↦ inl (ground (arith, str_ltb-asym kb ka above))
            | inr not_above ↦ inr (same.encoded (str_ltb-total ka kb not_below not_above))
          ]
        ]
      ]

  winners_agree :
      (a b : Notification)
      → SameNotification codec a b
      → SameContent
          (if incoming_wins codec a b then b else a)
          (if incoming_wins codec b a then a else b)
  winners_agree a b same = elim (winner a b same) [
    | inl one ↦ ground arith
    | inr both ↦ ground (arith, both)
  ]

  -- Two nodes that hold rows of one notification, where the first one's state is one of the four known ones
  -- and equal JSON texts come from equal contents, end with the same row when they merge each other's.
  pub merge_row_comm :
      (a b : Notification)
      → SameNotification codec a b
      → ltb 0 (state_rank a.state) ≡ true
      → merge_row codec a b ≡ merge_row codec b a
  merge_row_comm a b same known =
      let ab = merge_row-IsJoin codec a b in
      let ba = merge_row-IsJoin codec b a in
      row_path (merge_row codec a b) (merge_row codec b a)
        (content_trans ab.content (winners_agree a b same) ba.content)
        (
          ab.id ∙ same.id ∙ sym ba.id,
          ab.webhook_id ∙ same.webhook_id ∙ sym ba.webhook_id,
          ab.external_key ∙ same.external_key ∙ sym ba.external_key,
          omega (arith, ab.created_at, ba.created_at),
          omega (arith, ab.updated_at, ba.updated_at),
          ab.state ∙ higher_state_comm a.state b.state known ∙ sym ba.state,
        )

  still_loses :
      (stored incoming merged : Notification)
      → content_key codec merged ≡ content_key codec stored
      → merged.updated_at ≡ max stored.updated_at incoming.updated_at
      → incoming_wins codec stored incoming ≡ false
      → incoming_wins codec merged incoming ≡ false
  unfolding incoming_wins
  still_loses stored incoming merged key updated lost = ground arith

  content_key-same :
      (a b : Notification) → SameContent a b → content_key codec a ≡ content_key codec b
  unfolding content_key
  content_key-same a b same = ground (arith, same)

  content_again :
      (stored incoming merged : Notification)
      → IsJoin codec stored incoming merged
      → SameContent (if incoming_wins codec merged incoming then incoming else merged) merged
  content_again stored incoming merged j = elim (Bool-cases (incoming_wins codec stored incoming)) [
    | inl won ↦ let c : SameContent merged incoming = rw won at j.content in ground (arith, c)
    | inr lost ↦
        let c : SameContent merged stored = rw lost at j.content in
        rw (still_loses stored incoming merged (content_key-same merged stored c) j.updated_at lost)
          (ground arith)
  ]

  -- Merging an incoming row a second time changes nothing.
  pub merge_row_again :
      (stored incoming : Notification)
      → merge_row codec (merge_row codec stored incoming) incoming ≡ merge_row codec stored incoming
  merge_row_again stored incoming =
      let merged = merge_row codec stored incoming in
      let j = merge_row-IsJoin codec stored incoming in
      let k = merge_row-IsJoin codec merged incoming in
      row_path (merge_row codec merged incoming) merged
        (content_trans k.content (content_again stored incoming merged j) (ground arith))
        (
          k.id,
          k.webhook_id,
          k.external_key,
          omega (arith, k.created_at, j.created_at),
          omega (arith, k.updated_at, j.updated_at),
          k.state ∙ ground (arith, j.state),
        )
