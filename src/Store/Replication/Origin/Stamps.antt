-- ===== src/Store/Replication/Origin/Stamps.antt =====
-- internal/store/replication.go: the last stamp of a node, from which the next one is made.
use mathlib.Core.List.Memᴰ
use tintwire.Prelude.{
  ℕ, ◌+◌, ◌%◌, ◌^◌, ◌≤◌, ◌<◌, String, ◌≡◌, refl, sym, ap, ◌∙◌, Bool, true, false, Option, none,
  some, List, [], ◌∷◌, ◌++◌, ◌&&◌, ◌||◌, ◌⊎◌, inl, inr, ◌==◌, string_eq, nat_eq, ltb, lookup, arith,
  eq_iff, Bool-cases, Option-cases, Memᴰ, select_least, select_least-holds, select_least-none,
  select_least-first,
}
use tintwire.Store.Replication.{ReplicationOperation, Log, cursor_of}
use tintwire.Store.Replication.Origin.{
  Stamp, stamp_of, operation_stamps, cursor_stamps, is_higher, next_stamp, last_stamp,
}

-- The order of stamps by time and counter.
abbrev pub is_later : Stamp → Stamp → Bool
is_later a b =
    ltb b.physical_ms a.physical_ms || a.physical_ms == b.physical_ms && ltb b.logical a.logical

-- The next stamp is later than the previous one, whose counter is not at its end.
pub next_stamp-later :
    (previous : Stamp) (now : ℕ)
    → previous.logical + 1 < 2 ^ 32
    → (is_later (next_stamp previous now) previous ≡ true)
      × ((next_stamp previous now).logical ≤ previous.logical + 1)
      × ((next_stamp previous now).sequence ≡ (previous.sequence + 1) % 2 ^ 64)
unfolding next_stamp
next_stamp-later previous now fits = ground arith

pub later_after : (a b c : Stamp) → is_later a b ≡ true → is_later c b ≡ false → is_later a c ≡ true
later_after a b c h k = ground arith

is_higher-asym : (a b : Stamp) → is_higher a b ≡ true → is_higher b a ≡ false
is_higher-asym a b h = ground arith

is_higher-cotrans :
    (a b c : Stamp) → is_higher a b ≡ false → is_higher b c ≡ false → is_higher a c ≡ false
is_higher-cotrans a b c h k = ground arith

stamp-mem :
    (origin : String) (rows : List ReplicationOperation) (rest : List Stamp)
    (r : ReplicationOperation)
    → Memᴰ r rows
    → r.origin ≡ origin
    → Memᴰ (stamp_of r) (operation_stamps origin rows ++ rest)
stamp-mem origin [] rest r m own = absurd (Memᴰ.not-nil m)
stamp-mem origin (q ∷ rows) rest r m own = elim (Memᴰ.cases_cons m) [
  | inl here ↦
      let same : (q.origin == origin) ≡ true =
        (eq_iff _ _).1 (ap (λ o. o.origin) (sym here) ∙ own) in
      rw same (Memᴰ.head (ap stamp_of here))
  | inr later ↦ elim (Bool-cases (q.origin == origin)) [
    | inl same ↦ rw same (Memᴰ.tail (stamp-mem origin rows rest r later own))
    | inr other ↦ rw other (stamp-mem origin rows rest r later own)
  ]
]

rest-mem :
    (origin : String) (rows : List ReplicationOperation) (rest : List Stamp) (s : Stamp)
    → Memᴰ s rest
    → Memᴰ s (operation_stamps origin rows ++ rest)
rest-mem origin [] rest s m = m
rest-mem origin (q ∷ rows) rest s m = elim (Bool-cases (q.origin == origin)) [
  | inl same ↦ rw same (Memᴰ.tail (rest-mem origin rows rest s m))
  | inr other ↦ rw other (rest-mem origin rows rest s m)
]

-- Where a stamp comes from.
stamp-source :
    (origin : String) (rows : List ReplicationOperation) (rest : List Stamp) (s : Stamp)
    → Memᴰ s (operation_stamps origin rows ++ rest)
    → ((r : ReplicationOperation) × Memᴰ r rows × (r.origin ≡ origin) × (s ≡ stamp_of r))
      ⊎ Memᴰ s rest
stamp-source origin [] rest s m = inr m
stamp-source origin (q ∷ rows) rest s m = elim (Bool-cases (q.origin == origin)) [
  | inl same ↦ elim (Memᴰ.cases_cons (rw same at m)) [
    | inl here ↦ inl (q, Memᴰ.head refl, (eq_iff _ _).0 same, here)
    | inr later ↦ elim (stamp-source origin rows rest s later) [
      | inl (r, n, own, e) ↦ inl (r, Memᴰ.tail n, own, e)
      | inr n ↦ inr n
    ]
  ]
  | inr other ↦ elim (stamp-source origin rows rest s (rw other at m)) [
    | inl (r, n, own, e) ↦ inl (r, Memᴰ.tail n, own, e)
    | inr n ↦ inr n
  ]
]

-- A node's own operations in its log: one for each sequence number, all above the cursor of what was
-- pruned, and with counters of at most `n`.
pub record IsOwnLog {ℓ} {S : Type ℓ} (node : String) (n : ℕ) (db : Log S) : Type 0 where
  pub cursor_fits : cursor_of (lookup node db.cursors) < 2 ^ 64
  pub own :
      (r : ReplicationOperation)
      → Memᴰ r db.operations
      → r.origin ≡ node
      → (cursor_of (lookup node db.cursors) < r.sequence) × (r.sequence < 2 ^ 64) × (r.logical ≤ n)
  pub keyed :
      (r s : ReplicationOperation)
      → Memᴰ r db.operations
      → Memᴰ s db.operations
      → r.origin ≡ node
      → s.origin ≡ node
      → r.sequence ≡ s.sequence
      → r ≡ s
  pub ordered :
      (r s : ReplicationOperation)
      → Memᴰ r db.operations
      → Memᴰ s db.operations
      → r.origin ≡ node
      → s.origin ≡ node
      → r.sequence < s.sequence
      → is_later (stamp_of s) (stamp_of r) ≡ true

cursor_stamp-mem :
    (o : Option ℕ) (s : Stamp)
    → Memᴰ s (cursor_stamps o)
    → (s.sequence ≡ cursor_of o) × (s.logical ≡ 0)
cursor_stamp-mem none s m = absurd (Memᴰ.not-nil m)
cursor_stamp-mem (some c) s m = elim (Memᴰ.cases_cons m) [
  | inl here ↦ rw here (refl, refl)
  | inr later ↦ absurd (Memᴰ.not-nil later)
]

cursor-le :
    (o : Option ℕ) (top : Stamp)
    → ((s : Stamp) → Memᴰ s (cursor_stamps o) → is_higher s top ≡ false)
    → cursor_of o ≤ top.sequence
cursor-le none top h = omega arith
cursor-le (some c) top h =
    let below = h (record { sequence = c; physical_ms = 0; logical = 0 }) (Memᴰ.head refl) in
    ground arith

no_cursor :
    (o : Option ℕ) → ((s : Stamp) → Memᴰ s (cursor_stamps o) → true ≡ false) → cursor_of o ≡ 0
no_cursor none h = refl
no_cursor (some c) h =
    cc (h (record { sequence = c; physical_ms = 0; logical = 0 }) (Memᴰ.head refl))

module _ {ℓ} {S : Type ℓ} (node : String) (n : ℕ) (db : Log S) (owned : IsOwnLog node n db) where
  abbrev own_stamps : List Stamp
  own_stamps = operation_stamps node db.operations ++ cursor_stamps (lookup node db.cursors)

  top-source :
      (top : Stamp)
      → select_least is_higher (λ s. true) own_stamps ≡ some top
      → ((r : ReplicationOperation) × Memᴰ r db.operations × (r.origin ≡ node) × (top ≡ stamp_of r))
        ⊎ Memᴰ top (cursor_stamps (lookup node db.cursors))
  top-source top e =
      stamp-source node db.operations (cursor_stamps (lookup node db.cursors)) top
        (select_least-holds is_higher (λ s. true) own_stamps top e).1

  top-fits :
      (top : Stamp)
      → select_least is_higher (λ s. true) own_stamps ≡ some top
      → (top.sequence < 2 ^ 64) × (top.logical ≤ n)
  top-fits top e = elim (top-source top e) [
    | inl (q, at_q, own_q, same) ↦
        let (above, fits, low) = owned.own q at_q own_q in rw same (fits, low)
    | inr from_cursor ↦
        let (seq, zero_log) = cursor_stamp-mem (lookup node db.cursors) top from_cursor in
        let fits = owned.cursor_fits in (rw seq fits, omega arith)
  ]

  -- No cursor is past the last stamp, which fits into the columns.
  pub last_stamp-bounds :
      (cursor_of (lookup node db.cursors) ≤ (last_stamp node db).sequence)
      × ((last_stamp node db).sequence < 2 ^ 64)
      × ((last_stamp node db).logical ≤ n)
  unfolding last_stamp
  last_stamp-bounds =
      let cursor_there = rest-mem node db.operations (cursor_stamps (lookup node db.cursors)) in
      elim (Option-cases (select_least is_higher (λ s. true) own_stamps)) [
        | inl empty ↦
            let none_there =
              select_least-none is_higher is_higher-asym is_higher-cotrans (λ s. true) own_stamps
                empty in
            let cursor_zero =
              no_cursor (lookup node db.cursors) (λ s m. none_there s (cursor_there s m)) in
            rw (empty, cursor_zero) (omega arith, omega arith, omega arith)
        | inr (top, e) ↦
            let first =
              select_least-first is_higher is_higher-asym is_higher-cotrans (λ s. true) own_stamps
                top e in
            let (fits, low) = top-fits top e in
            rw e (
              cursor-le (lookup node db.cursors) top (λ s m. first s (cursor_there s m) refl),
              fits,
              low,
            )
      ]

  below_top :
      (r q : ReplicationOperation)
      → Memᴰ r db.operations
      → Memᴰ q db.operations
      → r.origin ≡ node
      → q.origin ≡ node
      → is_higher (stamp_of r) (stamp_of q) ≡ false
      → (r.sequence ≤ q.sequence) × (is_later (stamp_of r) (stamp_of q) ≡ false)
  below_top r q at_r at_q own_r own_q first = elim (Bool-cases (r.sequence == q.sequence)) [
    | inl level ↦
        let same : r ≡ q = owned.keyed r q at_r at_q own_r own_q (ground arith) in
        rw same (omega arith, ground arith)
    | inr apart ↦
        let later = owned.ordered r q at_r at_q own_r own_q (ground arith) in
        (ground arith, ground arith)
  ]

  -- No operation of the node is past the last stamp.
  pub last_stamp-last :
      (r : ReplicationOperation)
      → Memᴰ r db.operations
      → r.origin ≡ node
      → (r.sequence ≤ (last_stamp node db).sequence)
        × (is_later (stamp_of r) (last_stamp node db) ≡ false)
  unfolding last_stamp
  last_stamp-last r m own =
      let there = stamp-mem node db.operations (cursor_stamps (lookup node db.cursors)) r m own in
      elim (Option-cases (select_least is_higher (λ s. true) own_stamps)) [
        | inl empty ↦ cc (
            select_least-none is_higher is_higher-asym is_higher-cotrans (λ s. true) own_stamps
              empty (stamp_of r) there)
        | inr (top, e) ↦
            let first =
              select_least-first is_higher is_higher-asym is_higher-cotrans (λ s. true) own_stamps
                top e (stamp_of r) there refl in
            rw e (elim (top-source top e) [
              | inl (q, at_q, own_q, same) ↦
                  rw same (below_top r q m at_q own own_q (rw same at first))
              | inr from_cursor ↦
                  let (seq, zero_log) = cursor_stamp-mem (lookup node db.cursors) top from_cursor in
                  let (above, fits, low) = owned.own r m own in absurd (ground arith)
            ])
      ]
