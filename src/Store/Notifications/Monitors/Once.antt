-- ===== src/Store/Notifications/Monitors/Once.antt =====
-- `transitionMonitor` of internal/store/monitors.go: nodes that check one monitor at the same time raise one
-- alert, and a heartbeat since the monitor was read stops the transition.
use tintwire.Prelude.{
  any_row, any_row_of_mem, ◌&&◌, ℕ, String, ◌≡◌, refl, true, false, List, ◌==◌, string_eq, nat_eq,
  arith, Bool-cases, inl, inr, count_where, update_where, mem-update_where, update_where_none,
}
use tintwire.Store.Op.{ok, pure, query, exec, transaction, ◌>>=◌}
use tintwire.Store.Notifications.{NotificationDb, ProducerMonitor, Site}
use tintwire.Store.Notifications.Monitors.Check.{
  is_as_read, move_to, raise_alert, transition_monitor,
}

module _ (site : Site) where
  -- no row is as it was read
  idle :
      (m : ProducerMonitor) (state event_id : String) (now : ℕ) (db : NotificationDb)
      → (count_where (is_as_read m) db.monitors == 1) ≡ false
      → transition_monitor site m state event_id now db ≡ (db, ok "")
  unfolding transition_monitor query pure ◌>>=◌
  idle m state event_id now db h = rw h refl

  moved_rows :
      (m : ProducerMonitor) (state : String) (rows : List ProducerMonitor)
      → (state == m.state) ≡ false
      → count_where (is_as_read m) (update_where (is_as_read m) (move_to m state) rows) ≡ 0
  moved_rows m state rows away =
      let after = update_where (is_as_read m) (move_to m state) rows in
      (update_where_none (is_as_read m) (move_to m state) after λ r mem.
        let (s, was, e) = mem-update_where (is_as_read m) (move_to m state) rows r mem in
        elim (Bool-cases (is_as_read m s)) [
          | inr other ↦ let same : r ≡ s = rw other at e in rw (same, other) refl
          | inl matched ↦
              let moved : r ≡ move_to m state s = rw matched at e in rw (moved, away) (ground arith)
        ]).1

  -- the tables after a transition of one row
  after_transition :
      (m : ProducerMonitor) (state event_id : String) (now : ℕ) (db : NotificationDb)
      → (count_where (is_as_read m) db.monitors == 1) ≡ true
      → (transition_monitor site m state event_id now db).0.monitors
        ≡ update_where (is_as_read m) (move_to m state) db.monitors
  unfolding transition_monitor raise_alert query exec pure transaction ◌>>=◌
  after_transition m state event_id now db h = rw h refl

  -- Two nodes that have read a monitor in one state transition it at most once: after the transition of the
  -- one, at any later time and to any state, that of the other changes nothing and reports no alert.
  pub transition_once :
      (m : ProducerMonitor) (state other first second : String) (now later : ℕ)
      (db : NotificationDb)
      → (state == m.state) ≡ false
      → transition_monitor site m other second later
          (transition_monitor site m state first now db).0
        ≡ ((transition_monitor site m state first now db).0, ok "")
  transition_once m state other first second now later db away =
      let t = (transition_monitor site m state first now db).0 in
      elim (Bool-cases (count_where (is_as_read m) db.monitors == 1)) [
        | inr none_read ↦
            let same = idle m state first now db none_read in
            rw same (idle m other second later db none_read)
        | inl one ↦
            let none_left : (count_where (is_as_read m) t.monitors == 1) ≡ false =
              rw (after_transition m state first now db one, moved_rows m state db.monitors away)
                refl in
            idle m other second later t none_left
      ]

  -- A monitor whose row has had a heartbeat since it was read is left alone: no row of the database changes
  -- and no alert is reported, whichever state was wanted.
  pub heartbeat_wins :
      (m : ProducerMonitor) (state event_id : String) (now : ℕ) (db : NotificationDb)
      → any_row (λ r. r.id == m.id && r.last_seen == m.last_seen) db.monitors ≡ false
      → transition_monitor site m state event_id now db ≡ (db, ok "")
  heartbeat_wins m state event_id now db seen =
      let unread : count_where (is_as_read m) db.monitors ≡ 0 =
        (update_where_none (is_as_read m) (move_to m state) db.monitors λ r mem.
          elim (Bool-cases (is_as_read m r)) [
            | inl matched ↦
                let old : (r.id == m.id && r.last_seen == m.last_seen) ≡ true = ground arith in
                cc (
                  seen,
                  any_row_of_mem (λ r. r.id == m.id && r.last_seen == m.last_seen) db.monitors r mem
                      old,
                )
            | inr fresh ↦ fresh
          ]).1 in
      idle m state event_id now db (rw unread refl)
