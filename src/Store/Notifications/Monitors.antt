-- ===== src/Store/Notifications/Monitors.antt =====
-- internal/store/monitors.go: a producer is watched by a monitor, which raises an alert when the producer's
-- notifications stop and resolves it when they resume. The checks that `PeriodSeconds` and `GraceSeconds` are
-- not negative hold of every ℕ.
pub mod Check
pub mod Once
use Prim.Native.String.{◌++◌}
use tintwire.Prelude.{
  ℕ, ◌+◌, ◌*◌, String, Bool, true, false, not, Option, none, some, List, [], ◌∷◌, ◌&&◌, ◌||◌, ◌==◌,
  string_eq, nat_eq, ltb, leb, if◌then◌else◌, str_ltb, any_row, count_where, update_where,
  delete_where, trim_space, byte_length,
}
use tintwire.Store.Op.{
  Op, pure, query, exec, require, require_some, transaction, ◌>>=◌, ◌>>◌, forbidden, invalid_input,
  constraint,
}
use tintwire.Store.Tables.{User}
use tintwire.Store.Authority.{operates}
use tintwire.Store.Snapshot.{Notification}
use tintwire.Store.Notifications.{
  NotificationDb, NotificationEvent, Webhook, ProducerMonitor, DigestConfig, Site,
}

-- What the code takes from `time`.
pub record Calendar : Type 0 where
  pub loads : String → Bool  -- `time.LoadLocation` finds the zone
  pub parses : String → Bool  -- `time.Parse("15:04", v)` succeeds
  pub at_clock : DigestConfig → ℕ → ℕ  -- `time.Date` of the day of a time in the zone, at the clock time
  pub next_day : DigestConfig → ℕ → ℕ  -- `AddDate(0, 0, 1)` in the zone

abbrev pub set_monitors :
    (List ProducerMonitor → List ProducerMonitor) → NotificationDb → NotificationDb
set_monitors f db = record db { monitors = f db.monitors }

module _ (calendar : Calendar) where
  open calendar use {loads, parses, at_clock, next_day}

  abbrev pub after_now : DigestConfig → ℕ → ℕ → ℕ
  after_now d now next = if leb next now then next_day d next else next

  -- `DigestConfig.Next`
  unfoldable pub next_digest : DigestConfig → ℕ → Option ℕ
  next_digest d now =
      if loads d.timezone && parses d.time then some (after_now d now (at_clock d now)) else none

  abbrev pub daily_or : ℕ → ℕ → Option ℕ → ℕ
  daily_or grace other none = other
  daily_or grace other (some next) = next + grace * 1000

  -- `Deadline`
  unfoldable pub deadline : ProducerMonitor → ℕ
  deadline m =
      let other = m.last_seen + (m.period_seconds + m.grace_seconds) * 1000 in
      if m.daily.time == ""
      then other
      else daily_or m.grace_seconds other (next_digest m.daily m.last_seen)

  abbrev pub is_proper : ProducerMonitor → Bool
  is_proper m =
      not (m.name == "")
      && not (m.source == "")
      && leb (byte_length m.name) 100
      && leb (byte_length m.source) 100
      && leb 60 m.period_seconds
      && leb m.period_seconds 2678400
      && leb m.grace_seconds 604800

  abbrev pub is_some : Option ℕ → Bool
  is_some none = false
  is_some (some n) = true

  -- the row that is stored for a monitor
  abbrev pub healthy_row : ProducerMonitor → String → ℕ → ProducerMonitor
  healthy_row m id now = record m {
    id = id;
    name = trim_space m.name;
    source = trim_space m.source;
    last_seen = now;
    state = "healthy";
    notification_id = "";
  }

  -- `SaveMonitor`; a channel has one monitor for each source.
  unfoldable pub save_monitor :
      User → ProducerMonitor → String → ℕ → Op NotificationDb ProducerMonitor
  save_monitor user m id now = do
    require (user.is_admin) forbidden
    allowed ← query (λ db. operates db.base user.id m.channel_id)
    require allowed forbidden
    require (is_proper (healthy_row m id now)) invalid_input
    require (m.daily.time == "" || is_some (next_digest (m.daily) now)) invalid_input
    taken ← query (λ db.
        any_row (λ r. r.id == id || r.channel_id == m.channel_id && r.source == trim_space m.source)
          db.monitors)
    require (not taken) constraint
    exec (set_monitors (λ rows. healthy_row m id now ∷ rows))
    pure (healthy_row m id now)

-- `ORDER BY name,id`
abbrev pub is_listed_before : ProducerMonitor → ProducerMonitor → Bool
is_listed_before a b = str_ltb a.name b.name || a.name == b.name && str_ltb a.id b.id

unfoldable pub insert_listed : ProducerMonitor → List ProducerMonitor → List ProducerMonitor
insert_listed m [] = m ∷ []
insert_listed m (r ∷ rows) =
    let rest = insert_listed m rows in if is_listed_before r m then r ∷ rest else m ∷ r ∷ rows

unfoldable pub listed : List ProducerMonitor → List ProducerMonitor
listed [] = []
listed (r ∷ rows) = insert_listed r (listed rows)

-- `Monitors`
unfoldable pub monitors : User → Op NotificationDb (List ProducerMonitor)
monitors user = do require (user.is_admin) forbidden; query (λ db. listed db.monitors)

-- `DeleteMonitor`
unfoldable pub delete_monitor : User → String → Op NotificationDb (Unit {0})
delete_monitor user id = do
  require (user.is_admin) forbidden
  exec (set_monitors (delete_where (λ r. r.id == id)))
