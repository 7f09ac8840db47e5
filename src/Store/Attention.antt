-- ===== src/Store/Attention.antt =====
-- internal/store/workflows.go: a user's attention preferences and quiet hours. Time zones and the reading
-- and writing of clock times are the standard library's work, and stand as a parameter.
mod Quiet
mod OneDigit
mod Tests
use tintwire.Prelude.{
  ℕ, String, Bool, true, false, not, Option, none, some, List, ◌&&◌, ◌||◌, ◌==◌, string_eq,
  if◌then◌else◌, str_ltb, lookup, insert, any_row,
}
use tintwire.Store.Op.{Op, query, exec, require, ◌>>=◌, ◌>>◌, invalid_input, constraint}

pub record AttentionPreferences : Type 0 where
  pub timezone : String
  pub quiet_start : String
  pub quiet_end : String
  pub critical_bypass : Bool

-- The rows of `attention_preferences`, by user, beside the keys of `users` that they reference.
pub record AttentionDb : Type 0 where
  pub user_ids : List String
  pub preferences : List (String × AttentionPreferences)

-- What the code takes from `time`.
pub record Clock : Type 0 where
  pub loads : String → Bool  -- `time.LoadLocation` finds the zone
  pub parses : String → Bool  -- `time.Parse("15:04", v)` succeeds
  pub time_in : String → ℕ → String  -- `now.In(zone).Format("15:04")`

module _ (clock : Clock) where
  open clock use {loads, parses, time_in}

  -- `Validate`, true where it returns nil
  unfoldable pub validate : AttentionPreferences → Bool
  validate p =
      loads p.timezone
      && (p.quiet_start == "" && p.quiet_end == ""
          || parses p.quiet_start && parses p.quiet_end && not (p.quiet_start == p.quiet_end))

  unfoldable pub quiet : AttentionPreferences → ℕ → Bool → Bool
  quiet p now critical =
      let v = time_in p.timezone now in
      if p.quiet_start == "" || critical && p.critical_bypass
      then false
      else if not (loads p.timezone)
      then false
      else if str_ltb p.quiet_start p.quiet_end
      then not (str_ltb v p.quiet_start) && str_ltb v p.quiet_end
      else not (str_ltb v p.quiet_start) || str_ltb v p.quiet_end

  abbrev pub or_default : Option AttentionPreferences → AttentionPreferences
  or_default none = record {
    timezone = "UTC";
    quiet_start = "";
    quiet_end = "";
    critical_bypass = false;
  }
  or_default (some p) = p

  -- `AttentionPreferences`
  unfoldable pub attention_preferences : String → Op AttentionDb AttentionPreferences
  attention_preferences user_id = query (λ db. or_default (lookup user_id db.preferences))

  -- `SaveAttentionPreferences`; the user of a row has to exist.
  unfoldable pub save_attention_preferences :
      String → AttentionPreferences → Op AttentionDb (Unit {0})
  unfolding validate
  save_attention_preferences user_id p = do
    require (validate p) invalid_input
    known ← query (λ db. any_row (λ id. id == user_id) db.user_ids)
    require known constraint
    exec (λ db. record db { preferences = insert user_id p db.preferences })
