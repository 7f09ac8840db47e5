-- ===== src/Store/Attention/Tests.antt =====
-- Quiet hours over midnight, and the saving of preferences.
use tintwire.Prelude.{
  ◌≡◌, refl, true, false, not, [], ◌∷◌, ◌==◌, string_eq, ◌&&◌, ◌+◌, ◌-◌, ◌%◌, ltb, arith, insert,
}
use tintwire.Store.Op.{err, run, constraint}
use tintwire.Store.Attention.{
  AttentionPreferences, AttentionDb, Clock, validate, quiet, save_attention_preferences,
}
use tintwire.Store.Attention.Quiet.{Reads, quiet_interval}

abbrev clock : Clock
clock = record { loads = λ zone. true; parses = λ v. not (v == ""); time_in = λ zone now. "23:30" }

abbrev nights : AttentionPreferences
nights = record {
  timezone = "UTC";
  quiet_start = "22:00";
  quiet_end = "07:00";
  critical_bypass = true;
}

late : quiet clock nights 0 false ≡ true
unfolding quiet
late = refl

abbrev start_Reads : Reads "22:00" 1320
start_Reads = record {
  a = "2";
  b = "2";
  c = "0";
  d = "0";
  text = refl;
  hour_digits = omega arith;
  minute_digits = omega arith;
  value = refl;
  of_day = omega arith;
}

abbrev finish_Reads : Reads "07:00" 420
finish_Reads = record {
  a = "0";
  b = "7";
  c = "0";
  d = "0";
  text = refl;
  hour_digits = omega arith;
  minute_digits = omega arith;
  value = refl;
  of_day = omega arith;
}

abbrev late_Reads : Reads "23:30" 1410
late_Reads = record {
  a = "2";
  b = "3";
  c = "3";
  d = "0";
  text = refl;
  hour_digits = omega arith;
  minute_digits = omega arith;
  value = refl;
  of_day = omega arith;
}

quiet_interval_example : quiet clock nights 0 false ≡ (
    not (false && nights.critical_bypass)
    && ltb ((1410 + 1440 - 1320) % 1440) ((420 + 1440 - 1320) % 1440))
unfolding validate
quiet_interval_example =
    quiet_interval clock nights 1320 420 1410 0 false start_Reads finish_Reads late_Reads refl

-- the end of the quiet hours written with one digit
abbrev short_end : AttentionPreferences
short_end = record nights { quiet_end = "9:30" }

-- 01:00 stands between 22:00 and 9:30.
abbrev night_clock : Clock
night_clock = record clock { time_in = λ zone now. "01:00" }

not_quiet_at_one : quiet night_clock short_end 0 false ≡ false
unfolding quiet
not_quiet_at_one = refl

abbrev empty : AttentionDb
empty = record { user_ids = "u1" ∷ []; preferences = [] }

saves :
    (run (save_attention_preferences clock "u1" nights) empty).0
    ≡ record empty { preferences = ("u1", nights) ∷ [] }
unfolding run save_attention_preferences insert
saves = refl

refuses_stranger : (run (save_attention_preferences clock "u2" nights) empty).1 ≡ err constraint
unfolding run save_attention_preferences
refuses_stranger = refl
