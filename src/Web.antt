-- ===== src/Web.antt =====
-- app/web.py: the text of the time until a job ends.
pub mod Times
mod Tests
use aobp.Prelude.{
  ℕ, ◌+◌, ◌*◌, ◌/◌, ◌%◌, String, Bool, true, false, Option, none, some, List, [], ◌∷◌, ltb,
  if◌then◌else◌, ◌==◌, nat_eq, string_eq,
}
use aobp.Text.{str, ◌⧺◌}

-- `target - datetime.now(UTC)` in microseconds: it has passed, or it is still to come.
pub data Difference : Type 0 where
  passed : Difference
  to_come : ℕ → Difference

-- The answers of `humanize_relative_time`, and their texts.
pub data Relative : Type 0 where
  any_moment : Relative
  in_units : ℕ → String → Relative
  less_than_a_minute : Relative

unfoldable pub relative_text : Relative → String
relative_text any_moment = "any moment"
relative_text less_than_a_minute = "in less than a minute"
relative_text (in_units value unit) =
    "in " ⧺ str value ⧺ " " ⧺ unit ⧺ (if value == 1 then "" else "s")

-- The choice of the unit. `whole_seconds` is `int(d.total_seconds())` for a difference `d` of so many
-- microseconds, which is rounded as a float; only for none of them the float is 0.
unfoldable pub relative_time : (ℕ → ℕ) → Difference → Relative
relative_time whole_seconds passed = any_moment
relative_time whole_seconds (to_come microseconds) =
    let seconds = whole_seconds microseconds in
    let days = seconds / 86400 in
    let hours = seconds % 86400 / 3600 in
    let minutes = seconds % 86400 % 3600 / 60 in
    if microseconds == 0
    then any_moment
    else if ltb 0 days
    then in_units days "day"
    else if ltb 0 hours
    then in_units hours "hour"
    else if ltb 0 minutes
    then in_units minutes "minute"
    else less_than_a_minute

-- `humanize_relative_time`
unfoldable pub humanize_relative_time : (ℕ → ℕ) → Difference → String
humanize_relative_time whole_seconds difference =
    relative_text (relative_time whole_seconds difference)
