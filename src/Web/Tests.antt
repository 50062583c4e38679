-- ===== src/Web/Tests.antt =====
-- Jobs that end in a day, in two hours and in a moment, and the theorem on their texts.
use aobp.Prelude.{ℕ, ◌/◌, arith, ◌+◌, ◌*◌, ◌≡◌, refl}
use aobp.Text.{str}
use aobp.Web.{passed, to_come, relative_text, relative_time, humanize_relative_time}
use aobp.Web.Times.{Says, humanize_relative_time-Says}

abbrev exact_seconds : ℕ → ℕ
exact_seconds t = t / 1000000

one_day : humanize_relative_time exact_seconds (to_come (90000 * 1000000)) ≡ "in 1 day"
unfolding humanize_relative_time relative_time relative_text str
one_day = refl

two_hours : humanize_relative_time exact_seconds (to_come (7200 * 1000000 + 1)) ≡ "in 2 hours"
unfolding humanize_relative_time relative_time relative_text str
two_hours = refl

over : humanize_relative_time exact_seconds passed ≡ "any moment"
unfolding humanize_relative_time relative_time relative_text
over = refl

humanize_relative_time-Says_example :
    Says 60000000 (humanize_relative_time exact_seconds (to_come 60000000))
humanize_relative_time-Says_example =
    humanize_relative_time-Says exact_seconds (record { exact = λ t h. refl }) 60000000
      (omega arith)
