-- ===== src/Web/Times.antt =====
-- The unit that is chosen for a time to come is the largest that fits, and its number is the whole part.
use aobp.Prelude.{
  String, false, ℕ, ◌+◌, ◌*◌, ◌/◌, ◌%◌, ◌≤◌, ◌<◌, ◌⊎◌, ◌≡◌, refl, arith, ltb, ◌==◌, nat_eq,
  string_eq, inl, inr, Bool-cases,
}
use aobp.Text.{str, ◌⧺◌}
use aobp.Web.{to_come, in_units, relative_text, relative_time, humanize_relative_time}

-- `int(d.total_seconds())` is exact for differences up to 2 ^ 53 microseconds, some 285 years.
abbrev pub exact_limit : ℕ
exact_limit = 9007199254740992

pub record IsExact (whole_seconds : ℕ → ℕ) : Type 0 where
  pub exact : (t : ℕ) → t ≤ exact_limit → whole_seconds t ≡ t / 1000000

-- What a text says of a time in microseconds.
pub data Says (microseconds : ℕ) (text : String) : Type 0 where
  at_once : microseconds ≡ 0 → text ≡ "any moment" → Says microseconds text
  soon :
      0 < microseconds
      → microseconds < 60 * 1000000
      → text ≡ "in less than a minute"
      → Says microseconds text
  one_minute :
      60 * 1000000 ≤ microseconds
      → microseconds < 120 * 1000000
      → text ≡ "in 1 minute"
      → Says microseconds text
  minutes :
      (n : ℕ)
      → 1 < n
      → n < 60
      → n * 60 * 1000000 ≤ microseconds
      → microseconds < (n + 1) * 60 * 1000000
      → text ≡ "in " ⧺ str n ⧺ " minutes"
      → Says microseconds text
  one_hour :
      3600 * 1000000 ≤ microseconds
      → microseconds < 7200 * 1000000
      → text ≡ "in 1 hour"
      → Says microseconds text
  hours :
      (n : ℕ)
      → 1 < n
      → n < 24
      → n * 3600 * 1000000 ≤ microseconds
      → microseconds < (n + 1) * 3600 * 1000000
      → text ≡ "in " ⧺ str n ⧺ " hours"
      → Says microseconds text
  one_day :
      86400 * 1000000 ≤ microseconds
      → microseconds < 172800 * 1000000
      → text ≡ "in 1 day"
      → Says microseconds text
  days :
      (n : ℕ)
      → 1 < n
      → n * 86400 * 1000000 ≤ microseconds
      → microseconds < (n + 1) * 86400 * 1000000
      → text ≡ "in " ⧺ str n ⧺ " days"
      → Says microseconds text

-- The text of one unit and of more of them.
one :
    (n : ℕ) (unit text : String)
    → n ≡ 1
    → relative_text (in_units 1 unit) ≡ text
    → relative_text (in_units n unit) ≡ text
one n unit text e h = rw e h

more :
    (n : ℕ) (unit : String)
    → 1 < n
    → relative_text (in_units n unit) ≡ "in " ⧺ str n ⧺ " " ⧺ unit ⧺ "s"
unfolding relative_text
more n unit h = let other : (n == 1) ≡ false = ground arith in rw other refl

-- Whether there is one of a unit, or more of them.
count-cases : (n : ℕ) → 0 < n → (n ≡ 1) ⊎ (1 < n)
count-cases n h = elim (Bool-cases (n == 1)) [
  | inl e ↦ inl (ground (arith, e))
  | inr e ↦ inr (ground (arith, e))
]

minutes-Says :
    (t n : ℕ)
    → 0 < n
    → n < 60
    → n * 60 * 1000000 ≤ t
    → t < (n + 1) * 60 * 1000000
    → Says t (relative_text (in_units n "minute"))
minutes-Says t n h small low high = elim (count-cases n h) [
  | inl e ↦
      one_minute (omega arith) (omega arith)
        (one n "minute" "in 1 minute" e (unfold relative_text str in refl))
  | inr e ↦ minutes n e small low high (more n "minute" e)
]

hours-Says :
    (t n : ℕ)
    → 0 < n
    → n < 24
    → n * 3600 * 1000000 ≤ t
    → t < (n + 1) * 3600 * 1000000
    → Says t (relative_text (in_units n "hour"))
hours-Says t n h small low high = elim (count-cases n h) [
  | inl e ↦
      one_hour (omega arith) (omega arith)
        (one n "hour" "in 1 hour" e (unfold relative_text str in refl))
  | inr e ↦ hours n e small low high (more n "hour" e)
]

days-Says :
    (t n : ℕ)
    → 0 < n
    → n * 86400 * 1000000 ≤ t
    → t < (n + 1) * 86400 * 1000000
    → Says t (relative_text (in_units n "day"))
days-Says t n h low high = elim (count-cases n h) [
  | inl e ↦
      one_day (omega arith) (omega arith)
        (one n "day" "in 1 day" e (unfold relative_text str in refl))
  | inr e ↦ days n e low high (more n "day" e)
]

module _ (whole_seconds : ℕ → ℕ) (x : IsExact whole_seconds) where
  -- With a float of the seconds that is exact up to 2 ^ 53 microseconds, the text of a time that is at
  -- most so far away names the largest of the units day, hour and minute of which at least one is left,
  -- with the whole number of them, in the plural for more than one; below a minute it says so, and of no
  -- time at all that the job ends any moment.
  pub humanize_relative_time-Says :
      (t : ℕ) → t ≤ exact_limit → Says t (humanize_relative_time whole_seconds (to_come t))
  unfolding humanize_relative_time relative_time
  humanize_relative_time-Says t limit =
      let seconds = t / 1000000 in
      let n_days = seconds / 86400 in
      let n_hours = seconds % 86400 / 3600 in
      let n_minutes = seconds % 86400 % 3600 / 60 in
      rw (x.exact t limit) (elim (Bool-cases (t == 0)) [
        | inl none_left ↦
            rw none_left (at_once (ground (arith, none_left)) (unfold relative_text in refl))
        | inr later ↦ elim (Bool-cases (ltb 0 n_days)) [
          | inl some_days ↦
              rw (later, some_days)
                (days-Says t n_days (ground (arith, some_days)) (omega arith) (omega arith))
          | inr no_days ↦
              let zero_days : n_days ≡ 0 = ground (arith, no_days) in
              elim (Bool-cases (ltb 0 n_hours)) [
                | inl some_hours ↦
                    rw (later, no_days, some_hours)
                      (hours-Says t n_hours (ground (arith, some_hours)) (omega arith) (omega arith)
                        (omega arith))
                | inr no_hours ↦
                    let zero_hours : n_hours ≡ 0 = ground (arith, no_hours) in
                    elim (Bool-cases (ltb 0 n_minutes)) [
                      | inl some_minutes ↦
                          rw (later, no_days, no_hours, some_minutes)
                            (minutes-Says t n_minutes (ground (arith, some_minutes)) (omega arith)
                              (omega arith) (omega arith))
                      | inr no_minutes ↦
                          let zero_minutes : n_minutes ≡ 0 = ground (arith, no_minutes) in
                          rw (later, no_days, no_hours, no_minutes)
                            (soon (ground (arith, later)) (omega arith)
                              (unfold relative_text in refl))
                    ]
              ]
        ]
      ])
