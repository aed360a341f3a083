-- ===== src/Task/Examples.antt =====
-- A schedule on a small calendar.
use claw_proxy_hub_next.Base.{ℕ, ◌/◌, ◌%◌, ◌*◌, some, [], ◌∷◌, ◌≡◌, refl}
use claw_proxy_hub_next.Task.Cron.{
  CronFields, Civil, codes, parse_cron_field, parse_cron_expr, next_cron, one_minute, minutes_ahead,
}
use claw_proxy_hub_next.Task.Cron.Next.{IsNext, next_cron-IsNext}

abbrev calendar : ℕ → Civil
calendar t = record { minute = t / one_minute % 60; hour = 0; day = 1; month = 1; weekday = 0 }

abbrev quarter_hours : CronFields
quarter_hours = record {
  minutes = 50 ∷ 35 ∷ 5 ∷ [];
  hours = 0 ∷ [];
  days = 1 ∷ [];
  months = 12 ∷ 1 ∷ [];
  weekdays = 0 ∷ [];
}

parsed : parse_cron_expr "5-50/30,50 0 1 1,12 0" ≡ some quarter_hours
unfolding parse_cron_expr
parsed = refl

next_cron-IsNext_example :
    IsNext calendar quarter_hours 0
      (minutes_ahead * one_minute)
      (next_cron calendar "5-50/30,50 0 1 1,12 0" 0)
next_cron-IsNext_example = next_cron-IsNext calendar "5-50/30,50 0 1 1,12 0" quarter_hours 0 parsed

-- A step that is as large as an `int` can be wraps: minute 1 is in the set of `3/9223372036854775807`.
wrapped_step :
    parse_cron_field (codes "3/9223372036854775807") 0 59
    ≡ some (
        18_446_744_073_709_551_615 ∷ 9_223_372_036_854_775_808 ∷ 1 ∷ 9_223_372_036_854_775_810 ∷ 3
        ∷ [])
unfolding parse_cron_field
wrapped_step = refl
