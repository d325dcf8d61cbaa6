-- ===== src/Policy/Conditions/Clock.antt =====
-- The interval of `time_of_day_outside` on the circle of the day.
use cloudmorph_tessera.Prelude.{ℕ, ◌+◌, ◌-◌, ◌%◌, ◌<◌, ◌≡◌, ltb, arith}
use cloudmorph_tessera.Policy.Conditions.Request.{is_outside}

-- the minutes from one time of the day to the next time that the clock shows another
abbrev pub minutes_from : ℕ → ℕ → ℕ
minutes_from start time = (time + 1440 - start) % 1440

-- For times of the day the condition holds exactly if the current time comes later after the start
-- than the end does, on the circle of 1440 minutes: over midnight as within a day. So at the start
-- and at the end themselves it does not hold.
pub is_outside-circular :
    (opens closes now : ℕ)
    → opens < 1440
    → closes < 1440
    → now < 1440
    → is_outside opens closes now ≡ ltb (minutes_from opens closes) (minutes_from opens now)
unfolding is_outside
is_outside-circular opens closes now h k l = ground arith
