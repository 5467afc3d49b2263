-- ===== src/Proactive/Scheduler/Samples.antt =====
-- The theorems on cron expressions at weekdays at nine, read in a calendar of months of 31 days.
use turning_good_agent.Prelude.{
  ℕ, suc, ◌/◌, ◌%◌, ◌<◌, ◌≡◌, refl, String, true, false, Option, none, some, [], ◌∷◌,
}
use turning_good_agent.Prelude.Result.{ok, raise, OnOk}
use turning_good_agent.Prelude.Text.{
  split_words, is_empty, strip, split_on, split_once, isdigit, int_of,
}
use turning_good_agent.Proactive.Scheduler.{
  CronSpec, Moment, Parsed, parse, parse_fields, parse_field, parse_parts, parse_part, split_step,
  parse_range, parse_value, step_range, search_limit, next_cron_fire, CronJob, next_job_fire,
}
use turning_good_agent.Proactive.Scheduler.Fields.{IsBounded, parse-IsBounded}
use turning_good_agent.Proactive.Scheduler.First.{
  IsFirst, WhenSome, next_cron_fire-IsFirst, next_job_fire-Later,
}

abbrev local_time : ℕ → Moment
local_time t = record {
  minute = t % 60;
  hour = t / 60 % 24;
  day = suc (t / 1440 % 31);
  month = suc (t / 44640 % 12);
  weekday = t / 1440 % 7;
}

abbrev expression : String
expression = "0,30 9 * * 1-5/2"

abbrev spec : CronSpec
spec = record {
  minute = 0 ∷ 30 ∷ [];
  hour = 9 ∷ [];
  day_of_month =
      1 ∷ 2 ∷ 3 ∷ 4 ∷ 5 ∷ 6 ∷ 7 ∷ 8 ∷ 9 ∷ 10 ∷ 11 ∷ 12 ∷ 13 ∷ 14 ∷ 15 ∷ 16 ∷ 17 ∷ 18 ∷ 19 ∷ 20 ∷ 21
      ∷ 22 ∷ 23 ∷ 24 ∷ 25 ∷ 26 ∷ 27 ∷ 28 ∷ 29 ∷ 30 ∷ 31 ∷ [];
  month = 1 ∷ 2 ∷ 3 ∷ 4 ∷ 5 ∷ 6 ∷ 7 ∷ 8 ∷ 9 ∷ 10 ∷ 11 ∷ 12 ∷ [];
  day_of_week = 1 ∷ 3 ∷ 5 ∷ [];
  day_of_month_unconstrained = true;
  day_of_week_unconstrained = false;
}

parsed : parse expression ≡ ok spec
unfolding parse parse_fields split_words is_empty strip parse_field parse_parts split_on parse_part
    split_step split_once parse_range parse_value isdigit int_of step_range
parsed = refl

next_cron_fire-IsFirst_example :
    IsFirst local_time spec (suc (100 / 60)) search_limit (next_cron_fire local_time expression 100)
next_cron_fire-IsFirst_example = next_cron_fire-IsFirst local_time expression 100 spec parsed

abbrev job : CronJob
job = record { recurring = true; cron = some expression; next_run_at = none }

abbrev no_format : String → Parsed (Option ℕ)
no_format text = raise "Invalid isoformat string"

job_fires_later : OnOk (WhenSome (λ t. 100 < t)) (next_job_fire local_time no_format job 100)
job_fires_later = next_job_fire-Later local_time no_format 100 job

parse-IsBounded_example : OnOk IsBounded (parse expression)
parse-IsBounded_example = parse-IsBounded expression
