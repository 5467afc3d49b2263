-- ===== src/Proactive/Scheduler.antt =====
-- Turning-Good-Agent/proactive/scheduler.py: cron expressions of five fields and the next minute at
-- which one fires. Times are in UTC: seconds since the epoch where a moment comes in, and minutes
-- where the search goes. What a minute is in the global time zone (`astimezone`) is a parameter.
-- A delay in seconds, a float, is turned into a time elsewhere (`next_run_at_after_delay`).
pub mod First
pub mod Fields
mod Samples
use turning_good_agent.Prelude.{
  ℕ, zero, suc, ◌+◌, ◌-◌, ◌*◌, ◌/◌, ◌%◌, String, Bool, true, false, not, ◌&&◌, ◌||◌, Option, none,
  some, List, [], ◌∷◌, ◌++◌, map, length, keep, contains, leb, ltb, nat_beq, nat_eq, ◌==◌,
  string_eq, if◌then◌else◌,
}
use turning_good_agent.Prelude.Result.{Result, ok, raise, ◌>>=◌, ◌>>◌, raise_if}
use turning_good_agent.Prelude.Text.{
  append_text, show, strip, is_empty, split_on, split_words, split_once, isdigit, int_of,
}

-- One of `_FIELD_SPECS`.
pub record FieldSpec : Type 0 where
  pub name : String
  pub minimum : ℕ
  pub maximum : ℕ

abbrev pub minute_spec : FieldSpec
minute_spec = record { name = "minute"; minimum = 0; maximum = 59 }

abbrev pub hour_spec : FieldSpec
hour_spec = record { name = "hour"; minimum = 0; maximum = 23 }

abbrev pub day_of_month_spec : FieldSpec
day_of_month_spec = record { name = "day-of-month"; minimum = 1; maximum = 31 }

abbrev pub month_spec : FieldSpec
month_spec = record { name = "month"; minimum = 1; maximum = 12 }

abbrev pub day_of_week_spec : FieldSpec
day_of_week_spec = record { name = "day-of-week"; minimum = 0; maximum = 7 }

-- The sets are lists.
pub record CronSpec : Type 0 where
  pub minute : List ℕ
  pub hour : List ℕ
  pub day_of_month : List ℕ
  pub month : List ℕ
  pub day_of_week : List ℕ
  pub day_of_month_unconstrained : Bool
  pub day_of_week_unconstrained : Bool

-- A `ValueError` with its text.
abbrev pub Parsed : Type 0 → Type 0
Parsed = Result String

unfoldable pub parse_value : FieldSpec → String → Parsed ℕ
parse_value field text =
    raise_if (not (isdigit text)) (append_text field.name (append_text " 格式错误：" text))
    >> (raise_if (ltb (int_of text) field.minimum || ltb field.maximum (int_of text)) (
          append_text field.name (
            append_text " 超出范围 "
              (append_text (show field.minimum) (append_text "-" (show field.maximum)))))
        >> ok (int_of text))

abbrev pub step_of : FieldSpec → Option (String × String) → String → Parsed (String × ℕ)
step_of field none part = ok (part, 1)
step_of field (some (range_text, step_text)) part =
    raise_if (not (isdigit step_text) || nat_beq (int_of step_text) 0)
      (append_text field.name " 步长必须大于 0")
    >> ok (range_text, int_of step_text)

-- The code of "/" is 47.
unfoldable pub split_step : FieldSpec → String → Parsed (String × ℕ)
split_step field part = step_of field (split_once 47 part) part

abbrev pub count_from : ℕ → ℕ → List ℕ
count_from start zero = []
count_from start (suc n) = start ∷ count_from (suc start) n

-- `set(range(start, end + 1, step))` for a positive step.
unfoldable pub step_range : ℕ → ℕ → ℕ → List ℕ
step_range start end step =
    keep (λ n. nat_beq ((n - start) % step) 0) (count_from start (suc end - start))

abbrev pub parse_bounds : FieldSpec → ℕ → Option (String × String) → String → Parsed (List ℕ)
parse_bounds field step (some (first, last)) range_text = parse_value field first >>= λ start.
    parse_value field last >>= λ end.
    raise_if (ltb end start) (append_text field.name " 区间起点不能大于终点")
    >> ok (step_range start end step)
parse_bounds field step none range_text = parse_value field range_text >>= λ value.
    raise_if (not (nat_beq step 1)) (append_text field.name " 只有 * 或区间可以使用步长") >> ok (value ∷ [])

-- The code of "-" is 45.
unfoldable pub parse_range : FieldSpec → String × ℕ → Parsed (List ℕ)
parse_range field (range_text, step) =
    if range_text == "*"
    then ok (step_range field.minimum field.maximum step)
    else parse_bounds field step (split_once 45 range_text) range_text

unfoldable pub parse_part : FieldSpec → String → Parsed (List ℕ)
parse_part field part = split_step field part >>= parse_range field

unfoldable pub parse_parts : FieldSpec → List String → Parsed (List ℕ)
parse_parts field [] = ok []
parse_parts field (part ∷ parts) =
    parse_part field part >>= λ values. parse_parts field parts >>= λ rest. ok (values ++ rest)

-- The code of "," is 44.
unfoldable pub parse_field : FieldSpec → String → Parsed (List ℕ)
parse_field field raw =
    raise_if (is_empty raw) (append_text field.name " 不能为空") >> parse_parts field (split_on 44 raw)

abbrev pub sunday : ℕ → ℕ
sunday value = if nat_beq value 7 then 0 else value

unfoldable pub parse_fields : List String → Parsed CronSpec
parse_fields (a ∷ b ∷ c ∷ d ∷ e ∷ []) = parse_field minute_spec a >>= λ minute.
    parse_field hour_spec b >>= λ hour. parse_field day_of_month_spec c >>= λ day_of_month.
    parse_field month_spec d >>= λ month. parse_field day_of_week_spec e >>= λ day_of_week.
    ok (record {
      minute = minute;
      hour = hour;
      day_of_month = day_of_month;
      month = month;
      day_of_week = map sunday day_of_week;
      day_of_month_unconstrained = c == "*";
      day_of_week_unconstrained = e == "*";
    })
parse_fields fields = raise (append_text "Cron 必须包含 5 个字段，实际为 " (show (length fields)))

unfoldable pub parse : String → Parsed CronSpec
parse expression = parse_fields (split_words (strip expression))

-- The fields of a local time that a match reads; Monday is weekday 0.
pub record Moment : Type 0 where
  pub minute : ℕ
  pub hour : ℕ
  pub day : ℕ
  pub month : ℕ
  pub weekday : ℕ

unfoldable pub matches : CronSpec → Moment → Bool
matches spec moment =
    let day_of_month_matches = contains moment.day spec.day_of_month in
    let day_of_week_matches = contains ((moment.weekday + 1) % 7) spec.day_of_week in
    if not (contains moment.minute spec.minute)
      || not (contains moment.hour spec.hour)
      || not (contains moment.month spec.month)
    then false
    else if spec.day_of_month_unconstrained && spec.day_of_week_unconstrained
    then true
    else if spec.day_of_month_unconstrained
    then day_of_week_matches
    else if spec.day_of_week_unconstrained
    then day_of_month_matches
    else day_of_month_matches || day_of_week_matches

unfoldable pub cron_matches : String → Moment → Parsed Bool
cron_matches expression moment = parse expression >>= λ spec. ok (matches spec moment)

unfoldable pub validate_cron : String → Option String
validate_cron expression = elim (parse expression) [ raise error ↦ some error | ok spec ↦ none ]

-- The minutes that are tried: two years of 366 days.
abbrev pub search_limit : ℕ
search_limit = 1054080

module _ (local_time : ℕ → Moment) where
  unfoldable pub search : ℕ → CronSpec → ℕ → Parsed ℕ
  search zero spec current = raise "Cron 在两年内没有可执行时刻"
  search (suc n) spec current = elim (matches spec (local_time current)) [
    | true ↦ ok current
    | false ↦ search n spec (suc current)
  ]

  -- The minute after that of `after`, which is in seconds, is the first one tried.
  unfoldable pub next_cron_fire : String → ℕ → Parsed ℕ
  next_cron_fire expression after =
      parse expression >>= λ spec. search search_limit spec (suc (after / 60))

-- What a job keeps of its times.
pub record CronJob : Type 0 where
  pub recurring : Bool
  pub cron : Option String
  pub next_run_at : Option String

-- `datetime.fromisoformat` is a parameter: the moment in seconds, or none without an offset.
module _ (local_time : ℕ → Moment) (from_iso_format : String → Parsed (Option ℕ)) where
  abbrev pub later_than : ℕ → Option ℕ → Parsed (Option ℕ)
  later_than after none = raise "next_run_at 必须包含 UTC offset"
  later_than after (some scheduled) = ok (if ltb after scheduled then some scheduled else none)

  abbrev pub next_recurring : Option String → ℕ → Parsed (Option ℕ)
  next_recurring none after = raise "周期 Cron Job 缺少 cron"
  next_recurring (some cron) after =
      next_cron_fire local_time cron after >>= λ minute. ok (some (minute * 60))

  abbrev pub next_once : Option String → ℕ → Parsed (Option ℕ)
  next_once none after = ok none
  next_once (some next_run_at) after = from_iso_format next_run_at >>= later_than after

  -- In seconds.
  unfoldable pub next_job_fire : CronJob → ℕ → Parsed (Option ℕ)
  next_job_fire job after =
      if job.recurring then next_recurring job.cron after else next_once job.next_run_at after
