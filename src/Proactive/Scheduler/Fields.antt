-- ===== src/Proactive/Scheduler/Fields.antt =====
-- proactive/scheduler.py, `_parse_field` and what it calls: the values a field may have.
use turning_good_agent.Prelude.{
  ℕ, zero, suc, ◌+◌, ◌-◌, ◌≤◌, String, Bool, true, false, not, Option, none, some, List, [], ◌∷◌,
  map, All, All-append, keep, ltb, ltb→le, nat_beq, ◌==◌, string_eq, if◌then◌else◌, arith,
}
use turning_good_agent.Prelude.Result.{ok, raise, ◌>>=◌, OnOk, OnOk-bind, OnOk-raise_if}
use turning_good_agent.Prelude.Text.{is_empty, split_on, split_words, split_once, strip, int_of}
use turning_good_agent.Proactive.Scheduler.{
  FieldSpec, minute_spec, hour_spec, day_of_month_spec, month_spec, day_of_week_spec, CronSpec,
  Parsed, parse_value, count_from, step_range, split_step, parse_bounds, parse_range, parse_part,
  parse_parts, parse_field, sunday, parse_fields, parse,
}

-- Every value lies between two bounds.
abbrev pub Between : ℕ → ℕ → List ℕ → Type 0
Between minimum maximum = All (λ n. (minimum ≤ n) × (n ≤ maximum))

abbrev Valid : FieldSpec → List ℕ → Type 0
Valid field = Between field.minimum field.maximum

All-keep : {A : Type 0} (P : A → Type 0) (p : A → Bool) (l : List A) → All P l → All P (keep p l)
All-keep P p [] h = tt
All-keep P p (x ∷ l) (hx, hl) = either (p x) (All-keep P p l hl)
  where
    either : (b : Bool) → All P (keep p l) → All P (if b then x ∷ keep p l else keep p l)
    either true k = (hx, k)
    either false k = k

count_from-Between :
    (minimum maximum start n : ℕ)
    → minimum ≤ start
    → start + n ≤ suc maximum
    → Between minimum maximum (count_from start n)
count_from-Between minimum maximum start zero lower upper = tt
count_from-Between minimum maximum start (suc n) lower upper = (
  (lower, omega (arith, upper)),
  count_from-Between minimum maximum (suc start) n (omega (arith, lower)) (omega (arith, upper)),
)

module _ (field : FieldSpec) where
  parse_value-Valid :
      (text : String)
      → OnOk (λ n. (field.minimum ≤ n) × (n ≤ field.maximum)) (parse_value field text)
  unfolding parse_value
  parse_value-Valid text =
      ground (arith, ltb→le (int_of text) field.minimum, ltb→le field.maximum (int_of text))

  step_range-Valid :
      (start end step : ℕ)
      → field.minimum ≤ start
      → start ≤ suc end
      → end ≤ field.maximum
      → Valid field (step_range start end step)
  unfolding step_range
  step_range-Valid start end step lower ordered upper =
      All-keep _ _ (count_from start (suc end - start)) (
        count_from-Between field.minimum field.maximum start (suc end - start) lower
          (omega (arith, ordered, upper)))

  parse_bounds-Valid :
      (step : ℕ) (bounds : Option (String × String)) (range_text : String)
      → OnOk (Valid field) (parse_bounds field step bounds range_text)
  parse_bounds-Valid step (some (first, last)) range_text =
      OnOk-bind _ (Valid field) (parse_value field first) _ (parse_value-Valid first)
        (λ start lower.
          OnOk-bind _ (Valid field) (parse_value field last) _ (parse_value-Valid last)
            (λ end upper.
              OnOk-raise_if (Valid field) (ltb end start) _ (ok (step_range start end step))
                (λ ordered.
                  step_range-Valid start end step lower.0 (omega (arith, ltb→le end start ordered))
                    upper.1)))
  parse_bounds-Valid step none range_text =
      OnOk-bind _ (Valid field) (parse_value field range_text) _ (parse_value-Valid range_text)
        (λ value h.
          OnOk-raise_if (Valid field) (not (nat_beq step 1)) _ (ok (value ∷ [])) (λ one. (h, tt)))

  module _ (ordered : field.minimum ≤ suc field.maximum) where
    parse_range-Valid : (parts : String × ℕ) → OnOk (Valid field) (parse_range field parts)
    unfolding parse_range
    parse_range-Valid (range_text, step) = either (range_text == "*")
      where
        either :
            (b : Bool)
            → OnOk (Valid field) (
                if b
                then ok (step_range field.minimum field.maximum step)
                else parse_bounds field step (split_once 45 range_text) range_text)
        either true =
            step_range-Valid field.minimum field.maximum step (omega arith) ordered (omega arith)
        either false = parse_bounds-Valid step (split_once 45 range_text) range_text

    parse_part-Valid : (part : String) → OnOk (Valid field) (parse_part field part)
    unfolding parse_part
    parse_part-Valid part = go (split_step field part)
      where
        go : (r : Parsed (String × ℕ)) → OnOk (Valid field) (r >>= parse_range field)
        go (ok parts) = parse_range-Valid parts
        go (raise e) = tt

    parse_parts-Valid : (parts : List String) → OnOk (Valid field) (parse_parts field parts)
    unfolding parse_parts
    parse_parts-Valid [] = tt
    parse_parts-Valid (part ∷ parts) =
        OnOk-bind (Valid field) (Valid field) (parse_part field part) _ (parse_part-Valid part)
          (λ values h.
            OnOk-bind (Valid field) (Valid field) (parse_parts field parts) _
              (parse_parts-Valid parts) (λ rest k. All-append _ values rest h k))

    parse_field-Valid : (raw : String) → OnOk (Valid field) (parse_field field raw)
    unfolding parse_field
    parse_field-Valid raw =
        OnOk-raise_if (Valid field) (is_empty raw) _ _
          (λ some_text. parse_parts-Valid (split_on 44 raw))

-- The values that a match can meet.
pub record IsBounded (spec : CronSpec) : Type 0 where
  pub minute : Between 0 59 spec.minute
  pub hour : Between 0 23 spec.hour
  pub day_of_month : Between 1 31 spec.day_of_month
  pub month : Between 1 12 spec.month
  pub day_of_week : Between 0 6 spec.day_of_week

sunday-Between : (days : List ℕ) → Between 0 7 days → Between 0 6 (map sunday days)
sunday-Between [] h = tt
sunday-Between (day ∷ days) (h, hs) = (ground arith, sunday-Between days hs)

parse_fields-IsBounded : (fields : List String) → OnOk IsBounded (parse_fields fields)
unfolding parse_fields
parse_fields-IsBounded (a ∷ b ∷ c ∷ d ∷ e ∷ []) =
    OnOk-bind _ IsBounded (parse_field minute_spec a) _
      (parse_field-Valid minute_spec (omega arith) a)
      (λ minute h1.
        OnOk-bind _ IsBounded (parse_field hour_spec b) _
          (parse_field-Valid hour_spec (omega arith) b)
          (λ hour h2.
            OnOk-bind _ IsBounded (parse_field day_of_month_spec c) _
              (parse_field-Valid day_of_month_spec (omega arith) c)
              (λ day h3.
                OnOk-bind _ IsBounded (parse_field month_spec d) _
                  (parse_field-Valid month_spec (omega arith) d)
                  (λ month h4.
                    OnOk-bind _ IsBounded (parse_field day_of_week_spec e) _
                      (parse_field-Valid day_of_week_spec (omega arith) e)
                      (λ days h5. record {
                        minute = h1;
                        hour = h2;
                        day_of_month = h3;
                        month = h4;
                        day_of_week = sunday-Between days h5;
                      })))))
parse_fields-IsBounded [] = tt
parse_fields-IsBounded (a ∷ []) = tt
parse_fields-IsBounded (a ∷ b ∷ []) = tt
parse_fields-IsBounded (a ∷ b ∷ c ∷ []) = tt
parse_fields-IsBounded (a ∷ b ∷ c ∷ d ∷ []) = tt
parse_fields-IsBounded (a ∷ b ∷ c ∷ d ∷ e ∷ f ∷ rest) = tt

-- Whatever expression is parsed, the values it allows lie in the ranges of minutes, hours, days and
-- months, and a day of the week is at most 6: the 7 that stands for Sunday has become 0.
pub parse-IsBounded : (expression : String) → OnOk IsBounded (parse expression)
unfolding parse
parse-IsBounded expression = parse_fields-IsBounded (split_words (strip expression))
