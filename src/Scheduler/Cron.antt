-- ===== src/Scheduler/Cron.antt =====
-- internal/server/api/scheduler.go: cron expressions. A `values` map is the list of its keys, in
-- the order in which the code sets them.
pub mod Bounds
pub mod Decimal
pub mod RoundTrip
use bongsu.Prelude.{
  ℕ, zero, suc, ◌+◌, ◌-◌, Bool, true, false, not, ◌&&◌, ◌||◌, Option, none, some, List, [], ◌∷◌,
  ◌++◌, ltb, leb, ◌==◌, if◌then◌else◌, length, take, drop, any_of,
}
use bongsu.Prelude.Int.{ℤ, pos, negsuc}
use bongsu.Prelude.Result.{Result, ok, err, ◌>>=◌, map_err}
use bongsu.Text.{Bytes, codes, equal, split_on, fields}
use bongsu.Vercmp.Chars.{index_byte}
use bongsu.Vercmp.Deb.{atoi}

pub record FieldMatcher : Type 0 where
  pub values : List ℕ
  pub any : Bool

pub data FieldError : Type 0 where
  invalid_step invalid_field invalid_range invalid_value : Bytes → FieldError

-- The numbers from `lo` on, as many as the first argument says.
unfoldable pub count_up : ℕ → ℕ → List ℕ
count_up zero lo = []
count_up (suc n) lo = lo ∷ count_up n (lo + 1)

-- `for i := lo; i <= hi; i++`
abbrev pub span : ℕ → ℕ → List ℕ
span lo hi = count_up (suc hi - lo) lo

-- `lo < min || hi > max || lo > hi` is an error.
abbrev pub span_of : ℕ → ℕ → Option ℤ → Option ℤ → Option (List ℕ)
span_of min max (some (pos lo)) (some (pos hi)) =
    if ltb lo min || ltb max hi || ltb hi lo then none else some (span lo hi)
span_of min max _ _ = none

-- `v < min || v > max` is an error.
abbrev pub value_of : ℕ → ℕ → Option ℤ → Option (List ℕ)
value_of min max (some (pos v)) = if ltb v min || ltb max v then none else some (v ∷ [])
value_of min max _ = none

abbrev pub or_else : Option (List ℕ) → FieldError → Result FieldError (List ℕ)
or_else none e = err e
or_else (some vs) e = ok vs

-- One part between commas.
unfoldable pub parse_part : ℕ → ℕ → Bytes → Result FieldError (List ℕ)
unfolding index_byte atoi count_up
parse_part min max part = elim (index_byte part b'-') [
  | none ↦ or_else (value_of min max (atoi part)) (invalid_value part)
  | some i ↦
      or_else (span_of min max (atoi (take i part)) (atoi (drop (suc i) part))) (invalid_range part)
]

-- The loop over the parts: the values that it appends.
unfoldable pub parse_parts : ℕ → ℕ → List Bytes → Result FieldError (List ℕ)
unfolding parse_part
parse_parts min max [] = ok []
parse_parts min max (part ∷ parts) =
    parse_part min max part >>= λ vs. parse_parts min max parts >>= λ ws. ok (vs ++ ws)

unfoldable pub parse_base : ℕ → ℕ → Bytes → Result FieldError (List ℕ)
unfolding parse_parts split_on equal count_up
parse_base min max base =
    if equal base (codes "*") then ok (span min max) else parse_parts min max (split_on b',' base)

-- `for i := 0; i < len(values); i += step`: the next value taken is `skip` values away.
unfoldable pub every : ℕ → ℕ → List ℕ → List ℕ
every step skip [] = []
every step zero (v ∷ vs) = v ∷ every step (step - 1) vs
every step (suc skip) (v ∷ vs) = every step skip vs

-- `s <= 0` is an error.
abbrev pub step_of : Option ℤ → Option ℕ
step_of (some (pos (suc n))) = some (suc n)
step_of _ = none

abbrev pub has_none : List ℕ → Bool
has_none [] = true
has_none (v ∷ vs) = false

unfoldable pub matcher : ℕ → List ℕ → FieldMatcher
unfolding every
matcher step vs = let taken = every step 0 vs in record { values = taken; any = has_none taken }

abbrev pub stepped : ℕ → ℕ → Bytes → Bytes → Option ℕ → Result FieldError FieldMatcher
stepped min max base s none = err (invalid_step s)
stepped min max base s (some step) = parse_base min max base >>= λ vs. ok (matcher step vs)

-- The field cut at the slashes.
abbrev pub parse_slashed : ℕ → ℕ → Bytes → List Bytes → Result FieldError FieldMatcher
parse_slashed min max field (base ∷ []) = stepped min max base [] (some 1)
parse_slashed min max field (base ∷ s ∷ []) = stepped min max base s (step_of (atoi s))
parse_slashed min max field _ = err (invalid_field field)

unfoldable pub parse_cron_field : Bytes → ℕ → ℕ → Result FieldError FieldMatcher
unfolding parse_base matcher split_on equal atoi
parse_cron_field field min max =
    if equal field (codes "*")
    then ok (record { values = []; any = true })
    else parse_slashed min max field (split_on b'/' field)

pub record CronSchedule : Type 0 where
  pub minute : FieldMatcher
  pub hour : FieldMatcher
  pub day_of_month : FieldMatcher
  pub month : FieldMatcher
  pub day_of_week : FieldMatcher

pub data CronError : Type 0 where
  field_count : ℕ → CronError
  in_minute in_hour in_day_of_month in_month in_day_of_week : FieldError → CronError

abbrev pub parse_fields : List Bytes → Result CronError CronSchedule
parse_fields (f0 ∷ f1 ∷ f2 ∷ f3 ∷ f4 ∷ []) = map_err in_minute (parse_cron_field f0 0 59) >>= λ m.
    map_err in_hour (parse_cron_field f1 0 23) >>= λ h.
    map_err in_day_of_month (parse_cron_field f2 1 31) >>= λ d.
    map_err in_month (parse_cron_field f3 1 12) >>= λ mo.
    map_err in_day_of_week (parse_cron_field f4 0 6) >>= λ w.
    ok (record { minute = m; hour = h; day_of_month = d; month = mo; day_of_week = w })
parse_fields fs = err (field_count (length fs))

unfoldable pub parse_cron : Bytes → Result CronError CronSchedule
unfolding parse_cron_field fields
parse_cron expr = parse_fields (fields expr)

abbrev pub matches : FieldMatcher → ℕ → Bool
matches m v = m.any || any_of (λ w. w == v) m.values
