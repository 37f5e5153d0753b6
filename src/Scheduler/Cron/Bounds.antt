-- ===== src/Scheduler/Cron/Bounds.antt =====
-- The values that a field of a cron expression is given.
use bongsu.Prelude.{
  ℕ, zero, suc, ◌+◌, ◌-◌, ◌≤◌, ◌≡◌, refl, Bool, true, ◌&&◌, ◌||◌, Option, none, some, List, [], ◌∷◌,
  ◌++◌, arith, leb, ltb, all_of, Bool-cases, Option-cases, inl, inr, and_split, take, drop,
}
use bongsu.Prelude.Int.{ℤ, pos, negsuc}
use bongsu.Prelude.Result.{
  Result, ok, err, ◌>>=◌, map_err, Ensures, Ensures->>=, Ensures-map_err, Ensures-ok,
}
use bongsu.Text.{Bytes, codes, equal, split_on, fields}
use bongsu.Vercmp.Chars.{index_byte}
use bongsu.Vercmp.Deb.{atoi}
use bongsu.Scheduler.Cron.{
  FieldMatcher, FieldError, CronSchedule, CronError, count_up, span_of, value_of, or_else,
  parse_part, parse_parts, parse_base, every, step_of, stepped, parse_slashed, matcher,
  parse_cron_field, parse_fields, parse_cron,
}

module _ (min max : ℕ) where
  abbrev pub in_range : ℕ → Bool
  in_range v = leb min v && leb v max

  abbrev AllInRange : List ℕ → Type 0
  AllInRange vs = all_of in_range vs ≡ true

  AllInRange-append : (vs ws : List ℕ) → AllInRange vs → AllInRange ws → AllInRange (vs ++ ws)
  AllInRange-append [] ws p q = q
  AllInRange-append (v ∷ vs) ws p q =
      let (here, rest) = and_split (in_range v) p in rw (here, AllInRange-append vs ws rest q)

  AllInRange-count_up : (n lo : ℕ) → min ≤ lo → lo + n ≤ max + 1 → AllInRange (count_up n lo)
  unfolding count_up
  AllInRange-count_up zero lo p q = refl
  AllInRange-count_up (suc n) lo p q =
      ground (arith, AllInRange-count_up n (lo + 1) (omega arith) (omega arith))

  AllInRange-every : (step skip : ℕ) (vs : List ℕ) → AllInRange vs → AllInRange (every step skip vs)
  unfolding every
  AllInRange-every step skip [] h = refl
  AllInRange-every step zero (v ∷ vs) h =
      let (here, rest) = and_split (in_range v) h in
      rw (here, AllInRange-every step (step - 1) vs rest)
  AllInRange-every step (suc skip) (v ∷ vs) h =
      AllInRange-every step skip vs (and_split (in_range v) h).1

  -- What a result that is not an error holds.
  abbrev OkInRange : Result FieldError (List ℕ) → Type 0
  OkInRange = Ensures AllInRange

  value_of-OkInRange : (o : Option ℤ) (e : FieldError) → OkInRange (or_else (value_of min max o) e)
  value_of-OkInRange none e = tt
  value_of-OkInRange (some (negsuc n)) e = tt
  value_of-OkInRange (some (pos n)) e = elim (Bool-cases (ltb n min || ltb max n)) [
    | inl bad ↦ rw bad tt
    | inr good ↦ rw good (ground arith)
  ]

  span_of-OkInRange :
      (lo hi : Option ℤ) (e : FieldError) → OkInRange (or_else (span_of min max lo hi) e)
  span_of-OkInRange none hi e = tt
  span_of-OkInRange (some (negsuc n)) hi e = tt
  span_of-OkInRange (some (pos lo)) none e = tt
  span_of-OkInRange (some (pos lo)) (some (negsuc n)) e = tt
  span_of-OkInRange (some (pos lo)) (some (pos hi)) e =
      elim (Bool-cases (ltb lo min || ltb max hi || ltb hi lo)) [
        | inl bad ↦ rw bad tt
        | inr good ↦ rw good (AllInRange-count_up (suc hi - lo) lo (ground arith) (ground arith))
      ]

  parse_part-OkInRange : (part : Bytes) → OkInRange (parse_part min max part)
  unfolding parse_part
  parse_part-OkInRange part = elim (Option-cases (index_byte part b'-')) [
    | inl e ↦ rw (e, parse_part) (value_of-OkInRange (atoi part) _)
    | inr (i, e) ↦
        rw (e, parse_part) (span_of-OkInRange (atoi (take i part)) (atoi (drop (suc i) part)) _)
  ]

  OkInRange-bind :
      (r s : Result FieldError (List ℕ))
      → OkInRange r
      → OkInRange s
      → OkInRange (r >>= λ vs. s >>= λ ws. ok (vs ++ ws))
  OkInRange-bind (err e) s p q = tt
  OkInRange-bind (ok vs) (err e) p q = tt
  OkInRange-bind (ok vs) (ok ws) p q = AllInRange-append vs ws p q

  parse_parts-OkInRange : (parts : List Bytes) → OkInRange (parse_parts min max parts)
  unfolding parse_parts
  parse_parts-OkInRange [] = refl
  parse_parts-OkInRange (part ∷ parts) =
      OkInRange-bind (parse_part min max part) (parse_parts min max parts)
        (parse_part-OkInRange part) (parse_parts-OkInRange parts)

  parse_base-OkInRange : (base : Bytes) → min ≤ max → OkInRange (parse_base min max base)
  unfolding parse_base
  parse_base-OkInRange base l = elim (Bool-cases (equal base (codes "*"))) [
    | inl e ↦
        rw (e, parse_base) (AllInRange-count_up (suc max - min) min (omega arith) (omega arith))
    | inr n ↦ rw (n, parse_base) (parse_parts-OkInRange (split_on b',' base))
  ]

  abbrev pub IsWithin : FieldMatcher → Type 0
  IsWithin m = AllInRange m.values

  abbrev MatcherInRange : Result FieldError FieldMatcher → Type 0
  MatcherInRange = Ensures IsWithin

  stepped_values :
      (step : ℕ) (r : Result FieldError (List ℕ))
      → OkInRange r
      → MatcherInRange (r >>= λ vs. ok (matcher step vs))
  unfolding matcher
  stepped_values step (ok vs) h = AllInRange-every step 0 vs h
  stepped_values step (err e) h = tt

  stepped-MatcherInRange :
      (base s : Bytes) (o : Option ℕ) → min ≤ max → MatcherInRange (stepped min max base s o)
  stepped-MatcherInRange base s none l = tt
  stepped-MatcherInRange base s (some step) l =
      stepped_values step (parse_base min max base) (parse_base-OkInRange base l)

  parse_slashed-MatcherInRange :
      (field : Bytes) (parts : List Bytes)
      → min ≤ max
      → MatcherInRange (parse_slashed min max field parts)
  parse_slashed-MatcherInRange field [] l = tt
  parse_slashed-MatcherInRange field (base ∷ []) l = stepped-MatcherInRange base [] (some 1) l
  parse_slashed-MatcherInRange field (base ∷ s ∷ []) l =
      stepped-MatcherInRange base s (step_of (atoi s)) l
  parse_slashed-MatcherInRange field (base ∷ s ∷ t ∷ parts) l = tt

  parse_cron_field-MatcherInRange :
      (field : Bytes) → min ≤ max → MatcherInRange (parse_cron_field field min max)
  unfolding parse_cron_field
  parse_cron_field-MatcherInRange field l = elim (Bool-cases (equal field (codes "*"))) [
    | inl e ↦ rw (e, parse_cron_field) refl
    | inr n ↦ rw (n, parse_cron_field) (parse_slashed-MatcherInRange field (split_on b'/' field) l)
  ]

-- Every value of a field lies between the bounds of that field.
pub record HasBounds (s : CronSchedule) : Type 0 where
  pub minute_bounds : IsWithin 0 59 s.minute
  pub hour_bounds : IsWithin 0 23 s.hour
  pub day_of_month_bounds : IsWithin 1 31 s.day_of_month
  pub month_bounds : IsWithin 1 12 s.month
  pub day_of_week_bounds : IsWithin 0 6 s.day_of_week

-- One field of an expression, with its error named.
field-IsWithin :
    {B : Type 0} (Q : B → Type 0) (name : FieldError → CronError) (field : Bytes) (min max : ℕ)
    (k : FieldMatcher → Result CronError B)
    → min ≤ max
    → ((m : FieldMatcher) → IsWithin min max m → Ensures Q (k m))
    → Ensures Q (map_err name (parse_cron_field field min max) >>= k)
field-IsWithin Q name field min max k l h =
    Ensures->>= (IsWithin min max) Q _ k
      (Ensures-map_err (IsWithin min max) name _ (parse_cron_field-MatcherInRange min max field l))
      h

parse_fields-HasBounds : (fs : List Bytes) → Ensures HasBounds (parse_fields fs)
parse_fields-HasBounds (f0 ∷ f1 ∷ f2 ∷ f3 ∷ f4 ∷ []) =
    field-IsWithin HasBounds _ f0 0 59 _ (omega arith) λ m pm.
      field-IsWithin HasBounds _ f1 0 23 _ (omega arith) λ h ph.
        field-IsWithin HasBounds _ f2 1 31 _ (omega arith) λ d pd.
          field-IsWithin HasBounds _ f3 1 12 _ (omega arith) λ mo pmo.
            field-IsWithin HasBounds _ f4 0 6 _ (omega arith) λ w pw. record {
              minute_bounds = pm;
              hour_bounds = ph;
              day_of_month_bounds = pd;
              month_bounds = pmo;
              day_of_week_bounds = pw;
            }
parse_fields-HasBounds [] = tt
parse_fields-HasBounds (f0 ∷ []) = tt
parse_fields-HasBounds (f0 ∷ f1 ∷ []) = tt
parse_fields-HasBounds (f0 ∷ f1 ∷ f2 ∷ []) = tt
parse_fields-HasBounds (f0 ∷ f1 ∷ f2 ∷ f3 ∷ []) = tt
parse_fields-HasBounds (f0 ∷ f1 ∷ f2 ∷ f3 ∷ f4 ∷ f5 ∷ fs) = tt

-- In a schedule that `parseCron` returns, the values of the minute lie in 0 to 59, of the hour in
-- 0 to 23, of the day of the month in 1 to 31, of the month in 1 to 12 and of the weekday in 0 to
-- 6.
pub parse_cron-HasBounds : (expr : Bytes) {s : CronSchedule} → parse_cron expr ≡ ok s → HasBounds s
unfolding parse_cron
parse_cron-HasBounds expr h =
    Ensures-ok HasBounds (parse_cron expr) (parse_fields-HasBounds (fields expr)) h
