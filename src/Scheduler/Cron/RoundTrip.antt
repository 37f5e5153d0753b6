-- ===== src/Scheduler/Cron/RoundTrip.antt =====
-- Cron fields as they are written out: items between commas, and a step.
use bongsu.Prelude.{
  ℕ, zero, suc, ◌-◌, ◌<◌, ◌≡◌, refl, ap, ◌∙◌, Bool, true, false, ◌&&◌, Option, none, some, List, [],
  ◌∷◌, ◌++◌, map, arith, leb, ltb, ◌==◌, all_of, and_split,
}
use bongsu.Prelude.Result.{ok}
use bongsu.Text.{Bytes, codes, equal, split_on, join}
use bongsu.Scheduler.Cron.{
  span, count_up, parse_part, parse_parts, parse_base, every, stepped, parse_slashed, matcher,
  has_none, parse_cron_field,
}
use bongsu.Scheduler.Cron.Bounds.{in_range}
use bongsu.Text.Pieces.{
  lacks, lacks-append, split_on-lacks, split_on-append, index_byte-lacks, index_byte-append,
  take-length, drop-length,
}
use bongsu.Scheduler.Cron.Decimal.{decimal, atoi-decimal, lacks-decimal}

-- An item of a field: a value or a range.
pub data Item : Type 0 where
  single : ℕ → Item
  between : ℕ → ℕ → Item

abbrev pub print_item : Item → Bytes
print_item (single v) = decimal v
print_item (between lo hi) = decimal lo ++ b'-' ∷ decimal hi

abbrev pub item_values : Item → List ℕ
item_values (single v) = v ∷ []
item_values (between lo hi) = span lo hi

abbrev pub is_item : ℕ → ℕ → Item → Bool
is_item min max (single v) = in_range min max v
is_item min max (between lo hi) = in_range min max lo && (in_range min max hi && leb lo hi)

abbrev pub all_values : List Item → List ℕ
all_values [] = []
all_values (i ∷ is) = item_values i ++ all_values is

abbrev pub print_items : List Item → Bytes
print_items is = join b',' (map print_item is)

module _ (min max : ℕ) (two_digits : max < 100) where
  parse_part-print_item :
      (i : Item) → is_item min max i ≡ true → parse_part min max (print_item i) ≡ ok (item_values i)
  unfolding parse_part
  parse_part-print_item (single v) h =
      let small : v < 100 = ground arith in
      rw (index_byte-lacks b'-' (decimal v) (lacks-decimal b'-' v small (omega arith)), parse_part)
        (rw (atoi-decimal v small) (ground arith))
  parse_part-print_item (between lo hi) h =
      let small_lo : lo < 100 = ground arith in
      let small_hi : hi < 100 = ground arith in
      let dashless = lacks-decimal b'-' lo small_lo (omega arith) in
      rw (index_byte-append b'-' (decimal lo) (decimal hi) dashless, parse_part)
        (rw
          (take-length (decimal lo) (b'-' ∷ decimal hi), drop-length (decimal lo) (decimal hi) b'-')
          (rw (atoi-decimal lo small_lo, atoi-decimal hi small_hi) (ground arith)))

  lacks-print_item :
      (b : ℕ) (i : Item)
      → b < b'0'
      → (b == b'-') ≡ false
      → is_item min max i ≡ true
      → lacks b (print_item i) ≡ true
  lacks-print_item b (single v) l d h = lacks-decimal b v (ground arith) l
  lacks-print_item b (between lo hi) l d h =
      lacks-append b (decimal lo) (b'-' ∷ decimal hi) (lacks-decimal b lo (ground arith) l)
        (ground (arith, lacks-decimal b hi))

  parse_parts-print :
      (is : List Item)
      → all_of (is_item min max) is ≡ true
      → parse_parts min max (map print_item is) ≡ ok (all_values is)
  unfolding parse_parts
  parse_parts-print [] h = refl
  parse_parts-print (i ∷ is) h =
      let (here, rest) = and_split (is_item min max i) h in
      rw (parse_part-print_item i here, parse_parts-print is rest)

  split_on-print :
      (i : Item) (is : List Item)
      → all_of (is_item min max) (i ∷ is) ≡ true
      → split_on b',' (print_items (i ∷ is)) ≡ map print_item (i ∷ is)
  unfolding join
  split_on-print i [] h =
      split_on-lacks b',' (print_item i)
        (lacks-print_item b',' i (omega arith) refl (and_split (is_item min max i) h).0)
  split_on-print i (j ∷ is) h =
      let (here, rest) = and_split (is_item min max i) h in
      split_on-append b',' (print_item i) (print_items (j ∷ is))
        (lacks-print_item b',' i (omega arith) refl here)
      ∙ ap (◌∷◌ (print_item i)) (split_on-print j is rest)

  lacks-print_items :
      (i : Item) (is : List Item)
      → all_of (is_item min max) (i ∷ is) ≡ true
      → lacks b'/' (print_items (i ∷ is)) ≡ true
  unfolding join
  lacks-print_items i [] h =
      lacks-print_item b'/' i (omega arith) refl (and_split (is_item min max i) h).0
  lacks-print_items i (j ∷ is) h =
      let (here, rest) = and_split (is_item min max i) h in
      lacks-append b'/' (print_item i) (b',' ∷ print_items (j ∷ is))
        (lacks-print_item b'/' i (omega arith) refl here) (rw (lacks-print_items j is rest))

-- A text that begins with a digit is not a star.
starts_low : Bytes → Bool
starts_low [] = false
starts_low (c ∷ s) = leb b'0' c

equal_star : (s : Bytes) → starts_low s ≡ true → equal s (codes "*") ≡ false
unfolding equal starts_low
equal_star [] h = refl
equal_star (c ∷ s) h = ground arith

starts_low-append : (s t : Bytes) → starts_low s ≡ true → starts_low (s ++ t) ≡ true
unfolding starts_low
starts_low-append [] t h = absurd (cc)
starts_low-append (c ∷ s) t h = h

starts_low-decimal : (n : ℕ) → starts_low (decimal n) ≡ true
unfolding starts_low decimal
starts_low-decimal n = ground arith

starts_low-print_item : (i : Item) → starts_low (print_item i) ≡ true
starts_low-print_item (single v) = starts_low-decimal v
starts_low-print_item (between lo hi) =
    starts_low-append (decimal lo) (b'-' ∷ decimal hi) (starts_low-decimal lo)

starts_low-print_items : (i : Item) (is : List Item) → starts_low (print_items (i ∷ is)) ≡ true
unfolding join
starts_low-print_items i [] = starts_low-print_item i
starts_low-print_items i (j ∷ is) =
    starts_low-append (print_item i) (b',' ∷ print_items (j ∷ is)) (starts_low-print_item i)

every_one : (vs : List ℕ) → every 1 0 vs ≡ vs
unfolding every
every_one [] = refl
every_one (v ∷ vs) = ap (◌∷◌ v) (every_one vs)

count_up-has_none : (n lo : ℕ) → 0 < n → has_none (count_up n lo) ≡ false
unfolding count_up
count_up-has_none zero lo h = absurd (omega arith)
count_up-has_none (suc n) lo h = refl

item_values-has_none :
    (min max : ℕ) (i : Item) → is_item min max i ≡ true → has_none (item_values i) ≡ false
item_values-has_none min max (single v) h = refl
item_values-has_none min max (between lo hi) h = count_up-has_none (suc hi - lo) lo (ground arith)

every-has_none :
    (step : ℕ) (vs ws : List ℕ) → has_none vs ≡ false → has_none (every step 0 (vs ++ ws)) ≡ false
unfolding every
every-has_none step [] ws h = absurd (cc)
every-has_none step (v ∷ vs) ws h = refl

-- An item list, and the step behind it if there is one.
abbrev pub print_field : List Item → Option ℕ → Bytes
print_field is none = print_items is
print_field is (some step) = print_items is ++ b'/' ∷ decimal step

abbrev pub is_step : Option ℕ → Bool
is_step none = true
is_step (some step) = ltb 0 step && ltb step 100

-- Every value, or each `step`-th of them from the first on.
abbrev pub chosen : Option ℕ → List ℕ → List ℕ
chosen none vs = vs
chosen (some step) vs = every step 0 vs

module _ (min max : ℕ) (two_digits : max < 100) (i : Item) (is : List Item)
    (items : all_of (is_item min max) (i ∷ is) ≡ true) where
  parse_base-print : parse_base min max (print_items (i ∷ is)) ≡ ok (all_values (i ∷ is))
  unfolding parse_base
  parse_base-print =
      rw (equal_star (print_items (i ∷ is)) (starts_low-print_items i is), parse_base)
        (rw (split_on-print min max two_digits i is items)
          (parse_parts-print min max two_digits (i ∷ is) items))

  stepped-print :
      (s : Bytes) (step : ℕ)
      → stepped min max (print_items (i ∷ is)) s (some step)
        ≡ ok (record { values = every step 0 (all_values (i ∷ is)); any = false })
  unfolding matcher
  stepped-print s step =
      let head = item_values-has_none min max i (and_split (is_item min max i) items).0 in
      rw parse_base-print (rw (every-has_none step (item_values i) (all_values is) head))

  parse_slashed-print :
      (o : Option ℕ)
      → is_step o ≡ true
      → parse_slashed min max (print_field (i ∷ is) o) (split_on b'/' (print_field (i ∷ is) o))
        ≡ ok (record { values = chosen o (all_values (i ∷ is)); any = false })
  parse_slashed-print none h =
      rw
        (split_on-lacks b'/' (print_items (i ∷ is))
          (lacks-print_items min max two_digits i is items))
        (stepped-print [] 1
          ∙ ap (λ vs. ok (record { values = vs; any = false })) (every_one (all_values (i ∷ is))))
  parse_slashed-print (some zero) h = absurd (ground arith)
  parse_slashed-print (some (suc n)) h =
      let small : suc n < 100 = ground arith in
      rw
        (
          split_on-append b'/' (print_items (i ∷ is)) (decimal (suc n))
              (lacks-print_items min max two_digits i is items),
          split_on-lacks b'/' (decimal (suc n)) (lacks-decimal b'/' (suc n) small (omega arith)),
        )
        (rw (atoi-decimal (suc n) small) (stepped-print (decimal (suc n)) (suc n)))

starts_low-print_field :
    (i : Item) (is : List Item) (o : Option ℕ) → starts_low (print_field (i ∷ is) o) ≡ true
starts_low-print_field i is none = starts_low-print_items i is
starts_low-print_field i is (some step) =
    starts_low-append (print_items (i ∷ is)) (b'/' ∷ decimal step) (starts_low-print_items i is)

-- A field printed from a nonempty list of single values and ranges between the bounds, whose
-- upper one is below 100, and from an optional step of 1 to 99, is parsed to the values of the
-- list in their order, of which the step picks every one or each step-th, and not as a wildcard.
pub parse_cron_field-print_field :
    (min max : ℕ) (i : Item) (is : List Item) (o : Option ℕ)
    → max < 100
    → all_of (is_item min max) (i ∷ is) ≡ true
    → is_step o ≡ true
    → parse_cron_field (print_field (i ∷ is) o) min max
      ≡ ok (record { values = chosen o (all_values (i ∷ is)); any = false })
unfolding parse_cron_field
parse_cron_field-print_field min max i is o two_digits items h =
    rw (equal_star (print_field (i ∷ is) o) (starts_low-print_field i is o), parse_cron_field)
      (parse_slashed-print min max two_digits i is items o h)
