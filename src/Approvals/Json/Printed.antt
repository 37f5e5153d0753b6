-- ===== src/Approvals/Json/Printed.antt =====
-- What `extract_json` finds: the text of an object, in whatever text stands around it.
use mathlib.Core.Option
use mathlib.Core.List.{append_assoc, append-nil}
use bongsu.Prelude.{
  ℕ, suc, ◌≡◌, refl, sym, ap, ◌∙◌, and_split, Bool, true, false, not, ◌||◌, Option, none, some, [],
  ◌∷◌, ◌++◌, arith, ◌==◌, all_of, drop_while,
}
use bongsu.Prelude.Result.{ok}
use bongsu.Text.{Bytes}
use bongsu.Approvals.Json.{
  Nesting, outermost, nesting_step, ends_object, extract_loop, extract_json,
}

-- A byte between strings and braces: of a number, a name, a space, a bracket, a colon, a comma.
abbrev pub is_plain : ℕ → Bool
is_plain c = not (c == b'"' || c == b'{' || c == b'}')

-- A byte of a string that is not escaped.
abbrev pub is_letter : ℕ → Bool
is_letter c = not (c == b'"' || c == b'\\')

-- The text of a string: letters, and bytes after a backslash.
pub data Letters : Type 0 where
  done : Letters
  letter : (c : ℕ) → is_letter c ≡ true → Letters → Letters
  escape : ℕ → Letters → Letters

-- What stands between the braces of a JSON object: plain bytes, strings and objects.
pub data Content : Type 0 where
  end : Content
  plain : (c : ℕ) → is_plain c ≡ true → Content → Content
  quoted : Letters → Content → Content
  object : Content → Content → Content

abbrev pub print_letters : Letters → Bytes
print_letters done = b'"' ∷ []
print_letters (letter c is s) = c ∷ print_letters s
print_letters (escape c s) = b'\\' ∷ c ∷ print_letters s

abbrev pub print_content : Content → Bytes
print_content end = b'}' ∷ []
print_content (plain c is more) = c ∷ print_content more
print_content (quoted s more) = b'"' ∷ print_letters s ++ print_content more
print_content (object inner more) = b'{' ∷ print_content inner ++ print_content more

-- The text of an object.
abbrev pub print_object : Content → Bytes
print_object content = b'{' ∷ print_content content

abbrev in_object : ℕ → Nesting
in_object depth = record { depth = depth; in_string = false; escaped = false }

abbrev in_text : ℕ → Nesting
in_text depth = record { depth = depth; in_string = true; escaped = false }

-- The bytes before what is found in the rest.
abbrev put_before : Bytes → Option Bytes → Option Bytes
put_before s found = Option.map (λ (t : Bytes). s ++ t) found

put_before-map :
    (c : ℕ) (s : Bytes) (found : Option Bytes)
    → Option.map (λ (t : Bytes). c ∷ t) (put_before s found) ≡ put_before (c ∷ s) found
put_before-map c s none = refl
put_before-map c s (some t) = refl

put_before_nothing : (found : Option Bytes) → put_before [] found ≡ found
put_before_nothing none = refl
put_before_nothing (some t) = refl

put_before-append :
    (s t : Bytes) (found : Option Bytes)
    → put_before s (put_before t found) ≡ put_before (s ++ t) found
put_before-append s t none = refl
put_before-append s t (some u) = rw (append_assoc s t u) refl

-- One byte that does not end the object.
extract_loop-byte :
    (c : ℕ) (s rest : Bytes) (n m : Nesting) (found : Option Bytes)
    → ends_object c n ≡ false
    → nesting_step c n ≡ m
    → extract_loop (s ++ rest) m ≡ put_before s found
    → extract_loop (c ∷ s ++ rest) n ≡ put_before (c ∷ s) found
unfolding extract_loop
extract_loop-byte c s rest n m found goes_on step h =
    rw (goes_on, step, h) (put_before-map c s found)

-- One part after the other.
extract_loop-append :
    (s t rest : Bytes) (n m : Nesting) (found : Option Bytes)
    → extract_loop (s ++ (t ++ rest)) n ≡ put_before s (extract_loop (t ++ rest) m)
    → extract_loop (t ++ rest) m ≡ put_before t found
    → extract_loop ((s ++ t) ++ rest) n ≡ put_before (s ++ t) found
extract_loop-append s t rest n m found first second =
    rw (append_assoc s t rest, first, second) (put_before-append s t found)

letter-step : (c depth : ℕ) → is_letter c ≡ true → nesting_step c (in_text depth) ≡ in_text depth
unfolding nesting_step
letter-step c depth is = ground (arith, is)

plain-step : (c depth : ℕ) → is_plain c ≡ true → nesting_step c (in_object depth) ≡ in_object depth
unfolding nesting_step
plain-step c depth is = ground (arith, is)

plain-ends_object : (c : ℕ) (n : Nesting) → is_plain c ≡ true → ends_object c n ≡ false
unfolding ends_object
plain-ends_object c n is = ground (arith, is)

open-step : (depth : ℕ) → nesting_step b'{' (in_object depth) ≡ in_object (suc depth)
unfolding nesting_step
open-step depth = ground arith

-- The brace of an object in an object.
close-step :
    (depth : ℕ) (rest : Bytes)
    → extract_loop (b'}' ∷ rest) (in_object (suc (suc depth)))
      ≡ put_before (b'}' ∷ []) (extract_loop rest (in_object (suc depth)))
unfolding extract_loop nesting_step ends_object
close-step depth rest = ground arith

abbrev in_escape : ℕ → Nesting
in_escape depth = record { depth = depth; in_string = true; escaped = true }

extract_loop-letters :
    (s : Letters) (depth : ℕ) (rest : Bytes)
    → extract_loop (print_letters s ++ rest) (in_text depth)
      ≡ put_before (print_letters s) (extract_loop rest (in_object depth))
unfolding nesting_step ends_object
extract_loop-letters done depth rest =
    let found = extract_loop rest (in_object depth) in
    extract_loop-byte b'"' [] rest (in_text depth) (in_object depth) found refl refl
      (sym (put_before_nothing found))
extract_loop-letters (letter c is s) depth rest =
    extract_loop-byte c (print_letters s) rest (in_text depth) (in_text depth)
      (extract_loop rest (in_object depth)) refl (letter-step c depth is)
      (extract_loop-letters s depth rest)
extract_loop-letters (escape c s) depth rest =
    let found = extract_loop rest (in_object depth) in
    extract_loop-byte b'\\' (c ∷ print_letters s) rest (in_text depth) (in_escape depth) found refl
      refl
      (extract_loop-byte c (print_letters s) rest (in_escape depth) (in_text depth) found refl refl
        (extract_loop-letters s depth rest))

-- The rest of an object, from what its closing brace gives.
extract_loop-content :
    (content : Content) (depth : ℕ) (rest : Bytes) (found : Option Bytes)
    → extract_loop (b'}' ∷ rest) (in_object (suc depth)) ≡ put_before (b'}' ∷ []) found
    → extract_loop (print_content content ++ rest) (in_object (suc depth))
      ≡ put_before (print_content content) found
unfolding nesting_step ends_object
extract_loop-content end depth rest found h = h
extract_loop-content (plain c is more) depth rest found h =
    extract_loop-byte c (print_content more) rest (in_object (suc depth)) (in_object (suc depth))
      found (plain-ends_object c (in_object (suc depth)) is) (plain-step c (suc depth) is)
      (extract_loop-content more depth rest found h)
extract_loop-content (quoted s more) depth rest found h =
    extract_loop-byte b'"' (print_letters s ++ print_content more) rest (in_object (suc depth))
      (in_text (suc depth)) found refl refl
      (extract_loop-append (print_letters s) (print_content more) rest (in_text (suc depth))
        (in_object (suc depth)) found
        (extract_loop-letters s (suc depth) (print_content more ++ rest))
        (extract_loop-content more depth rest found h))
extract_loop-content (object inner more) depth rest found h =
    extract_loop-byte b'{' (print_content inner ++ print_content more) rest (in_object (suc depth))
      (in_object (suc (suc depth))) found refl (open-step (suc depth))
      (extract_loop-append (print_content inner) (print_content more) rest
        (in_object (suc (suc depth))) (in_object (suc depth)) found
        (extract_loop-content inner (suc depth) (print_content more ++ rest)
          (extract_loop (print_content more ++ rest) (in_object (suc depth)))
          (close-step depth (print_content more ++ rest)))
        (extract_loop-content more depth rest found h))

-- The whole object, from its first brace.
extract_loop-object :
    (content : Content) (rest : Bytes)
    → extract_loop (print_object content ++ rest) outermost ≡ some (print_object content)
unfolding nesting_step ends_object extract_loop
extract_loop-object content rest =
    extract_loop-byte b'{' (print_content content) rest outermost (in_object 1) (some []) refl refl
      (extract_loop-content content 0 rest (some []) refl)
    ∙ ap some (append-nil (print_object content))

-- In a text with the text of a JSON object after bytes that are no opening brace, and with any
-- bytes behind it, `ExtractJSON` finds the object, whatever quotes, escapes and braces its
-- strings hold and however deep objects stand in it.
pub extract_json-print_object :
    (noise rest : Bytes) (content : Content)
    → all_of (λ (c : ℕ). not (c == b'{')) noise ≡ true
    → extract_json (noise ++ (print_object content ++ rest)) ≡ ok (print_object content)
unfolding extract_json drop_while
extract_json-print_object [] rest content h = rw (extract_loop-object content rest) refl
extract_json-print_object (c ∷ noise) rest content h =
    let (here, later) = and_split (not (c == b'{')) h in
    rw here (extract_json-print_object noise rest content later)
