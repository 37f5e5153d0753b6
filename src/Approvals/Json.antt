-- ===== src/Approvals/Json.antt =====
-- internal/server/llm/llm.go: `ExtractJSON`, which finds the JSON object in what a model answers.
-- The index `i` is the suffix that is left, and the bytes from `start` on are put before the result.
pub mod Printed
use mathlib.Core.Option
use bongsu.Prelude.{
  ℕ, ◌+◌, ◌-◌, Bool, true, false, not, ◌&&◌, Option, none, some, List, [], ◌∷◌, ◌==◌, if◌then◌else◌,
  drop_while,
}
use bongsu.Prelude.Result.{Result, ok, err}
use bongsu.Text.{Bytes}

pub data JsonError : Type 0 where
  no_object unbalanced : JsonError

-- The variables of the loop: `depth`, `inStr` and `esc`.
pub record Nesting : Type 0 where
  pub depth : ℕ
  pub in_string : Bool
  pub escaped : Bool

abbrev pub outermost : Nesting
outermost = record { depth = 0; in_string = false; escaped = false }

abbrev pub in_string_step : ℕ → Nesting → Nesting
in_string_step ch n =
    if n.escaped
    then record n { escaped = false }
    else if ch == b'\\'
    then record n { escaped = true }
    else if ch == b'"'
    then record n { in_string = false }
    else n

abbrev pub outside_step : ℕ → Nesting → Nesting
outside_step ch n =
    if ch == b'"'
    then record n { in_string = true }
    else if ch == b'{'
    then record n { depth = n.depth + 1 }
    else if ch == b'}'
    then record n { depth = n.depth - 1 }
    else n

unfoldable pub nesting_step : ℕ → Nesting → Nesting
nesting_step ch n = if n.in_string then in_string_step ch n else outside_step ch n

-- The brace that ends the object. The loop starts at a brace, so that the depth is not 0 here.
unfoldable pub ends_object : ℕ → Nesting → Bool
ends_object ch n = not n.in_string && ch == b'}' && n.depth - 1 == 0

unfoldable pub extract_loop : Bytes → Nesting → Option Bytes
unfolding nesting_step ends_object
extract_loop [] n = none
extract_loop (ch ∷ s) n =
    let rest = extract_loop s (nesting_step ch n) in
    if ends_object ch n then some (ch ∷ []) else Option.map (λ (t : Bytes). ch ∷ t) rest

abbrev pub balanced_or_not : Option Bytes → Result JsonError Bytes
balanced_or_not none = err unbalanced
balanced_or_not (some t) = ok t

abbrev pub from_brace : Bytes → Result JsonError Bytes
from_brace [] = err no_object
from_brace (ch ∷ s) = balanced_or_not (extract_loop (ch ∷ s) outermost)

unfoldable pub extract_json : Bytes → Result JsonError Bytes
unfolding drop_while extract_loop
extract_json s = from_brace (drop_while (λ (ch : ℕ). not (ch == b'{')) s)
