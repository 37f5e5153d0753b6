-- ===== src/Scanner/Lines.antt =====
-- What the parsers of internal/agent/scanner use of `bufio.Scanner`: the lines of a file, without
-- the ends of line, up to one that does not fit into the buffer.
pub mod Laws
use bongsu.Prelude.{ℕ, Bool, true, false, List, [], ◌∷◌, ltb, ◌==◌, if◌then◌else◌, length}
use bongsu.Text.{Bytes, is_empty, split_on}

unfoldable pub drop_cr : Bytes → Bytes
drop_cr [] = []
drop_cr (c ∷ []) = if c == 13 then [] else c ∷ []
drop_cr (c ∷ d ∷ s) = c ∷ drop_cr (d ∷ s)

-- A file that ends with an end of line has no empty line behind it.
unfoldable pub drop_last_empty : List Bytes → List Bytes
drop_last_empty [] = []
drop_last_empty (l ∷ []) = if is_empty l then [] else l ∷ []
drop_last_empty (l ∷ m ∷ ls) = l ∷ drop_last_empty (m ∷ ls)

-- `Scan` and `Text`, until the end or `bufio.ErrTooLong`.
pub record Scanned : Type 0 where
  pub lines : List Bytes
  pub too_long : Bool

unfoldable pub within_buffer : ℕ → List Bytes → Scanned
unfolding drop_cr
within_buffer max [] = record { lines = []; too_long = false }
within_buffer max (l ∷ ls) =
    let rest = within_buffer max ls in
    if ltb (length l) max
    then record { lines = drop_cr l ∷ rest.lines; too_long = rest.too_long }
    else record { lines = []; too_long = true }

unfoldable pub scan_lines : ℕ → Bytes → Scanned
unfolding within_buffer drop_last_empty split_on
scan_lines max file = within_buffer max (drop_last_empty (split_on 10 file))
