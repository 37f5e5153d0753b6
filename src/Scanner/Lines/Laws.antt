-- ===== src/Scanner/Lines/Laws.antt =====
-- A file written line by line is scanned to its lines.
use bongsu.Prelude.{
  ℕ, ◌≡◌, refl, ap, sym, ◌∙◌, Bool, true, false, not, ◌&&◌, List, [], ◌∷◌, ◌++◌, arith, ltb, ◌==◌,
  length, all_of, and_split,
}
use bongsu.Text.{Bytes, split_on}
use bongsu.Text.Pieces.{lacks, split_on-append}
use bongsu.Scanner.Lines.{drop_cr, drop_last_empty, within_buffer, scan_lines}

-- The lines, each with its end.
unfoldable pub unlines : List Bytes → Bytes
unlines [] = []
unlines (l ∷ ls) = l ++ 10 ∷ unlines ls

-- The line has no end of line in it, and fits into the buffer.
abbrev pub is_line : ℕ → Bytes → Bool
is_line max l = lacks 10 l && (lacks 13 l && ltb (length l) max)

drop_cr-lacks : (l : Bytes) → lacks 13 l ≡ true → drop_cr l ≡ l
unfolding drop_cr
drop_cr-lacks [] h = refl
drop_cr-lacks (c ∷ []) h = ground arith
drop_cr-lacks (c ∷ d ∷ l) h = ap (◌∷◌ c) (drop_cr-lacks (d ∷ l) ((and_split (not (c == 13)) h).1))

split_on-nothing : split_on 10 (unlines []) ≡ [] ∷ []
unfolding unlines split_on
split_on-nothing = refl

module _ (max : ℕ) where
  split_on-unlines :
      (l : Bytes) (ls : List Bytes)
      → all_of (is_line max) (l ∷ ls) ≡ true
      → split_on 10 (unlines (l ∷ ls)) ≡ l ∷ split_on 10 (unlines ls)
  unfolding unlines
  split_on-unlines l ls h =
      split_on-append 10 l (unlines ls)
        ((and_split (lacks 10 l) ((and_split (is_line max l) h).0)).0)

  drop_last_empty-unlines :
      (ls : List Bytes)
      → all_of (is_line max) ls ≡ true
      → drop_last_empty (split_on 10 (unlines ls)) ≡ ls
  unfolding drop_last_empty
  drop_last_empty-unlines [] h = ap drop_last_empty split_on-nothing
  drop_last_empty-unlines (l ∷ []) h =
      ap drop_last_empty (split_on-unlines l [] h ∙ ap (◌∷◌ l) split_on-nothing)
  drop_last_empty-unlines (l ∷ m ∷ ls) h =
      let (here, rest) = and_split (is_line max l) h in
      let second = split_on-unlines m ls rest in
      ap drop_last_empty (split_on-unlines l (m ∷ ls) h ∙ ap (◌∷◌ l) second)
      ∙ ap (λ ms. l ∷ drop_last_empty ms) (sym second)
      ∙ ap (◌∷◌ l) (drop_last_empty-unlines (m ∷ ls) rest)

  within_buffer-lines :
      (ls : List Bytes)
      → all_of (is_line max) ls ≡ true
      → within_buffer max ls ≡ record { lines = ls; too_long = false }
  unfolding within_buffer
  within_buffer-lines [] h = refl
  within_buffer-lines (l ∷ ls) h =
      let (here, rest) = and_split (is_line max l) h in
      let (p, q) = and_split (lacks 10 l) here in
      let (no_cr, fits) = and_split (lacks 13 l) q in
      rw (within_buffer-lines ls rest, fits, drop_cr-lacks l no_cr) refl

  pub scan_lines-unlines :
      (ls : List Bytes)
      → all_of (is_line max) ls ≡ true
      → scan_lines max (unlines ls) ≡ record { lines = ls; too_long = false }
  unfolding scan_lines
  scan_lines-unlines ls h = rw (drop_last_empty-unlines ls h) (within_buffer-lines ls h)
