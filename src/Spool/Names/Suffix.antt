-- ===== src/Spool/Names/Suffix.antt =====
-- The ends of the names in the spool directory.
use mathlib.Core.List.{reverse-append, append_assoc}
use bongsu.Prelude.{ℕ, ◌≡◌, refl, subst, Bool, true, false, not, ◌&&◌, List, [], ◌∷◌, ◌++◌, arith}
use bongsu.Text.{Bytes, equal, codes, has_suffix, has_prefix}
use bongsu.Text.Pieces.{has_suffix-append}
use bongsu.Spool.Names.{spool_file_name, sanitize_scan_id, padded}

-- The name of a temporary file is not the one of a report, whatever ends it.
pub equal-longer : (s : Bytes) (c : ℕ) (t : Bytes) → equal (s ++ c ∷ t) s ≡ false
unfolding equal
equal-longer [] c t = refl
equal-longer (b ∷ s) c t = ground (arith, equal-longer s c t)

-- The names that the agent gives to reports, and to no other file.
abbrev pub is_report_name : Bytes → Bool
is_report_name n = has_suffix n (codes ".json") && not (has_suffix n (codes ".tmp"))

pub is_report_name-tmp : (n : Bytes) → is_report_name (n ++ codes ".tmp") ≡ false
is_report_name-tmp n = ground (arith, has_suffix-append n (codes ".tmp"))

has_suffix-json-tmp : (s : Bytes) → has_suffix (s ++ codes ".json") (codes ".tmp") ≡ false
unfolding has_suffix has_prefix
has_suffix-json-tmp s = rw (reverse-append s (codes ".json")) refl

is_report_name-json : (s : Bytes) → is_report_name (s ++ codes ".json") ≡ true
is_report_name-json s = rw (has_suffix-append s (codes ".json"), has_suffix-json-tmp s) refl

pub is_report_name-spool_file_name :
    (t : ℕ) (scan_id : List ℕ) → is_report_name (spool_file_name t scan_id) ≡ true
unfolding spool_file_name
is_report_name-spool_file_name t scan_id =
    subst (λ n. is_report_name n ≡ true)
      (append_assoc (padded 20 t) (b'-' ∷ sanitize_scan_id scan_id) (codes ".json"))
      (is_report_name-json (padded 20 t ++ b'-' ∷ sanitize_scan_id scan_id))
