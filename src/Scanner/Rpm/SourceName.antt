-- ===== src/Scanner/Rpm/SourceName.antt =====
-- The name of a source package, cut out of the name of its file.
use bongsu.Prelude.{ℕ, ◌-◌, ◌≡◌, refl, ap, ◌∙◌, true, false, some, [], ◌∷◌, ◌++◌, arith, length}
use bongsu.Text.{Bytes, codes, is_empty}
use bongsu.Text.Pieces.{
  lacks, last_index_byte-append, take-length, length-append, has_suffix-append,
}
use bongsu.Scanner.Rpm.{trim_suffix, cut_dash, or_uncut, cut_again, cut_tail, rpm_source_name}

trim_suffix-append : (s t : Bytes) → trim_suffix (s ++ t) t ≡ s
unfolding trim_suffix
trim_suffix-append s t =
    let same : length (s ++ t) - length t ≡ length s = omega (arith, length-append s t) in
    rw (has_suffix-append s t, same) (take-length s t)

-- `s` is not empty.
cut_dash-append :
    (c : ℕ) (s t : Bytes) → lacks b'-' t ≡ true → cut_dash ((c ∷ s) ++ b'-' ∷ t) ≡ some (c ∷ s)
cut_dash-append c s t h =
    rw (last_index_byte-append b'-' (c ∷ s) t h) (ap (λ n. some (c ∷ n)) (take-length s (b'-' ∷ t)))

cut_tail-append :
    (c : ℕ) (s version release : Bytes)
    → lacks b'-' version ≡ true
    → lacks b'-' release ≡ true
    → cut_tail (((c ∷ s) ++ b'-' ∷ version) ++ b'-' ∷ release) ≡ c ∷ s
cut_tail-append c s version release h k =
    ap (cut_again (((c ∷ s) ++ b'-' ∷ version) ++ b'-' ∷ release))
      (cut_dash-append c (s ++ b'-' ∷ version) release k)
    ∙ ap (or_uncut ((c ∷ s) ++ b'-' ∷ version)) (cut_dash-append c s version h)

rpm_source_name-cut_tail :
    (src : Bytes) → rpm_source_name src ≡ cut_tail (trim_suffix src (codes ".src.rpm"))
unfolding rpm_source_name
rpm_source_name-cut_tail src = refl

-- From a file name that consists of a name that is not empty, a version and a release without a
-- dash in them, joined by dashes, and ".src.rpm", `rpmSourceName` gets the name.
pub rpm_source_name_lem :
    (name version release : Bytes)
    → is_empty name ≡ false
    → lacks b'-' version ≡ true
    → lacks b'-' release ≡ true
    → rpm_source_name ((name ++ b'-' ∷ version ++ b'-' ∷ release) ++ codes ".src.rpm") ≡ name
rpm_source_name_lem [] version release h k l = absurd (cc)
rpm_source_name_lem (c ∷ name) version release h k l =
    let tail = (c ∷ name) ++ b'-' ∷ version ++ b'-' ∷ release in
    rpm_source_name-cut_tail (tail ++ codes ".src.rpm")
    ∙ ap cut_tail (trim_suffix-append tail (codes ".src.rpm"))
    ∙ cut_tail-append c name version release k l
