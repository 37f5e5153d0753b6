-- ===== src/Spool/Store/Laws.antt =====
-- What `SpoolReport` leaves in the spool.
use bongsu.Prelude.{
  ℕ, zero, suc, ◌-◌, ◌≡◌, refl, ap, ◌∙◌, true, false, Option, none, some, List, [], ◌∷◌, ◌++◌,
  arith, length, drop,
}
use bongsu.Prelude.Int.{ℤ, pos, negsuc}
use bongsu.Prelude.Result.{ok}
use bongsu.Prelude.Sort.{filter, insert, sort}
use bongsu.Text.{Bytes, equal, equal_self, codes}
use bongsu.Text.Order.{string_le}
use bongsu.Text.Distinct.{all_distinct}
use bongsu.Vercmp.Deb.{atoi}
use bongsu.Spool.Names.{spool_max_from_env, positive_or_default, spool_file_name}
use bongsu.Spool.Store.{
  Entry, Dir, find, without, names, spooled, list_spool_files, evict_for_capacity, write_report,
  write_file, rename, spool_report,
}
use bongsu.Spool.Names.Suffix.{equal-longer, is_report_name, is_report_name-spool_file_name}
use bongsu.Spool.Store.Evict.{no_faults, evict_for_capacity-listing, evict_for_capacity-find}
use bongsu.Spool.Store.Listing.{listing}

without_missing : (n : Bytes) (d : Dir) → find n d ≡ none → without n d ≡ d
unfolding without filter find
without_missing n [] h = refl
without_missing n (e ∷ d) h = ground (arith, without_missing n d)

abbrev pub report_entry : Bytes → Bytes → Entry
report_entry n bytes = record { name = n; is_dir = false; content = bytes }

without-report_entry :
    (n bytes : Bytes) (d : Dir) → find n d ≡ none → without n (report_entry n bytes ∷ d) ≡ d
unfolding without filter
without-report_entry n bytes d h = rw (equal_self n) (without_missing n d h)

rename-missing :
    (d : Dir) (from to bytes : Bytes)
    → equal from to ≡ false
    → find from d ≡ none
    → find to d ≡ none
    → rename no_faults (report_entry from bytes ∷ d) from to ≡ some (report_entry to bytes ∷ d)
unfolding rename find
rename-missing d from to bytes other h k =
    rw (equal_self from, rename, find, other, k)
      (ap (λ es. some (report_entry to bytes ∷ es))
        (ap (without to) (without-report_entry from bytes d h) ∙ without_missing to d k))

-- The end of `SpoolReport` at a name that is free.
write_report-missing :
    (d : Dir) (final bytes : Bytes)
    → find final d ≡ none
    → find (final ++ codes ".tmp") d ≡ none
    → write_report no_faults d final bytes ≡ (report_entry final bytes ∷ d, ok final)
unfolding write_report write_file
write_report-missing d final bytes missing tmp_missing =
    let tmp : Bytes = final ++ codes ".tmp" in
    rw
      (
        tmp_missing,
        without_missing tmp d tmp_missing,
        rename-missing d tmp final bytes (equal-longer final b'.' (codes "tmp")) tmp_missing
            missing,
      )
      refl

spooled-report_entry :
    (n bytes : Bytes) (d : Dir)
    → is_report_name n ≡ true
    → spooled (report_entry n bytes ∷ d) ≡ n ∷ spooled d
unfolding spooled filter
spooled-report_entry n bytes d h = rw h refl

positive_or_default-pos : (o : Option ℤ) → (n : ℕ) × (positive_or_default o ≡ suc n)
positive_or_default-pos none = (19, refl)
positive_or_default-pos (some (pos zero)) = (19, refl)
positive_or_default-pos (some (pos (suc n))) = (n, refl)
positive_or_default-pos (some (negsuc n)) = (19, refl)

spool_max_from_env-pos : (env : Bytes) → (n : ℕ) × (spool_max_from_env env ≡ suc n)
unfolding spool_max_from_env
spool_max_from_env-pos [] = (19, refl)
spool_max_from_env-pos (c ∷ v) = positive_or_default-pos (atoi (c ∷ v))

spool_report-write_report :
    (env : Bytes) (t : ℕ) (scan_id : List ℕ) (json : Bytes) (d : Dir)
    → spool_report no_faults env t scan_id (some json) d
      ≡ write_report no_faults
          (evict_for_capacity no_faults (spool_max_from_env env) d).0
          (spool_file_name t scan_id)
          json
unfolding spool_report
spool_report-write_report env t scan_id json d = refl

-- The listing after a report has come in: the oldest files make room.
abbrev pub with_report : ℕ → Bytes → List Bytes → List Bytes
with_report max name ns = insert string_le name (drop (suc (length ns) - max) ns)

list_spool_files-report_entry :
    (n bytes : Bytes) (d : Dir)
    → is_report_name n ≡ true
    → list_spool_files no_faults (report_entry n bytes ∷ d) ≡ some (insert string_le n (listing d))
unfolding list_spool_files sort
list_spool_files-report_entry n bytes d h = rw (spooled-report_entry n bytes d h) refl

find-report_entry :
    (n bytes : Bytes) (d : Dir) → find n (report_entry n bytes ∷ d) ≡ some (report_entry n bytes)
unfolding find
find-report_entry n bytes d = rw (equal_self n) refl

-- When no call of the operating system fails, the directory names nothing twice, and neither the
-- name of the report nor that of its temporary file is taken, `SpoolReport` returns the name, the
-- listing of the spool is then the one before without its oldest files, so many that with the new
-- one at most the cap are left, and with the name of the report put in its place, and the file of
-- that name holds the JSON.
pub spool_report_lem :
    (env : Bytes) (t : ℕ) (scan_id : List ℕ) (json : Bytes) (d : Dir)
    → all_distinct (names d) ≡ true
    → find (spool_file_name t scan_id) d ≡ none
    → find (spool_file_name t scan_id ++ codes ".tmp") d ≡ none
    → let r = spool_report no_faults env t scan_id (some json) d in
      (r.1 ≡ ok (spool_file_name t scan_id))
      × (list_spool_files no_faults r.0
          ≡ some (with_report (spool_max_from_env env) (spool_file_name t scan_id) (listing d)))
      × (find (spool_file_name t scan_id) r.0
          ≡ some (report_entry (spool_file_name t scan_id) json))
spool_report_lem env t scan_id json d distinct missing tmp_missing =
    let max = spool_max_from_env env in
    let name = spool_file_name t scan_id in
    let kept = (evict_for_capacity no_faults max d).0 in
    let (n, e) = spool_max_from_env-pos env in
    let free = evict_for_capacity-find name max d missing in
    let tmp_free = evict_for_capacity-find (name ++ codes ".tmp") max d tmp_missing in
    rw
      (
        spool_report-write_report env t scan_id json d,
        write_report-missing kept name json free tmp_free,
      )
      (
        refl,
        list_spool_files-report_entry name json kept (is_report_name-spool_file_name t scan_id)
            ∙ ap (λ ns. some (insert string_le name ns))
                (evict_for_capacity-listing d distinct max n e),
        find-report_entry name json kept,
      )
