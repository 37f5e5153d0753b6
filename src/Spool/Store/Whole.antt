-- ===== src/Spool/Store/Whole.antt =====
-- Whatever fails in `SpoolReport`, no report is spooled half written.
use bongsu.Prelude.{
  ℕ, zero, suc, ◌≡◌, refl, ap, ◌∙◌, Bool, true, not, ◌||◌, none, some, List, [], ◌∷◌, ◌++◌, arith,
  take, all_of, Bool-cases, ◌⊎◌, inl, inr, Option-cases,
}
use bongsu.Prelude.Sort.{all_of-filter}
use bongsu.Text.{Bytes, equal, equal_self, codes}
use bongsu.Spool.Names.{spool_max_from_env, spool_file_name}
use bongsu.Spool.Names.Suffix.{is_report_name-tmp}
use bongsu.Spool.Store.{
  Entry, Dir, Faults, WriteFault, find, without, write_with, remove_file, is_spooled, put,
  dir_after, list_spool_files, evict_loop, evict_for_capacity, write_report, write_file, rename,
  spool_report, written, renamed, is_directory,
}
use bongsu.Spool.Store.Laws.{report_entry}

module _ (f : Faults) (q : Entry → Bool) where
  all_of-removed :
      (n : Bytes) (d : Dir) → all_of q d ≡ true → all_of q (dir_after d (remove_file f d n)) ≡ true
  unfolding remove_file without
  all_of-removed n d h =
      let less = all_of-filter q (λ e. not (equal e.name n)) d h in ground (arith, less)

  all_of-evict_loop :
      (max : ℕ) (ns : List Bytes) (d : Dir)
      → all_of q d ≡ true
      → all_of q (evict_loop f max ns d).0 ≡ true
  unfolding evict_loop remove_file without
  all_of-evict_loop max [] d h = h
  all_of-evict_loop max (n ∷ ns) d h =
      let less = all_of-evict_loop max ns (without n d) (all_of-filter q _ d h) in
      let same = all_of-evict_loop max ns d h in ground (arith, less, same, h)

  all_of-evict_for_capacity :
      (max : ℕ) (d : Dir) → all_of q d ≡ true → all_of q (evict_for_capacity f max d).0 ≡ true
  unfolding evict_for_capacity
  all_of-evict_for_capacity zero d h = h
  all_of-evict_for_capacity (suc n) d h = elim (Option-cases (list_spool_files f d)) [
    | inl error ↦ rw error h
    | inr (ns, listed) ↦ rw listed (all_of-evict_loop (suc n) ns d h)
  ]

  module _ (tmp final bytes : Bytes) (tmp_passes : (b : Bytes) → q (report_entry tmp b) ≡ true)
      (final_passes : q (report_entry final bytes) ≡ true) where
    all_of-put : (b : Bytes) (d : Dir) → all_of q d ≡ true → all_of q (put tmp b d) ≡ true
    unfolding without
    all_of-put b d h = rw (tmp_passes b) (all_of-filter q _ d h)

    find-put : (b : Bytes) (d : Dir) → find tmp (put tmp b d) ≡ some (report_entry tmp b)
    unfolding find
    find-put b d = rw (equal_self tmp) refl

    rename-cases :
        (d : Dir)
        → find tmp d ≡ some (report_entry tmp bytes)
        → (rename f d tmp final ≡ none)
          ⊎ (rename f d tmp final ≡ some (report_entry final bytes ∷ without final (without tmp d)))
    unfolding rename
    rename-cases d found = elim (Bool-cases (f.rename_fails final)) [
      | inl fails ↦ inl (rw (rename, found, fails) refl)
      | inr moves ↦ elim (Bool-cases (is_directory (find final d))) [
        | inl dir ↦ inl (rw (rename, found, moves, dir) refl)
        | inr free ↦ inr (rw (rename, found, moves, free) refl)
      ]
    ]

    all_of-renamed :
        (d : Dir)
        → all_of q d ≡ true
        → find tmp d ≡ some (report_entry tmp bytes)
        → all_of q (renamed f d tmp final (rename f d tmp final)).0 ≡ true
    unfolding without
    all_of-renamed d h found = elim (rename-cases d found) [
      | inl error ↦ rw error (all_of-removed tmp d h)
      | inr moved ↦ rw (moved, final_passes) (all_of-filter q _ _ (all_of-filter q _ d h))
    ]

    all_of-write_with :
        (w : WriteFault) (d : Dir)
        → all_of q d ≡ true
        → all_of q (written f tmp final (write_with w d tmp bytes)).0 ≡ true
    all_of-write_with WriteFault.writes d h =
        all_of-renamed (put tmp bytes d) (all_of-put bytes d h) (find-put bytes d)
    all_of-write_with WriteFault.not_opened d h = h
    all_of-write_with (WriteFault.cut_at k) d h = all_of-put (take k bytes) d h

    all_of-written :
        (d : Dir)
        → all_of q d ≡ true
        → all_of q (written f tmp final (write_file f d tmp bytes)).0 ≡ true
    unfolding write_file
    all_of-written d h = elim (Bool-cases (is_directory (find tmp d))) [
      | inl dir ↦ rw (dir, write_file) h
      | inr free ↦ rw (free, write_file) (all_of-write_with (f.write_fault tmp) d h)
    ]

-- An entry that is a spooled file passes the test.
abbrev pub if_spooled : (Entry → Bool) → Entry → Bool
if_spooled p e = not (is_spooled e) || p e

if_spooled-tmp :
    (p : Entry → Bool) (n b : Bytes) → if_spooled p (report_entry (n ++ codes ".tmp") b) ≡ true
if_spooled-tmp p n b = rw (is_report_name-tmp n) refl

if_spooled-passes : (p : Entry → Bool) (e : Entry) → p e ≡ true → if_spooled p e ≡ true
if_spooled-passes p e h = ground (arith, h)

-- The end of `SpoolReport`, after the eviction.
write_report-whole :
    (f : Faults) (p : Entry → Bool) (final bytes : Bytes) (d : Dir)
    → all_of (if_spooled p) d ≡ true
    → p (report_entry final bytes) ≡ true
    → all_of (if_spooled p) (write_report f d final bytes).0 ≡ true
unfolding write_report
write_report-whole f p final bytes d h k =
    all_of-written f (if_spooled p) (final ++ codes ".tmp") final bytes (if_spooled-tmp p final)
      (if_spooled-passes p (report_entry final bytes) k) d h

-- The part of `SpoolReport` behind its two early returns.
spool_report-cases :
    (f : Faults) (env : Bytes) (t : ℕ) (scan_id : List ℕ) (json : Bytes) (d : Dir)
    → ((spool_report f env t scan_id (some json) d).0 ≡ d)
      ⊎ (spool_report f env t scan_id (some json) d
          ≡ write_report f
              (evict_for_capacity f (spool_max_from_env env) d).0
              (spool_file_name t scan_id)
              json)
unfolding spool_report
spool_report-cases f env t scan_id json d = elim (Bool-cases f.mkdir_fails) [
  | inl fails ↦ inl (rw (spool_report, fails) refl)
  | inr made ↦ inr (rw (spool_report, made) refl)
]

-- Whatever calls of the operating system fail in `SpoolReport`, and wherever a write is cut off,
-- a test that all spooled files passed before, and that the report with its whole JSON passes, is
-- passed by all spooled files afterwards.
pub spool_report-whole :
    (f : Faults) (env : Bytes) (t : ℕ) (scan_id : List ℕ) (json : Bytes) (d : Dir)
    (p : Entry → Bool)
    → all_of (if_spooled p) d ≡ true
    → p (report_entry (spool_file_name t scan_id) json) ≡ true
    → all_of (if_spooled p) (spool_report f env t scan_id (some json) d).0 ≡ true
spool_report-whole f env t scan_id json d p h k = elim (spool_report-cases f env t scan_id json d) [
  | inl same ↦ ap (all_of (if_spooled p)) same ∙ h
  | inr written_by ↦
      ap (λ r. all_of (if_spooled p) r.0) written_by
      ∙ write_report-whole f p (spool_file_name t scan_id) json _
          (all_of-evict_for_capacity f (if_spooled p) (spool_max_from_env env) d h) k
]
