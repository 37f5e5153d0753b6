-- ===== src/Spool/Tests.antt =====
-- The spool at concrete reports: two of three fit, the server takes one of them.
use bongsu.Prelude.{
  ℕ, ◌≡◌, refl, Bool, true, false, Option, none, some, List, [], ◌∷◌, ltb, not, all_of,
}
use bongsu.Prelude.Result.{ok}
use bongsu.Text.{Bytes, codes, has_suffix, equal, is_empty}
use bongsu.Spool.Names.{spool_file_name, spool_max_from_env}
use bongsu.Spool.Store.{Entry, Dir, Faults, WriteFault, names, find, list_spool_files, spool_report}
use bongsu.Spool.Store.Listing.{listing}
use bongsu.Spool.Store.Evict.{no_faults}
use bongsu.Spool.Store.Laws.{report_entry, with_report, spool_report_lem}
use bongsu.Spool.Store.Whole.{if_spooled, spool_report-whole}
use bongsu.Spool.Replay.{replay_spool}
use bongsu.Spool.Replay.Laws.{IsReplay, report_of, replay_spool-IsReplay}

abbrev first_id : List ℕ
first_id = codes " a/1 "

abbrev first_name : Bytes
first_name = codes "00000000000000000007-a_1.json"

abbrev second_name : Bytes
second_name = codes "00000000000000000012-noid.json"

abbrev third_name : Bytes
third_name = codes "00000000000000000100-c.json"

abbrev first_run : spool_file_name 7 first_id ≡ first_name
unfolding spool_file_name
first_run = refl

-- Two reports, a directory and a file that is none.
abbrev two_reports : Dir
two_reports =
    report_entry second_name (codes "2")
    ∷ record { name = codes "old.json"; is_dir = true; content = [] }
    ∷ report_entry first_name (codes "1")
    ∷ report_entry (codes "note") (codes "0")
    ∷ []

listing_run : listing two_reports ≡ first_name ∷ second_name ∷ []
unfolding list_spool_files has_suffix
listing_run = refl

-- The cap is 2, so that the oldest report goes.
spool_report_run :
    list_spool_files no_faults
      (spool_report no_faults (codes "2") 100 (codes "c") (some (codes "3")) two_reports).0
    ≡ some (second_name ∷ third_name ∷ [])
unfolding spool_report list_spool_files has_suffix equal
spool_report_run = refl

abbrev third : Bytes
third = spool_file_name 100 (codes "c")

spool_report_lem_example :
    let r = spool_report no_faults (codes "2") 100 (codes "c") (some (codes "3")) two_reports in
    (r.1 ≡ ok third)
    × (list_spool_files no_faults r.0
        ≡ some (with_report (spool_max_from_env (codes "2")) third (listing two_reports)))
    × (find third r.0 ≡ some (report_entry third (codes "3")))
unfolding names equal find spool_file_name
spool_report_lem_example =
    spool_report_lem (codes "2") 100 (codes "c") (codes "3") two_reports refl refl refl

-- The disk is full when the third report comes.
abbrev full_disk : Faults
full_disk = record {
  mkdir_fails = false;
  read_dir_fails = false;
  read_fails = λ n. false;
  remove_fails = λ n. false;
  write_fault = λ n. WriteFault.cut_at 0;
  rename_fails = λ n. false;
}

abbrev is_whole : Entry → Bool
is_whole e = not (is_empty e.content)

spool_report-whole_example :
    all_of
      (if_spooled is_whole)
      (spool_report full_disk (codes "2") 100 (codes "c") (some (codes "3")) two_reports).0
    ≡ true
unfolding has_suffix
spool_report-whole_example =
    spool_report-whole full_disk (codes "2") 100 (codes "c") (codes "3") two_reports is_whole refl
      refl

abbrev head_byte : Bytes → Option ℕ
head_byte [] = none
head_byte (c ∷ s) = some c

abbrev takes_one : ℕ → ℕ → Bool
takes_one sent r = ltb sent 1

replay_run :
    ((replay_spool head_byte takes_one no_faults two_reports).calls ≡ b'1' ∷ b'2' ∷ [])
    × ((replay_spool head_byte takes_one no_faults two_reports).sent ≡ 1)
unfolding replay_spool has_suffix equal
replay_run = (refl, refl)

replay_spool-IsReplay_example :
    let r = replay_spool head_byte takes_one no_faults two_reports in
    IsReplay head_byte takes_one
      (report_of head_byte takes_one two_reports)
      (record { dir = two_reports; sent = 0; calls = [] })
      (listing two_reports)
      (listing r.dir)
      r
unfolding equal
replay_spool-IsReplay_example = replay_spool-IsReplay head_byte takes_one two_reports refl
