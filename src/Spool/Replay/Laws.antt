-- ===== src/Spool/Replay/Laws.antt =====
-- What `ReplaySpool` sends, and what it leaves in the spool.
use mathlib.Core.List.{append_assoc, append-nil}
use bongsu.Prelude.{
  ℕ, suc, ◌+◌, ◌≡◌, refl, sym, ap, ◌∙◌, Bool, true, false, ◌&&◌, Option, none, some, List, [], ◌∷◌,
  ◌++◌, map, arith, length, Bool-cases, inl, inr, and_split, Option-cases, ap₂,
}
use bongsu.Prelude.Sort.{filter}
use bongsu.Text.{Bytes, equal, equal_sym}
use bongsu.Text.Distinct.{other_than, lacks_name, all_distinct, filter-head}
use bongsu.Spool.Store.{Entry, Dir, find, without, remove_file, dir_after, names, list_spool_files}
use bongsu.Spool.Store.Listing.{listing, listing-without, find-without, all_distinct-listing}
use bongsu.Spool.Store.Evict.{no_faults, found-in_listing}
use bongsu.Spool.Replay.{Replayed, read_file, unmarshal_read, replay_files, replay_spool}

remove_file-found :
    (n : Bytes) (d : Dir) {e : Entry}
    → find n d ≡ some e
    → dir_after d (remove_file no_faults d n) ≡ without n d
unfolding remove_file
remove_file-found n d h = rw (dir_after, h) refl

module _ {Report : Type 0} (unmarshal : Bytes → Option Report) (accepts : ℕ → Report → Bool) where
  -- The report in a file, if it is one.
  abbrev pub report_of : Dir → Bytes → Option Report
  report_of d n = unmarshal_read unmarshal (read_file no_faults d n)

  abbrev pub all_accepted : ℕ → List Report → Bool
  all_accepted i [] = true
  all_accepted i (r ∷ rs) = accepts i r && all_accepted (suc i) rs

  map-report_of :
      (n : Bytes) (ns : List Bytes) (d : Dir)
      → lacks_name n ns ≡ true
      → map (report_of (without n d)) ns ≡ map (report_of d) ns
  unfolding read_file
  map-report_of n [] d h = refl
  map-report_of n (m ∷ ns) d h =
      let (here, rest) = and_split (other_than n m) h in
      let other : equal n m ≡ false = equal_sym n m ∙ ground (arith, here) in
      let same : read_file no_faults (without n d) m ≡ read_file no_faults d m =
        rw (read_file, find-without m n d, other) refl in
      ap₂ (◌∷◌) (ap (unmarshal_read unmarshal) same) (map-report_of n ns d rest)

  module _ (content : Bytes → Option Report) where
    -- The reports in the files that hold one.
    abbrev pub reports : List Bytes → List Report
    reports [] = []
    reports (n ∷ ns) = elim (content n) [ none ↦ reports ns | some r ↦ r ∷ reports ns ]

    reports-none : (n : Bytes) (ns : List Bytes) → content n ≡ none → reports (n ∷ ns) ≡ reports ns
    reports-none n ns h = rw (reports, h) refl

    reports-some :
        (n : Bytes) (ns : List Bytes) {r : Report}
        → content n ≡ some r
        → reports (n ∷ ns) ≡ r ∷ reports ns
    reports-some n ns h = rw (reports, h) refl

    -- No file is left, or the report in the first of them was refused.
    abbrev pub Stops : ℕ → List Bytes → List Report → Type 0
    Stops sent [] refusal = refusal ≡ []
    Stops sent (n ∷ ns) refusal =
        (r : Report) × (content n ≡ some r) × (accepts sent r ≡ false) × (refusal ≡ r ∷ [])

    -- The files are replayed in order up to those left: the reports in them were all accepted.
    pub record IsReplay (before : Replayed Report) (files left : List Bytes)
        (after : Replayed Report) : Type 0 where
      pub done : List Bytes
      pub refusal : List Report
      pub is_split : files ≡ done ++ left
      pub is_count : after.sent ≡ before.sent + length (reports done)
      pub are_accepted : all_accepted before.sent (reports done) ≡ true
      pub are_calls : after.calls ≡ before.calls ++ (reports done ++ refusal)
      pub is_stop : Stops after.sent left refusal

    IsReplay-dropped :
        (n : Bytes) (ns left : List Bytes) (d : Dir) (before after : Replayed Report)
        → content n ≡ none
        → IsReplay (record { dir = d; sent = before.sent; calls = before.calls }) ns left after
        → IsReplay before (n ∷ ns) left after
    IsReplay-dropped n ns left d before after none_in h = record {
      done = n ∷ h.done;
      refusal = h.refusal;
      is_split = ap (◌∷◌ n) h.is_split;
      is_count = rw (reports-none n h.done none_in) h.is_count;
      are_accepted = rw (reports-none n h.done none_in) h.are_accepted;
      are_calls = rw (reports-none n h.done none_in) h.are_calls;
      is_stop = h.is_stop;
    }

    IsReplay-accepted :
        (n : Bytes) (ns left : List Bytes) (d : Dir) (before after : Replayed Report) (r : Report)
        → content n ≡ some r
        → accepts before.sent r ≡ true
        → IsReplay
            (record { dir = d; sent = suc before.sent; calls = before.calls ++ r ∷ [] })
            ns
            left
            after
        → IsReplay before (n ∷ ns) left after
    IsReplay-accepted n ns left d before after r held taken h = record {
      done = n ∷ h.done;
      refusal = h.refusal;
      is_split = ap (◌∷◌ n) h.is_split;
      is_count = rw (reports-some n h.done held) (omega (arith, h.is_count));
      are_accepted = rw (reports-some n h.done held, taken) h.are_accepted;
      are_calls =
          rw (reports-some n h.done held)
            (h.are_calls ∙ append_assoc before.calls (r ∷ []) (reports h.done ++ h.refusal));
      is_stop = h.is_stop;
    }

    IsReplay-refused :
        (n : Bytes) (ns : List Bytes) (before : Replayed Report) (r : Report)
        → content n ≡ some r
        → accepts before.sent r ≡ false
        → IsReplay before
            (n ∷ ns)
            (n ∷ ns)
            (record { dir = before.dir; sent = before.sent; calls = before.calls ++ r ∷ [] })
    IsReplay-refused n ns before r held refused = record {
      done = [];
      refusal = r ∷ [];
      is_split = refl;
      is_count = omega arith;
      are_accepted = refl;
      are_calls = refl;
      is_stop = (r, held, refused, refl);
    }

    IsReplay-empty : (before : Replayed Report) → IsReplay before [] [] before
    IsReplay-empty before = record {
      done = [];
      refusal = [];
      is_split = refl;
      is_count = omega arith;
      are_accepted = refl;
      are_calls = sym (append-nil before.calls);
      is_stop = refl;
    }

    replay_files-IsReplay :
        (ns : List Bytes) (st : Replayed Report)
        → listing st.dir ≡ ns
        → all_distinct ns ≡ true
        → map (report_of st.dir) ns ≡ map content ns
        → let r = replay_files unmarshal accepts no_faults ns st in IsReplay st ns (listing r.dir) r
    unfolding replay_files
    replay_files-IsReplay [] st h k same = rw h (IsReplay-empty st)
    replay_files-IsReplay (n ∷ ns) st h k same =
        let (e, found) = found-in_listing n ns st.dir h in
        let gone = remove_file-found n st.dir found in
        let left_files =
          listing-without n st.dir ∙ ap (filter (other_than n)) h ∙ filter-head n ns k in
        let (lacks, distinct) = and_split (lacks_name n ns) k in
        let here : report_of st.dir n ≡ content n = cc in
        let rest : map (report_of st.dir) ns ≡ map content ns = cc in
        let rest_same = map-report_of n ns st.dir lacks ∙ rest in
        elim (Option-cases (content n)) [
          | inl none_in ↦
              rw (here ∙ none_in, gone, replay_files)
                (IsReplay-dropped n ns _ (without n st.dir) st _ none_in
                  (replay_files-IsReplay ns _ left_files distinct rest_same))
          | inr (r, held) ↦ elim (Bool-cases (accepts st.sent r)) [
            | inl taken ↦
                rw (here ∙ held, taken, gone, replay_files)
                  (IsReplay-accepted n ns _ (without n st.dir) st _ r held taken
                    (replay_files-IsReplay ns _ left_files distinct rest_same))
            | inr refused ↦
                rw (here ∙ held, refused, h, replay_files) (IsReplay-refused n ns st r held refused)
          ]
        ]

-- When no call of the operating system fails and the directory names nothing twice, `ReplaySpool`
-- cuts the listing into files that are gone and files that are left: the reports in the first
-- were given to `Send` in their order, all accepted, and the result is their number; either no
-- file is left, or the first file left holds a report that was given to `Send` last and was
-- refused. Files that hold no report are among those gone.
pub replay_spool-IsReplay :
    {Report : Type 0} (unmarshal : Bytes → Option Report) (accepts : ℕ → Report → Bool) (d : Dir)
    → all_distinct (names d) ≡ true
    → let r = replay_spool unmarshal accepts no_faults d in
      IsReplay unmarshal accepts
        (report_of unmarshal accepts d)
        (record { dir = d; sent = 0; calls = [] })
        (listing d)
        (listing r.dir)
        r
unfolding replay_spool list_spool_files
replay_spool-IsReplay unmarshal accepts d distinct =
    replay_files-IsReplay unmarshal accepts (report_of unmarshal accepts d) (listing d)
      (record { dir = d; sent = 0; calls = [] }) refl (all_distinct-listing d distinct) refl
