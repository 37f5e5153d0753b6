-- ===== src/Spool/Replay.antt =====
-- internal/agent/reporter/spool.go: `ReplaySpool`. `unmarshal` is `json.Unmarshal` into a report, and
-- `accepts` tells whether `Send` takes a report, given how many were sent before in this replay.
pub mod Laws
use bongsu.Prelude.{
  ℕ, zero, suc, Bool, true, false, Option, none, some, List, [], ◌∷◌, ◌++◌, if◌then◌else◌, length,
}
use bongsu.Text.{Bytes}
use bongsu.Spool.Store.{Dir, Faults, find, remove_file, dir_after, list_spool_files}

-- `calls` are the reports given to `Send`, in order; `sent` is the count that is returned.
pub record Replayed (Report : Type 0) : Type 0 where
  pub dir : Dir
  pub sent : ℕ
  pub calls : List Report

-- `none` is an error.
unfoldable pub read_file : Faults → Dir → Bytes → Option Bytes
unfolding find
read_file f d n =
    if f.read_fails n then none else elim (find n d) [ none ↦ none | some e ↦ some e.content ]

module _ {Report : Type 0} where
  abbrev pub unmarshal_read : (Bytes → Option Report) → Option Bytes → Option Report
  unmarshal_read unmarshal none = none
  unmarshal_read unmarshal (some bytes) = unmarshal bytes

  -- `_ = os.Remove(path)`
  abbrev pub dropped : Faults → Bytes → Replayed Report → Replayed Report
  dropped f n st = record {
    dir = dir_after st.dir (remove_file f st.dir n);
    sent = st.sent;
    calls = st.calls;
  }

  abbrev pub refused : Report → Replayed Report → Replayed Report
  refused r st = record { dir = st.dir; sent = st.sent; calls = st.calls ++ r ∷ [] }

  -- A file that was sent counts as sent even when it is not removed.
  abbrev pub accepted : Faults → Bytes → Report → Replayed Report → Replayed Report
  accepted f n r st = record {
    dir = dir_after st.dir (remove_file f st.dir n);
    sent = suc st.sent;
    calls = st.calls ++ r ∷ [];
  }

module _ {Report : Type 0} (unmarshal : Bytes → Option Report) (accepts : ℕ → Report → Bool) where
  -- The loop over the files. One that is not read or not decoded is dropped.
  unfoldable pub replay_files : Faults → List Bytes → Replayed Report → Replayed Report
  unfolding read_file remove_file
  replay_files f [] st = st
  replay_files f (n ∷ ns) st = elim (unmarshal_read unmarshal (read_file f st.dir n)) [
    | none ↦ replay_files f ns (dropped f n st)
    | some r ↦ elim (accepts st.sent r) [
      | true ↦ replay_files f ns (accepted f n r st)
      | false ↦ refused r st
    ]
  ]

  abbrev pub replay_listed : Faults → Dir → Option (List Bytes) → Replayed Report
  replay_listed f d none = record { dir = d; sent = 0; calls = [] }
  replay_listed f d (some ns) = replay_files f ns (record { dir = d; sent = 0; calls = [] })

  unfoldable pub replay_spool : Faults → Dir → Replayed Report
  unfolding list_spool_files replay_files
  replay_spool f d = replay_listed f d (list_spool_files f d)
