-- ===== src/Spool/Store.antt =====
-- internal/agent/reporter/spool.go: the spool directory and what is written to it. A directory that
-- does not exist is the empty one. `Faults` says which calls of the operating system fail.
pub mod Listing
pub mod Evict
pub mod Laws
pub mod Whole
use bongsu.Prelude.{
  ℕ, zero, suc, Bool, true, false, not, ◌&&◌, Option, none, some, List, [], ◌∷◌, ◌++◌, map, ltb,
  if◌then◌else◌, length, take,
}
use bongsu.Prelude.Result.{Result, ok, err}
use bongsu.Prelude.Sort.{filter, insert, sort}
use bongsu.Text.{Bytes, codes, equal, has_suffix}
use bongsu.Text.Order.{string_le}
use bongsu.Spool.Names.{spool_max_from_env, spool_file_name, padded, sanitize_scan_id}

pub record Entry : Type 0 where
  pub name : Bytes
  pub is_dir : Bool
  pub content : Bytes

abbrev pub Dir : Type 0
Dir = List Entry

-- A write may stop after some of the bytes.
pub data WriteFault : Type 0 where
  writes : WriteFault
  not_opened : WriteFault
  cut_at : ℕ → WriteFault

pub record Faults : Type 0 where
  pub mkdir_fails : Bool
  pub read_dir_fails : Bool
  pub read_fails : Bytes → Bool
  pub remove_fails : Bytes → Bool
  pub write_fault : Bytes → WriteFault
  pub rename_fails : Bytes → Bool

unfoldable pub find : Bytes → Dir → Option Entry
find n [] = none
find n (e ∷ es) = let rest = find n es in if equal e.name n then some e else rest

unfoldable pub without : Bytes → Dir → Dir
unfolding filter
without n = filter (λ (e : Entry). not (equal e.name n))

abbrev pub is_spooled : Entry → Bool
is_spooled e =
    not e.is_dir && (has_suffix e.name (codes ".json") && not (has_suffix e.name (codes ".tmp")))

abbrev pub names : Dir → List Bytes
names = map (λ (e : Entry). e.name)

unfoldable pub spooled : Dir → List Bytes
unfolding filter
spooled d = names (filter is_spooled d)

-- `none` is an error.
unfoldable pub list_spool_files : Faults → Dir → Option (List Bytes)
unfolding spooled sort insert string_le
list_spool_files f d = if f.read_dir_fails then none else some (sort string_le (spooled d))

-- The file is gone, or there was none, or `os.Remove` fails.
pub data Removed : Type 0 where
  removed : Dir → Removed
  not_exist : Removed
  failed : Removed

unfoldable pub remove_file : Faults → Dir → Bytes → Removed
unfolding find without
remove_file f d n = elim (find n d) [
  | none ↦ not_exist
  | some e ↦ if f.remove_fails n then failed else removed (without n d)
]

abbrev pub is_directory : Option Entry → Bool
is_directory none = false
is_directory (some e) = e.is_dir

abbrev pub put : Bytes → Bytes → Dir → Dir
put n bytes d = record { name = n; is_dir = false; content = bytes } ∷ without n d

-- What a write leaves, and whether there was no error.
abbrev pub write_with : WriteFault → Dir → Bytes → Bytes → Dir × Bool
write_with writes d n bytes = (put n bytes d, true)
write_with not_opened d n bytes = (d, false)
write_with (cut_at k) d n bytes = (put n (take k bytes) d, false)

-- `os.WriteFile`.
unfoldable pub write_file : Faults → Dir → Bytes → Bytes → Dir × Bool
unfolding find without
write_file f d n bytes =
    if is_directory (find n d) then (d, false) else write_with (f.write_fault n) d n bytes

-- `os.Rename`; `none` is an error.
unfoldable pub rename : Faults → Dir → Bytes → Bytes → Option Dir
unfolding find without
rename f d from to = elim (find from d) [
  | none ↦ none
  | some e ↦
      if f.rename_fails to
      then none
      else if is_directory (find to d)
      then none
      else some (
          record { name = to; is_dir = e.is_dir; content = e.content }
          ∷ without to (without from d))
]

-- What is left, and whether there was no error.
unfoldable pub evict_loop : Faults → ℕ → List Bytes → Dir → Dir × Bool
unfolding remove_file
evict_loop f max [] d = (d, true)
evict_loop f max (oldest ∷ files) d =
    if ltb (length (oldest ∷ files)) max then (d, true) else elim (remove_file f d oldest) [
      | removed d' ↦ evict_loop f max files d'
      | not_exist ↦ evict_loop f max files d
      | failed ↦ (d, false)
    ]

abbrev pub evict_listed : Faults → ℕ → Dir → Option (List Bytes) → Dir × Bool
evict_listed f max d none = (d, false)
evict_listed f max d (some files) = evict_loop f max files d

-- `max` is 0 where the code's is 0 or negative, which no caller passes.
unfoldable pub evict_for_capacity : Faults → ℕ → Dir → Dir × Bool
unfolding list_spool_files evict_loop
evict_for_capacity f zero d = (d, true)
evict_for_capacity f (suc n) d = evict_listed f (suc n) d (list_spool_files f d)

pub data SpoolError : Type 0 where
  create_dir marshal_report write_temp rename_file : SpoolError

-- `_ = os.Remove(tmpPath)`
abbrev pub dir_after : Dir → Removed → Dir
dir_after d (removed d') = d'
dir_after d not_exist = d
dir_after d failed = d

abbrev pub renamed : Faults → Dir → Bytes → Bytes → Option Dir → Dir × Result SpoolError Bytes
renamed f d tmp final none = (dir_after d (remove_file f d tmp), err rename_file)
renamed f d tmp final (some d') = (d', ok final)

abbrev pub written : Faults → Bytes → Bytes → Dir × Bool → Dir × Result SpoolError Bytes
written f tmp final (d, false) = (d, err write_temp)
written f tmp final (d, true) = renamed f d tmp final (rename f d tmp final)

-- The end of `SpoolReport`, at the name of the file.
unfoldable pub write_report : Faults → Dir → Bytes → Bytes → Dir × Result SpoolError Bytes
unfolding write_file rename remove_file
write_report f d final bytes =
    let tmp = final ++ codes ".tmp" in written f tmp final (write_file f d tmp bytes)

-- `bytes` is what `json.Marshal` makes of the report, or `none` for its error.
unfoldable pub spool_report :
    Faults → Bytes → ℕ → List ℕ → Option Bytes → Dir → Dir × Result SpoolError Bytes
unfolding evict_for_capacity write_report spool_file_name spool_max_from_env
spool_report f env timestamp scan_id bytes d =
    if f.mkdir_fails then (d, err create_dir) else elim bytes [
      | none ↦ (d, err marshal_report)
      | some json ↦
          let (kept, evicted) = evict_for_capacity f (spool_max_from_env env) d in
          write_report f kept (spool_file_name timestamp scan_id) json
    ]
