-- ===== src/Spool/Store/Evict.antt =====
-- What the eviction leaves in the spool, when no call fails.
use bongsu.Prelude.{
  ℕ, zero, suc, ◌-◌, ◌<◌, ◌≡◌, refl, sym, ap, ◌∙◌, true, false, none, some, List, [], ◌∷◌, arith,
  ltb, length, drop, Bool-cases, inl, inr, and_split, Option-cases,
}
use bongsu.Prelude.Sort.{filter}
use bongsu.Text.{Bytes, equal_self}
use bongsu.Text.Distinct.{other_than, lacks_name, all_distinct, filter-head}
use bongsu.Spool.Store.{
  Entry, Dir, Faults, WriteFault, find, without, remove_file, names, list_spool_files, evict_loop,
  evict_for_capacity,
}
use bongsu.Spool.Store.Listing.{
  listing, listing-without, all_distinct-listing, lacks_name-listing, find-without,
}

-- No call of the operating system fails.
abbrev pub no_faults : Faults
no_faults = record {
  mkdir_fails = false;
  read_dir_fails = false;
  read_fails = λ n. false;
  remove_fails = λ n. false;
  write_fault = λ n. WriteFault.writes;
  rename_fails = λ n. false;
}

pub found-in_listing :
    (n : Bytes) (ns : List Bytes) (d : Dir) → listing d ≡ n ∷ ns → (e : Entry) × (find n d ≡ some e)
found-in_listing n ns d h = elim (Option-cases (find n d)) [
  | inr found ↦ found
  | inl missing ↦
      let lacks = sym (ap (lacks_name n) h) ∙ lacks_name-listing n d missing in
      absurd (ground (arith, lacks, equal_self n))
]

-- The oldest are gone, so that fewer than `max` are left.
evict_loop-listing :
    (max : ℕ) (ns : List Bytes) (d : Dir)
    → 0 < max
    → listing d ≡ ns
    → all_distinct ns ≡ true
    → (listing (evict_loop no_faults max ns d).0 ≡ drop (suc (length ns) - max) ns)
      × ((evict_loop no_faults max ns d).1 ≡ true)
unfolding evict_loop remove_file
evict_loop-listing max [] d p h k = (h ∙ ap (λ i. drop i []) zero_left, refl)
  where
    zero_left : 0 ≡ 1 - max
    zero_left = omega arith
evict_loop-listing max (n ∷ ns) d p h k =
    let (e, found) = found-in_listing n ns d h in
    let gone = listing-without n d ∙ ap (filter (other_than n)) h ∙ filter-head n ns k in
    elim (Bool-cases (ltb (suc (length ns)) max)) [
      | inl few ↦
          let none_left : suc (suc (length ns)) - max ≡ 0 = ground arith in
          rw (few, none_left) (h, refl)
      | inr many ↦
          let one_more : suc (suc (length ns)) - max ≡ suc (suc (length ns) - max) = ground arith in
          rw (many, one_more, found)
            (evict_loop-listing max ns (without n d) p gone ((and_split (lacks_name n ns) k).1))
    ]

-- A name that is not in the directory does not come into it.
evict_loop-find :
    (m : Bytes) (max : ℕ) (ns : List Bytes) (d : Dir)
    → find m d ≡ none
    → find m (evict_loop no_faults max ns d).0 ≡ none
unfolding evict_loop remove_file
evict_loop-find m max [] d h = h
evict_loop-find m max (n ∷ ns) d h =
    let same = evict_loop-find m max ns d h in
    let less = evict_loop-find m max ns (without n d) (ground (arith, find-without m n d, h)) in
    elim (Bool-cases (ltb (suc (length ns)) max)) [
      | inl few ↦ rw few h
      | inr many ↦ elim (Option-cases (find n d)) [
        | inl missing ↦ rw (many, missing) same
        | inr (e, found) ↦ rw (many, found) less
      ]
    ]

module _ (d : Dir) (distinct : all_distinct (names d) ≡ true) where
  pub evict_for_capacity-listing :
      (max n : ℕ)
      → max ≡ suc n
      → listing (evict_for_capacity no_faults max d).0
        ≡ drop (suc (length (listing d)) - max) (listing d)
  unfolding evict_for_capacity list_spool_files
  evict_for_capacity-listing max n e =
      rw e
        (evict_loop-listing (suc n) (listing d) d (omega arith) refl
          (all_distinct-listing d distinct)).0

pub evict_for_capacity-find :
    (m : Bytes) (max : ℕ) (d : Dir)
    → find m d ≡ none
    → find m (evict_for_capacity no_faults max d).0 ≡ none
unfolding evict_for_capacity list_spool_files
evict_for_capacity-find m zero d h = h
evict_for_capacity-find m (suc n) d h = evict_loop-find m (suc n) (listing d) d h
