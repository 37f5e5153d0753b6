-- ===== src/Approvals/Counts.antt =====
-- How many rows of the table are approved, before and behind each statement.
use bongsu.Prelude.{
  ℕ, suc, ◌≤◌, ◌≡◌, refl, subst, Bool, true, false, some, List, [], ◌∷◌, ◌++◌, arith, any_of,
  Bool-cases, inl, inr, and_split,
}
use bongsu.Text.{Bytes, equal, equal_iff}
use bongsu.Approvals.{
  approved, rejected, AiApproval, has_id, count, find, is_open_at, is_approved_at, update_where,
  is_same_action, replaced_by, new_row, insert_approval, decided, undecided,
}
use bongsu.Approvals.Execute.{or_value}
use bongsu.Approvals.Table.{ids_differ}

abbrev pub approved_of : Bytes → List AiApproval → ℕ
approved_of x rows = count (is_approved_at x) rows

pub count_none : {A : Type 0} (p : A → Bool) (xs : List A) → any_of p xs ≡ false → count p xs ≡ 0
count_none p [] h = refl
count_none p (x ∷ xs) h = ground (arith, count_none p xs, h)

pub any_of-equal :
    (x y : Bytes) (rows : List AiApproval)
    → equal y x ≡ true
    → any_of (has_id y) rows ≡ any_of (has_id x) rows
any_of-equal x y rows h = rw ((equal_iff y x).0 h) refl

-- A primary key has one row.
pub ids_differ-count :
    (x : Bytes) (rows : List AiApproval) → ids_differ rows ≡ true → count (has_id x) rows ≤ 1
unfolding ids_differ has_id
ids_differ-count x [] h = omega arith
ids_differ-count x (row ∷ rows) h =
    ground
      (arith, ids_differ-count x rows, any_of-equal x row.id rows, count_none (has_id x) rows, h)

pub approved_of-le :
    (x : Bytes) (rows : List AiApproval) → approved_of x rows ≤ count (has_id x) rows
unfolding is_approved_at
approved_of-le x [] = omega arith
approved_of-le x (row ∷ rows) = ground (arith, approved_of-le x rows)

-- An update whose rows keep their place in the count.
pub count-update_where :
    (q p : AiApproval → Bool) (f : AiApproval → AiApproval) (rows : List AiApproval)
    → ((row : AiApproval) → p row ≡ true → q (f row) ≡ q row)
    → count q (update_where p f rows) ≡ count q rows
unfolding update_where
count-update_where q p f [] h = refl
count-update_where q p f (row ∷ rows) h = ground (arith, count-update_where q p f rows h, h row)

pub count-append :
    (q : AiApproval → Bool) (rows : List AiApproval) (row : AiApproval)
    → q row ≡ false
    → count q (rows ++ row ∷ []) ≡ count q rows
count-append q [] row h = rw h refl
count-append q (r ∷ rows) row h = ground (arith, count-append q rows row h)

pub approved_of-insert :
    (x new_id : Bytes) (now : ℕ) (a : AiApproval) (rows : List AiApproval)
    → approved_of x (or_value rows (insert_approval new_id now a rows)) ≡ approved_of x rows
unfolding insert_approval is_approved_at has_id
approved_of-insert x new_id now a rows = elim (Bool-cases (any_of (is_same_action a) rows)) [
  | inl same ↦ rw same (
      count-update_where (is_approved_at x) (is_same_action a) (replaced_by now a) rows
        (λ row h. refl))
  | inr differs ↦ elim (Bool-cases (any_of (has_id new_id) rows)) [
    | inl taken ↦ rw (differs, taken) refl
    | inr free ↦
        rw (differs, free)
          (count-append (is_approved_at x) rows (new_row new_id now a) (ground arith))
  ]
]

-- A claim approves a row exactly when it returns one.
pub approved_of-claim :
    (x id by : Bytes) (now : ℕ) (rows : List AiApproval)
    → approved_of x rows
      ≤ approved_of x (update_where (is_open_at id) (decided approved now by) rows)
unfolding update_where is_open_at is_approved_at has_id
approved_of-claim x id by now [] = omega arith
approved_of-claim x id by now (row ∷ rows) = ground (arith, approved_of-claim x id by now rows)

pub approved_of-claimed :
    (id by : Bytes) (now : ℕ) (rows : List AiApproval) (row : AiApproval)
    → find (is_open_at id) rows ≡ some row
    → suc (approved_of id rows)
      ≤ approved_of id (update_where (is_open_at id) (decided approved now by) rows)
unfolding update_where find is_open_at is_approved_at has_id
approved_of-claimed id by now [] row h = absurd (cc)
approved_of-claimed id by now (r ∷ rows) row h =
    ground (arith, approved_of-claimed id by now rows row, approved_of-claim id id by now rows, h)

pub claimed_same :
    (x id by : Bytes) (now : ℕ) (s : List AiApproval) (row : AiApproval)
    → find (is_open_at id) s ≡ some row
    → equal id x ≡ true
    → suc (approved_of x s)
      ≤ approved_of x (update_where (is_open_at id) (decided approved now by) s)
claimed_same x id by now s row open_row same =
    let approves = approved_of-claimed id by now s row open_row in
    subst
      (λ (y : Bytes).
        suc (approved_of y s)
        ≤ approved_of y (update_where (is_open_at id) (decided approved now by) s))
      ((equal_iff id x).0 same) approves

pub is_open_at-approved :
    (x id by : Bytes) (now : ℕ) (row : AiApproval)
    → is_open_at by row ≡ true
    → is_approved_at x (decided rejected now id row) ≡ is_approved_at x row
unfolding is_open_at is_approved_at has_id
is_open_at-approved x id by now row h = ground (arith, h)

pub other_approval :
    (x id : Bytes) (row : AiApproval)
    → equal id x ≡ false
    → is_approved_at id row ≡ true
    → is_approved_at x (undecided row) ≡ is_approved_at x row
unfolding is_approved_at has_id
other_approval x id row h hit =
    let (at, status) = and_split (equal row.id id) hit in
    let same = (equal_iff row.id id).0 at in rw (same, h) refl

-- The rollback of one approval leaves the others.
pub approved_of-revert :
    (x id : Bytes) (rows : List AiApproval)
    → equal id x ≡ false
    → approved_of x (update_where (is_approved_at id) undecided rows) ≡ approved_of x rows
unfolding update_where is_approved_at has_id
approved_of-revert x id [] h = refl
approved_of-revert x id (row ∷ rows) h =
    ground (arith, approved_of-revert x id rows h, other_approval x id row h)
