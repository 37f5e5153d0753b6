-- ===== src/Approvals/Undo.antt =====
-- A claim that is rolled back leaves the table as it was.
use bongsu.Prelude.{
  ℕ, ◌≡◌, refl, ap, ap₂, subst, ◌∙◌, Bool, true, false, not, Option, none, some, List, [], ◌∷◌,
  arith, any_of, all_of, and_split, Bool-cases, inl, inr,
}
use bongsu.Text.{Bytes, equal, equal_iff, is_empty}
use bongsu.Aipolicy.{none}
use bongsu.Approvals.{
  Status, pending, approved, rejected, AiApproval, is_pending, has_id, find, is_open_at,
  is_approved_at, update_where, decided, undecided,
}
use bongsu.Approvals.Table.{ids_differ, is_clean}

pub update_where_none :
    (p : AiApproval → Bool) (f : AiApproval → AiApproval) (rows : List AiApproval)
    → any_of p rows ≡ false
    → update_where p f rows ≡ rows
unfolding update_where
update_where_none p f [] h = refl
update_where_none p f (row ∷ rows) h = ground (arith, update_where_none p f rows, h)

pub any_of-has_id :
    (id : Bytes) (rows : List AiApproval)
    → any_of (has_id id) rows ≡ false
    → (any_of (is_open_at id) rows ≡ false) × (any_of (is_approved_at id) rows ≡ false)
unfolding is_open_at is_approved_at
any_of-has_id id [] h = (refl, refl)
any_of-has_id id (row ∷ rows) h = ground (arith, any_of-has_id id rows, h)

pub find-none :
    (p : AiApproval → Bool) (rows : List AiApproval) → any_of p rows ≡ false → find p rows ≡ none
unfolding find
find-none p [] h = refl
find-none p (row ∷ rows) h = ground (arith, find-none p rows, h)

pub find-any_of :
    (p : AiApproval → Bool) (rows : List AiApproval) → find p rows ≡ none → any_of p rows ≡ false
unfolding find
find-any_of p [] h = refl
find-any_of p (row ∷ rows) h = ground (arith, find-any_of p rows, h)

pub with_fields :
    (row : AiApproval) {s : Status} {at : Option ℕ} {by : Bytes}
    → s ≡ row.status
    → at ≡ row.decided_at
    → by ≡ row.decided_by
    → record row { status = s; decided_at = at; decided_by = by } ≡ row
with_fields row {s} {at} {by} p q r =
    ap (λ (s : Status). record row { status = s; decided_at = at; decided_by = by }) p
    ∙ ap (λ (at : Option ℕ). record row { decided_at = at; decided_by = by }) q
    ∙ ap (λ (by : Bytes). record row { decided_by = by }) r

pub pending_is : (s : Status) → is_pending s ≡ true → pending ≡ s
pending_is pending h = refl
pending_is approved h = absurd (ground (arith, h))
pending_is rejected h = absurd (ground (arith, h))

abbrev pub decision : Option ℕ → Bytes → Bool
decision at by = elim at [ none ↦ not (is_empty by) | some t ↦ true ]

pub no_decision : (at : Option ℕ) (by : Bytes) → decision at by ≡ false → (none ≡ at) × ([] ≡ by)
no_decision none [] h = (refl, refl)
no_decision none (b ∷ by) h = absurd (ground (arith, h))
no_decision (some t) by h = absurd (ground (arith, h))

-- A pending row without a decision is what the rollback makes of it.
pub undecided-decided :
    (now : ℕ) (by : Bytes) (row : AiApproval)
    → is_pending row.status ≡ true
    → is_clean row ≡ true
    → undecided (decided approved now by row) ≡ row
undecided-decided now by row p k =
    let (at, who) = no_decision row.decided_at row.decided_by (ground (arith, p, k)) in
    with_fields row (pending_is row.status p) at who

pub unchanged :
    (id by : Bytes) (now : ℕ) (rows : List AiApproval)
    → any_of (has_id id) rows ≡ false
    → update_where
        (is_approved_at id)
        undecided
        (update_where (is_open_at id) (decided approved now by) rows)
      ≡ rows
unchanged id by now rows h =
    let (no_open, no_approved) = any_of-has_id id rows h in
    rw (update_where_none (is_open_at id) (decided approved now by) rows no_open)
      (update_where_none (is_approved_at id) undecided rows no_approved)

pub no_other :
    (id : Bytes) (r : AiApproval) (rows : List AiApproval)
    → equal r.id id ≡ true
    → not (any_of (has_id r.id) rows) ≡ true
    → any_of (has_id id) rows ≡ false
no_other id r rows here new =
    subst (λ (y : Bytes). any_of (has_id y) rows ≡ false) ((equal_iff r.id id).0 here)
      (ground (arith, new))

-- A claim and its rollback.
pub update_where-undone :
    (id by : Bytes) (now : ℕ) (rows : List AiApproval) (row : AiApproval)
    → ids_differ rows ≡ true
    → all_of is_clean rows ≡ true
    → find (is_open_at id) rows ≡ some row
    → update_where
        (is_approved_at id)
        undecided
        (update_where (is_open_at id) (decided approved now by) rows)
      ≡ rows
unfolding update_where find ids_differ is_open_at is_approved_at has_id
update_where-undone id by now [] row d c h = absurd (cc)
update_where-undone id by now (r ∷ rows) row d c h =
    let (new, rest_differ) = and_split (not (any_of (has_id r.id) rows)) d in
    let (clean, rest_clean) = and_split (is_clean r) c in
    elim (Bool-cases (equal r.id id)) [
      | inl here ↦
          let alone = no_other id r rows here new in
          elim (Bool-cases (is_pending r.status)) [
            | inl open_row ↦
                rw (here, open_row) rw here
                  (ap₂ ◌∷◌ (undecided-decided now by r open_row clean)
                    (unchanged id by now rows alone))
            | inr closed ↦
                let missing = find-none (is_open_at id) rows (any_of-has_id id rows alone).0 in
                absurd (ground (arith, h, missing, here, closed))
          ]
      | inr there ↦
          let ih = update_where-undone id by now rows row rest_differ rest_clean in
          rw there rw there (ap (◌∷◌ r) (ih (ground (arith, h, there))))
    ]
