-- ===== src/Approvals/Table.antt =====
-- The table of approvals under its statements: what its rows keep to.
use bongsu.Prelude.{
  ℕ, ◌≡◌, refl, Bool, true, false, not, ◌&&◌, ◌||◌, none, some, List, [], ◌∷◌, ◌++◌, arith, any_of,
  all_of, and_split, Bool-cases, inl, inr,
}
use bongsu.Text.{Bytes, equal_sym, is_empty}
use bongsu.Approvals.{
  Status, AiApproval, is_pending, has_id, update_where, is_same_action, replaced_by, decided,
  pending_differ,
}

-- `id TEXT PRIMARY KEY`
unfoldable pub ids_differ : List AiApproval → Bool
unfolding has_id
ids_differ [] = true
ids_differ (row ∷ rows) = not (any_of (has_id row.id) rows) && ids_differ rows

abbrev pub has_decision : AiApproval → Bool
has_decision row = elim row.decided_at [ none ↦ not (is_empty row.decided_by) | some t ↦ true ]

-- A pending row has no decision on it.
abbrev pub is_clean : AiApproval → Bool
is_clean row = not (is_pending row.status && has_decision row)

pub record IsTable (rows : List AiApproval) : Type 0 where
  pub ids : ids_differ rows ≡ true
  pub clean : all_of is_clean rows ≡ true
  pub actions : pending_differ rows ≡ true

-- An update that leaves the ids leaves whose they are.
any_of-update_where :
    (q p : AiApproval → Bool) (f : AiApproval → AiApproval) (rows : List AiApproval)
    → ((row : AiApproval) → q (f row) ≡ q row)
    → any_of q (update_where p f rows) ≡ any_of q rows
unfolding update_where
any_of-update_where q p f [] h = refl
any_of-update_where q p f (row ∷ rows) h = ground (arith, any_of-update_where q p f rows h, h row)

-- What the updates of a row keep: the identifier and the action, and a row that was not pending
-- does not become it.
pub record Keeps (f : AiApproval → AiApproval) : Type 0 where
  pub id : (row : AiApproval) → (f row).id ≡ row.id
  pub typ : (row : AiApproval) → (f row).action_type ≡ row.action_type
  pub subject : (row : AiApproval) → (f row).subject ≡ row.subject
  pub pends : (row : AiApproval) → is_pending (f row).status ≡ true → is_pending row.status ≡ true

abbrev pub KeepsId : (AiApproval → AiApproval) → Type 0
KeepsId f = (row : AiApproval) → (f row).id ≡ row.id

pub has_id-KeepsId :
    (f : AiApproval → AiApproval)
    → KeepsId f
    → (x : Bytes) (row : AiApproval) → has_id x (f row) ≡ has_id x row
unfolding has_id
has_id-KeepsId f k x row = rw (k row) refl

pub ids_differ-update_where :
    (p : AiApproval → Bool) (f : AiApproval → AiApproval) (rows : List AiApproval)
    → KeepsId f
    → ids_differ rows ≡ true
    → ids_differ (update_where p f rows) ≡ true
unfolding ids_differ update_where
ids_differ-update_where p f [] k h = refl
ids_differ-update_where p f (row ∷ rows) k h =
    let (here, rest) = and_split (not (any_of (has_id row.id) rows)) h in
    let kept = any_of-update_where (has_id row.id) p f rows (has_id-KeepsId f k row.id) in
    let ih = ids_differ-update_where p f rows k rest in
    elim (Bool-cases (p row)) [
      | inl hit ↦ rw (hit, k row, kept, ih) ground (arith, here)
      | inr miss ↦ rw (miss, kept, ih) ground (arith, here)
    ]

pub is_clean-update_where :
    (p : AiApproval → Bool) (f : AiApproval → AiApproval) (rows : List AiApproval)
    → ((row : AiApproval) → is_clean row ≡ true → is_clean (f row) ≡ true)
    → all_of is_clean rows ≡ true
    → all_of is_clean (update_where p f rows) ≡ true
unfolding update_where
is_clean-update_where p f [] k h = refl
is_clean-update_where p f (row ∷ rows) k h =
    let (here, rest) = and_split (is_clean row) h in
    let ih = is_clean-update_where p f rows k rest in
    elim (Bool-cases (p row)) [
      | inl hit ↦ rw (hit, k row here, ih) refl
      | inr miss ↦ rw (miss, here, ih) refl
    ]

is_same_action-Keeps :
    (f : AiApproval → AiApproval) (a row : AiApproval)
    → Keeps f
    → is_same_action a (f row) ≡ true
    → is_same_action a row ≡ true
unfolding is_same_action
is_same_action-Keeps f a row k = rw (k.typ row, k.subject row) ground (arith, k.pends row)

any_of-Keeps :
    (p : AiApproval → Bool) (f : AiApproval → AiApproval) (a : AiApproval) (rows : List AiApproval)
    → Keeps f
    → any_of (is_same_action a) rows ≡ false
    → any_of (is_same_action a) (update_where p f rows) ≡ false
unfolding update_where
any_of-Keeps p f a [] k h = refl
any_of-Keeps p f a (row ∷ rows) k h =
    ground (arith, any_of-Keeps p f a rows k, is_same_action-Keeps f a row k, h)

-- The test looks at the action alone.
is_same_action-of :
    (f : AiApproval → AiApproval) (a row : AiApproval)
    → Keeps f
    → is_same_action (f a) row ≡ is_same_action a row
unfolding is_same_action
is_same_action-of f a row k = rw (k.typ a, k.subject a) refl

any_of-of :
    (f : AiApproval → AiApproval) (a : AiApproval) (rows : List AiApproval)
    → Keeps f
    → any_of (is_same_action (f a)) rows ≡ any_of (is_same_action a) rows
any_of-of f a [] k = refl
any_of-of f a (row ∷ rows) k = rw (is_same_action-of f a row k, any_of-of f a rows k) refl

pending_differ-update_where :
    (p : AiApproval → Bool) (f : AiApproval → AiApproval) (rows : List AiApproval)
    → Keeps f
    → pending_differ rows ≡ true
    → pending_differ (update_where p f rows) ≡ true
unfolding pending_differ update_where
pending_differ-update_where p f [] k h = refl
pending_differ-update_where p f (row ∷ rows) k h =
    let ih = pending_differ-update_where p f rows k in
    let less = any_of-Keeps p f row rows k in
    elim (Bool-cases (p row)) [
      | inl hit ↦
          rw (hit, any_of-of f row (update_where p f rows) k) ground
            (arith, ih, less, k.pends row, h)
      | inr miss ↦ rw miss ground (arith, ih, less, h)
    ]

pub update_where-IsTable :
    (p : AiApproval → Bool) (f : AiApproval → AiApproval) (rows : List AiApproval)
    → Keeps f
    → ((row : AiApproval) → is_clean row ≡ true → is_clean (f row) ≡ true)
    → IsTable rows
    → IsTable (update_where p f rows)
update_where-IsTable p f rows k c h = record {
  ids = ids_differ-update_where p f rows k.id h.ids;
  clean = is_clean-update_where p f rows c h.clean;
  actions = pending_differ-update_where p f rows k h.actions;
}

pub replaced_by-Keeps : (now : ℕ) (a : AiApproval) → Keeps (replaced_by now a)
replaced_by-Keeps now a = record {
  id = λ row. refl;
  typ = λ row. refl;
  subject = λ row. refl;
  pends = λ row h. h;
}

pub decided-Keeps :
    (status : Status) (now : ℕ) (by : Bytes)
    → is_pending status ≡ false
    → Keeps (decided status now by)
decided-Keeps status now by h = record {
  id = λ row. refl;
  typ = λ row. refl;
  subject = λ row. refl;
  pends = λ row p. absurd (ground (arith, h, p));
}

pub any_of-append :
    (q : AiApproval → Bool) (rows : List AiApproval) (row : AiApproval)
    → any_of q (rows ++ row ∷ []) ≡ (any_of q rows || q row)
any_of-append q [] row = ground arith
any_of-append q (r ∷ rows) row = ground (arith, any_of-append q rows row)

has_id_sym : (a b : AiApproval) → has_id a.id b ≡ has_id b.id a
unfolding has_id
has_id_sym a b = equal_sym b.id a.id

pub ids_differ-append :
    (rows : List AiApproval) (row : AiApproval)
    → ids_differ rows ≡ true
    → any_of (has_id row.id) rows ≡ false
    → ids_differ (rows ++ row ∷ []) ≡ true
unfolding ids_differ
ids_differ-append [] row h new = refl
ids_differ-append (r ∷ rows) row h new =
    rw (any_of-append (has_id r.id) rows row, has_id_sym r row) ground
      (arith, ids_differ-append rows row, h, new)

is_same_action_sym :
    (a b : AiApproval)
    → is_same_action b a ≡ false
    → is_pending a.status ≡ true
    → is_same_action a b ≡ false
unfolding is_same_action
is_same_action_sym a b h p =
    rw (equal_sym b.action_type a.action_type, equal_sym b.subject a.subject) ground (arith, h, p)

pub pending_differ-append :
    (rows : List AiApproval) (row : AiApproval)
    → pending_differ rows ≡ true
    → any_of (is_same_action row) rows ≡ false
    → pending_differ (rows ++ row ∷ []) ≡ true
unfolding pending_differ
pending_differ-append [] row h new = ground arith
pending_differ-append (r ∷ rows) row h new =
    rw (any_of-append (is_same_action r) rows row) ground
      (arith, pending_differ-append rows row, is_same_action_sym r row, h, new)

pub clean-append :
    (rows : List AiApproval) (row : AiApproval)
    → all_of is_clean rows ≡ true
    → is_clean row ≡ true
    → all_of is_clean (rows ++ row ∷ []) ≡ true
clean-append [] row h k = rw k refl
clean-append (r ∷ rows) row h k =
    let (here, rest) = and_split (is_clean r) h in rw (here, clean-append rows row rest k) refl
