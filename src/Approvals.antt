-- ===== src/Approvals.antt =====
-- internal/server/db/ai_approvals.go: the table of the AI's actions that wait for a person, with
-- migrations/064_ai_action_approvals.sql. Each SQL statement is one atomic step on the rows, as
-- PostgreSQL runs it: an update where its condition holds, and no change where it would break
-- the primary key or the unique index on the pending rows. `now` is the time of the statement,
-- `new_id` the identifier that `gen_random_uuid` makes, and `jsonb` the text that a column of
-- type JSONB gives back for the one put into it.
pub mod Execute
pub mod Actions
pub mod Counts
pub mod Undo
pub mod Handlers
pub mod Execution
pub mod Suppressing
pub mod Once
pub mod Decided
pub mod Table
pub mod Json
pub mod Analysis
pub mod Laws
mod Tests
use bongsu.Prelude.{
  ℕ, zero, suc, ◌+◌, ◌≡◌, refl, Bool, true, false, not, ◌&&◌, ◌||◌, Option, none, some, List, [],
  ◌∷◌, ◌++◌, arith, ltb, leb, if◌then◌else◌, any_of, take,
}
use bongsu.Prelude.Sort.{filter}
use bongsu.Prelude.Int.{ℤ, pos, negsuc}
use bongsu.Text.{Bytes, codes, equal, is_empty}

pub data Status : Type 0 where
  pending approved rejected : Status

-- The confidence is a number of thousandths, as in `Aipolicy`.
pub record AiApproval : Type 0 where
  pub id : Bytes
  pub action_type : Bytes
  pub subject : Bytes
  pub proposed : Bytes
  pub context : Bytes
  pub confidence : ℕ
  pub rule : Bytes
  pub reason : Bytes
  pub status : Status
  pub created_at : ℕ
  pub decided_at : Option ℕ
  pub decided_by : Bytes

abbrev pub is_pending : Status → Bool
is_pending pending = true
is_pending _ = false

abbrev pub is_approved : Status → Bool
is_approved approved = true
is_approved _ = false

-- `WHERE id=$1`
unfoldable pub has_id : Bytes → AiApproval → Bool
unfolding equal
has_id id row = equal row.id id

-- `WHERE id=$1 AND status='pending'`
unfoldable pub is_open_at : Bytes → AiApproval → Bool
unfolding has_id
is_open_at id row = has_id id row && is_pending row.status

-- `WHERE id=$1 AND status='approved'`
unfoldable pub is_approved_at : Bytes → AiApproval → Bool
unfolding has_id
is_approved_at id row = has_id id row && is_approved row.status

-- `UPDATE ... SET ... WHERE ...`
unfoldable pub update_where :
    (AiApproval → Bool) → (AiApproval → AiApproval) → List AiApproval → List AiApproval
update_where p f [] = []
update_where p f (row ∷ rows) =
    let rest = update_where p f rows in if p row then f row ∷ rest else row ∷ rest

-- The row that a statement on one identifier returns.
unfoldable pub find : (AiApproval → Bool) → List AiApproval → Option AiApproval
find p [] = none
find p (row ∷ rows) = let rest = find p rows in if p row then some row else rest

-- The index on the action type and the subject of the pending rows.
unfoldable pub is_same_action : AiApproval → AiApproval → Bool
unfolding equal
is_same_action a row =
    is_pending row.status && equal row.action_type a.action_type && equal row.subject a.subject

abbrev pub or_object : Bytes → Bytes
or_object text = if is_empty text then codes "{}" else text

-- `DO UPDATE SET`
abbrev pub replaced_by : ℕ → AiApproval → AiApproval → AiApproval
replaced_by now a row = record row {
  proposed = a.proposed;
  context = a.context;
  confidence = a.confidence;
  rule = a.rule;
  reason = a.reason;
  created_at = now;
}

-- The row that is inserted.
abbrev pub new_row : Bytes → ℕ → AiApproval → AiApproval
new_row new_id now a = record {
  id = new_id;
  action_type = a.action_type;
  subject = a.subject;
  proposed = a.proposed;
  context = a.context;
  confidence = a.confidence;
  rule = a.rule;
  reason = a.reason;
  status = pending;
  created_at = now;
  decided_at = none;
  decided_by = [];
}

-- The statement of `CreateAIApproval`; `none` is a primary key that is taken.
unfoldable pub insert_approval : Bytes → ℕ → AiApproval → List AiApproval → Option (List AiApproval)
unfolding is_same_action update_where has_id
insert_approval new_id now a rows =
    if any_of (is_same_action a) rows
    then some (update_where (is_same_action a) (replaced_by now a) rows)
    else if any_of (has_id new_id) rows
    then none
    else some (rows ++ new_row new_id now a ∷ [])

-- The approval as its columns hold it.
abbrev pub as_stored : (Bytes → Bytes) → AiApproval → AiApproval
as_stored jsonb a = record a {
  proposed = jsonb (or_object a.proposed);
  context = jsonb (or_object a.context);
}

unfoldable pub create_ai_approval :
    (Bytes → Bytes) → Bytes → ℕ → AiApproval → List AiApproval → Option (List AiApproval)
unfolding insert_approval
create_ai_approval jsonb new_id now a rows = insert_approval new_id now (as_stored jsonb a) rows

abbrev pub decided : Status → ℕ → Bytes → AiApproval → AiApproval
decided status now by row = record row { status = status; decided_at = some now; decided_by = by }

-- The rows, and the row that was claimed.
unfoldable pub claim_ai_approval_for_approval :
    ℕ → Bytes → Bytes → List AiApproval → List AiApproval × Option AiApproval
unfolding update_where is_open_at find
claim_ai_approval_for_approval now id by rows =
    (update_where (is_open_at id) (decided approved now by) rows, find (is_open_at id) rows)

abbrev pub undecided : AiApproval → AiApproval
undecided row = record row { status = pending; decided_at = none; decided_by = [] }

-- No two pending rows are of one action.
unfoldable pub pending_differ : List AiApproval → Bool
unfolding is_same_action
pending_differ [] = true
pending_differ (row ∷ rows) =
    not (is_pending row.status && any_of (is_same_action row) rows) && pending_differ rows

-- `none` is a violation of the index.
unfoldable pub revert_ai_approval : Bytes → List AiApproval → Option (List AiApproval)
unfolding update_where is_approved_at pending_differ
revert_ai_approval id rows =
    let next = update_where (is_approved_at id) undecided rows in
    if pending_differ next then some next else none

-- The statement has `decided_by=$2 WHERE id=$1`, and gets `decidedBy, id` for $1 and $2: it looks
-- for the row by the name of the person, and sets the id as the name.
unfoldable pub reject_ai_approval : ℕ → Bytes → Bytes → List AiApproval → List AiApproval × Bool
unfolding update_where is_open_at
reject_ai_approval now id by rows =
    (update_where (is_open_at by) (decided rejected now id) rows, any_of (is_open_at by) rows)

abbrev pub is_status : Status → AiApproval → Bool
is_status pending row = is_pending row.status
is_status approved row = is_approved row.status
is_status rejected row = not (is_pending row.status) && not (is_approved row.status)

abbrev pub count {ℓ} : {A : Type ℓ} → (A → Bool) → List A → ℕ
count p [] = 0
count p (x ∷ xs) = if p x then suc (count p xs) else count p xs

-- The counts of the three statuses.
unfoldable pub count_ai_approvals_by_status : List AiApproval → Status → ℕ
count_ai_approvals_by_status rows status = count (is_status status) rows

-- The number of rows that `ListAIApprovals` asks for.
unfoldable pub list_limit : ℤ → ℕ
list_limit (pos limit) = if leb limit 0 || ltb 1000 limit then 200 else limit
list_limit (negsuc n) = 200
