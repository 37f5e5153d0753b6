-- ===== src/Approvals/Laws.antt =====
-- The statements of internal/server/db/ai_approvals.go, one at a time.
use bongsu.Prelude.{ℕ, ◌≡◌, refl, false, List, any_of, Bool-cases, inl, inr}
use bongsu.Text.{Bytes}
use bongsu.Approvals.{
  approved, rejected, AiApproval, has_id, is_open_at, is_approved_at, update_where, is_same_action,
  replaced_by, new_row, insert_approval, create_ai_approval, decided,
  claim_ai_approval_for_approval, undecided, pending_differ, revert_ai_approval, reject_ai_approval,
  as_stored,
}
use bongsu.Approvals.Execute.{or_value}
use bongsu.Approvals.Table.{
  IsTable, update_where-IsTable, replaced_by-Keeps, decided-Keeps, ids_differ-append,
  pending_differ-append, clean-append, ids_differ-update_where, is_clean-update_where,
}

-- The test for the same action reads the type and the subject.
any_of-new_row :
    (new_id : Bytes) (now : ℕ) (a : AiApproval) (rows : List AiApproval)
    → any_of (is_same_action a) rows ≡ false
    → any_of (is_same_action (new_row new_id now a)) rows ≡ false
unfolding is_same_action
any_of-new_row new_id now a rows h = h

insert_approval-IsTable :
    (new_id : Bytes) (now : ℕ) (a : AiApproval) (rows : List AiApproval)
    → IsTable rows
    → IsTable (or_value rows (insert_approval new_id now a rows))
unfolding insert_approval
insert_approval-IsTable new_id now a rows t = elim (Bool-cases (any_of (is_same_action a) rows)) [
  | inl same ↦ rw same (
      update_where-IsTable (is_same_action a) (replaced_by now a) rows (replaced_by-Keeps now a)
        (λ row h. h) t)
  | inr differs ↦ elim (Bool-cases (any_of (has_id new_id) rows)) [
    | inl taken ↦ rw (differs, taken) t
    | inr free ↦
        rw (differs, free)
          record {
            ids = ids_differ-append rows (new_row new_id now a) t.ids free;
            clean = clean-append rows (new_row new_id now a) t.clean refl;
            actions =
                pending_differ-append rows (new_row new_id now a) t.actions
                  (any_of-new_row new_id now a rows differs);
          }
  ]
]

pub create_ai_approval-IsTable :
    (jsonb : Bytes → Bytes) (new_id : Bytes) (now : ℕ) (a : AiApproval) (rows : List AiApproval)
    → IsTable rows
    → IsTable (or_value rows (create_ai_approval jsonb new_id now a rows))
unfolding create_ai_approval
create_ai_approval-IsTable jsonb new_id now a rows =
    insert_approval-IsTable new_id now (as_stored jsonb a) rows

pub claim-IsTable :
    (now : ℕ) (id by : Bytes) (rows : List AiApproval)
    → IsTable rows
    → IsTable (claim_ai_approval_for_approval now id by rows).0
unfolding claim_ai_approval_for_approval
claim-IsTable now id by rows =
    update_where-IsTable (is_open_at id) (decided approved now by) rows
      (decided-Keeps approved now by refl) (λ row h. refl)

pub reject-IsTable :
    (now : ℕ) (id by : Bytes) (rows : List AiApproval)
    → IsTable rows
    → IsTable (reject_ai_approval now id by rows).0
unfolding reject_ai_approval
reject-IsTable now id by rows =
    update_where-IsTable (is_open_at by) (decided rejected now id) rows
      (decided-Keeps rejected now id refl) (λ row h. refl)

pub revert-IsTable :
    (id : Bytes) (rows : List AiApproval)
    → IsTable rows
    → IsTable (or_value rows (revert_ai_approval id rows))
unfolding revert_ai_approval
revert-IsTable id rows t =
    elim (Bool-cases (pending_differ (update_where (is_approved_at id) undecided rows))) [
      | inl differ ↦ rw differ record {
        ids = ids_differ-update_where (is_approved_at id) undecided rows (λ row. refl) t.ids;
        clean = is_clean-update_where (is_approved_at id) undecided rows (λ row h. refl) t.clean;
        actions = differ;
      }
      | inr clash ↦ rw clash t
    ]
