-- ===== src/Rbac/Laws.antt =====
-- What the scopes let a subject see.
use bongsu.Prelude.{
  ◌≡◌, refl, ap, ◌∙◌, true, false, ◌||◌, List, [], ◌∷◌, ◌++◌, arith, any_of, Bool-cases, inl, inr,
}
use bongsu.Text.{Bytes, equal, equal_iff, is_empty, one_of}
use bongsu.Rbac.{
  AccessScope, no_scope, append_unique, append_all, merge_from, merge_access_scopes, can_read_host,
}

one_of-append : (h : Bytes) (a b : List Bytes) → one_of h (a ++ b) ≡ (one_of h a || one_of h b)
unfolding one_of
one_of-append h [] b = refl
one_of-append h (i ∷ a) b = ground (arith, one_of-append h a b)

pub equal-is_empty : (h i : Bytes) → is_empty h ≡ false → is_empty i ≡ true → equal h i ≡ false
unfolding equal
equal-is_empty [] i k l = absurd (cc)
equal-is_empty (c ∷ h) [] k l = refl
equal-is_empty (c ∷ h) (d ∷ i) k l = absurd (cc)

module _ (h : Bytes) (named : is_empty h ≡ false) where
  pub one_of-append_unique :
      (items : List Bytes) (i : Bytes)
      → one_of h (append_unique items i) ≡ (one_of h items || equal h i)
  unfolding append_unique one_of
  one_of-append_unique items i = elim (Bool-cases (is_empty i)) [
    | inl blank ↦ rw (append_unique, blank) (ground (arith, equal-is_empty h i named blank))
    | inr given ↦ elim (Bool-cases (one_of i items)) [
      | inl there ↦
          rw (append_unique, given, there)
            (ground (
              arith,
              λ (e : equal h i ≡ true). ap (λ z. one_of z items) ((equal_iff h i).0 e) ∙ there,
            ))
      | inr new ↦ rw (append_unique, given, new) (one_of-append h items (i ∷ []) ∙ ground arith)
    ]
  ]

  pub one_of-append_all :
      (items is : List Bytes) → one_of h (append_all items is) ≡ (one_of h items || one_of h is)
  unfolding append_all one_of
  one_of-append_all items [] = ground arith
  one_of-append_all items (i ∷ is) =
      one_of-append_all (append_unique items i) is
      ∙ rw (one_of-append_unique items i) (ground arith)

  can_read_host-merge_from :
      (out : AccessScope) (scopes : List AccessScope)
      → can_read_host (merge_from out scopes) h
        ≡ (can_read_host out h || any_of (λ s. can_read_host s h) scopes)
  unfolding can_read_host merge_from
  can_read_host-merge_from out [] = ground arith
  can_read_host-merge_from out (s ∷ scopes) = elim (Bool-cases s.all) [
    | inl all ↦ rw all (ground arith)
    | inr some_hosts ↦ rw some_hosts (
        can_read_host-merge_from
          (record { all = out.all; host_ids = append_all out.host_ids s.host_ids }) scopes
        ∙ ground (arith, one_of-append_all out.host_ids s.host_ids, some_hosts))
  ]

-- `CanReadHost` of the scope that `MergeAccessScopes` makes allows a host, whose id is not empty,
-- exactly when one of the scopes allows it.
pub can_read_host-merge_access_scopes :
    (scopes : List AccessScope) (host_id : Bytes)
    → is_empty host_id ≡ false
    → can_read_host (merge_access_scopes scopes) host_id
      ≡ any_of (λ s. can_read_host s host_id) scopes
unfolding merge_access_scopes can_read_host one_of
can_read_host-merge_access_scopes scopes host_id named =
    can_read_host-merge_from host_id named no_scope scopes
