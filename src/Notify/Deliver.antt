-- ===== src/Notify/Deliver.antt =====
-- The loop over the attempts of a delivery, as `Send` of internal/server/api/notify.go,
-- `sendWebhook` of notifier_engine.go and `sendEmail` of notifier_email.go have it: attempt
-- number k, from 1 to n, ends it or goes on.
use bongsu.Prelude.{
  ℕ, zero, suc, ◌+◌, ◌≤◌, ◌<◌, ◌≡◌, refl, ◌⊎◌, inl, inr, arith, Bool-cases, ◌==◌, sym, ==_iff,
}

pub data Verdict (R : Type 0) : Type 0 where
  stop : R → Verdict R
  go_on : R → Verdict R

module _ {R : Type 0} where
  -- `last` is what the loop reports when it is over.
  unfoldable pub attempts_from : (ℕ → Verdict R) → ℕ → ℕ → R → R
  attempts_from judge zero k last = last
  attempts_from judge (suc left) k last = elim (judge k) [
    | stop r ↦ r
    | go_on r ↦ attempts_from judge left (suc k) r
  ]

  unfoldable pub deliver : (ℕ → Verdict R) → ℕ → R → R
  unfolding attempts_from
  deliver judge n last = attempts_from judge n 1 last

  -- The verdict with which the loop ends.
  pub record IsLast (judge : ℕ → Verdict R) (k n : ℕ) (r : R) : Type 0 where
    pub at : ℕ
    pub in_time : (k ≤ at) × (at ≤ n)
    pub earlier : (j : ℕ) → k ≤ j → j < at → (s : R) × (judge j ≡ go_on s)
    pub verdict : judge at ≡ stop r

  Verdict-cases : (v : Verdict R) → ((r : R) × (v ≡ stop r)) ⊎ ((r : R) × (v ≡ go_on r))
  Verdict-cases (stop r) = inl (r, refl)
  Verdict-cases (go_on r) = inr (r, refl)

  earlier_too :
      (judge : ℕ → Verdict R) (k at : ℕ)
      → ((s : R) × (judge k ≡ go_on s))
      → ((j : ℕ) → suc k ≤ j → j < at → (s : R) × (judge j ≡ go_on s))
      → (j : ℕ) → k ≤ j
      → j < at
      → (s : R) × (judge j ≡ go_on s)
  earlier_too judge k at here later j h l = elim (Bool-cases (j == k)) [
    | inl same ↦ rw ((==_iff j k).0 same) here
    | inr other ↦ later j (ground (arith, h, other)) l
  ]

  -- When the attempt number n stops, the loop ends with some attempt.
  attempts_from-IsLast :
      (judge : ℕ → Verdict R) (left k n : ℕ) (last : R)
      → k + left ≡ suc n
      → k ≤ n
      → ((r : R) × (judge n ≡ stop r))
      → IsLast judge k n (attempts_from judge left k last)
  unfolding attempts_from
  attempts_from-IsLast judge zero k n last s h f = absurd (omega (arith, s, h))
  attempts_from-IsLast judge (suc left) k n last s h (r, f) = elim (Verdict-cases (judge k)) [
    | inl (q, stops) ↦
        rw (attempts_from, stops)
          record {
            at = k;
            in_time = (omega arith, h);
            earlier = λ j a b. absurd (omega (arith, a, b));
            verdict = stops;
          }
    | inr (q, goes) ↦ elim (Bool-cases (k == n)) [
      | inl same ↦
          let goes_last : judge n ≡ go_on q = rw (sym ((==_iff k n).0 same)) goes in
          stop-go_on (judge n) f goes_last
      | inr other ↦
          let later : suc k ≤ n = ground (arith, h, other) in
          let ih = attempts_from-IsLast judge left (suc k) n q (omega (arith, s)) later (r, f) in
          rw (attempts_from, goes)
            record {
              at = ih.at;
              in_time = (omega (arith, ih.in_time.0), ih.in_time.1);
              earlier = earlier_too judge k ih.at (q, goes) ih.earlier;
              verdict = ih.verdict;
            }
    ]
  ]
    where
      stop-go_on : {A : Type 0} (v : Verdict R) {p q : R} → v ≡ stop p → v ≡ go_on q → A
      stop-go_on v e g = absurd (cc)

  pub deliver-IsLast :
      (judge : ℕ → Verdict R) (n : ℕ) (last : R)
      → 0 < n
      → ((r : R) × (judge n ≡ stop r))
      → IsLast judge 1 n (deliver judge n last)
  unfolding deliver
  deliver-IsLast judge n last h f =
      attempts_from-IsLast judge n 1 n last (omega arith) (omega (arith, h)) f
