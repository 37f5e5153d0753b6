-- ===== src/Http/Laws.antt =====
-- What the parameters of a request can ask for, and what passes the middleware.
use bongsu.Prelude.{
  ℕ, ◌≤◌, ◌<◌, ◌≡◌, refl, true, ◌||◌, arith, ltb, ◌==◌, all_of, length, if◌then◌else◌, Bool-cases,
  inl, inr,
}
use bongsu.Prelude.Int.{ℤ, pos, negsuc}
use bongsu.Text.{Bytes, is_empty, trim_space}
use bongsu.Notify.{env_int}
use bongsu.Http.{int_param, positive_or, max_limit, limit_param, max_offset, offset_param}
use bongsu.Http.Middleware.{is_request_id_char, clean_request_id}

positive_or-pos : (d : ℕ) (n : ℤ) → 0 < d → 0 < positive_or d n
positive_or-pos d (pos n) h = ground (arith, h)
positive_or-pos d (negsuc n) h = h

capped : (n top : ℕ) → (if ltb top n then top else n) ≤ top
capped n top = ground arith

asked-pos :
    (asked d top : ℕ)
    → 0 < d
    → 0 < top
    → 0 < (let n = if asked == 0 then d else asked in if ltb top n then top else n)
asked-pos asked d top h k = ground (arith, h, k)

-- With a default that is positive, the limit and the offset are within the settings.
pub limit_param-bounds :
    (v max_env offset offset_env : Bytes) (d : ℕ)
    → 0 < d
    → (0 < limit_param v max_env d)
      × (limit_param v max_env d ≤ max_limit max_env)
      × (offset_param offset offset_env ≤ max_offset offset_env)
unfolding limit_param max_limit offset_param
limit_param-bounds v max_env offset offset_env d h =
    let top = positive_or-pos 1000 (env_int max_env (pos 1000)) (omega arith) in
    (
      asked-pos (int_param v d) d (max_limit max_env) h top,
      capped (if int_param v d == 0 then d else int_param v d) (max_limit max_env),
      capped (int_param offset 0) (max_offset offset_env),
    )

-- An id that is kept has no more than 128 bytes, all of them allowed.
pub clean_request_id_lem :
    (raw : Bytes)
    → (length (clean_request_id raw) ≤ 128)
      × (all_of is_request_id_char (clean_request_id raw) ≡ true)
unfolding clean_request_id
clean_request_id_lem raw =
    let id = trim_space raw in
    elim (Bool-cases (is_empty id || ltb 128 (length id))) [
      | inl refused ↦ rw refused (omega arith, refl)
      | inr short ↦ elim (Bool-cases (all_of is_request_id_char id)) [
        | inl good ↦ rw (short, good) (ground (arith, short), good)
        | inr bad ↦ rw (short, bad) (omega arith, refl)
      ]
    ]
