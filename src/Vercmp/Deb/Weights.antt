-- ===== src/Vercmp/Deb/Weights.antt =====
-- The weights of `debianOrder` order the characters as deb-version(5) does.
use bongsu.Prelude.{ℕ, ◌≡◌, refl, true, not, [], ◌∷◌, map, arith, ◌==◌, and_split}
use bongsu.Prelude.Int.{pos, compare_ℤ}
use bongsu.Text.{Bytes}
use bongsu.Vercmp.Deb.{debian_order}
use bongsu.Vercmp.Deb.Loops.{has_no_nul, compare_weights}
use bongsu.Vercmp.Deb.Parts.{place, end_place, compare_place, compare_nondigits}

compare_place_lem :
    (x y : ℕ)
    → (not (x == 0)) ≡ true
    → (not (y == 0)) ≡ true
    → compare_ℤ (debian_order x) (debian_order y) ≡ compare_place (place x) (place y)
unfolding debian_order place
compare_place_lem x y p q = ground arith

end_place-left :
    (y : ℕ)
    → (not (y == 0)) ≡ true
    → compare_ℤ (pos 0) (debian_order y) ≡ compare_place end_place (place y)
unfolding debian_order place
end_place-left y q = ground arith

end_place-right :
    (x : ℕ)
    → (not (x == 0)) ≡ true
    → compare_ℤ (debian_order x) (pos 0) ≡ compare_place (place x) end_place
unfolding debian_order place
end_place-right x p = ground arith

pub compare_weights_lem :
    (a b : Bytes)
    → has_no_nul a ≡ true
    → has_no_nul b ≡ true
    → compare_weights (map debian_order a) (map debian_order b)
      ≡ compare_nondigits (map place a) (map place b)
compare_weights_lem [] [] p q = refl
compare_weights_lem [] (y ∷ b) p q =
    let (y_ne, rest) = and_split (not (y == 0)) q in
    rw (end_place-left y y_ne, compare_weights_lem [] b p rest) refl
compare_weights_lem (x ∷ a) [] p q =
    let (x_ne, rest) = and_split (not (x == 0)) p in
    rw (end_place-right x x_ne, compare_weights_lem a [] rest q) refl
compare_weights_lem (x ∷ a) (y ∷ b) p q =
    let (x_ne, rest_a) = and_split (not (x == 0)) p in
    let (y_ne, rest_b) = and_split (not (y == 0)) q in
    rw (compare_place_lem x y x_ne y_ne, compare_weights_lem a b rest_a rest_b) refl
