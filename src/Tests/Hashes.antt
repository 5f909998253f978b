-- ===== src/Tests/Hashes.antt =====
-- The vectors of utils/hash_test.go, run on the model of utils/hash.go.
use aresdb.Prelude.{ℕ, ◌≡◌, refl, List, [], ◌∷◌}
use aresdb.Murmur.{murmur3_sum32, murmur3_sum64, murmur3_sum128}

abbrev four : List ℕ
four = 1 ∷ 2 ∷ 3 ∷ 4 ∷ []

abbrev seven : List ℕ
seven = 1 ∷ 2 ∷ 3 ∷ 4 ∷ 5 ∷ 6 ∷ 7 ∷ []

abbrev nine : List ℕ
nine = 1 ∷ 2 ∷ 3 ∷ 4 ∷ 5 ∷ 6 ∷ 7 ∷ 8 ∷ 9 ∷ []

sum32_one : murmur3_sum32 (1 ∷ []) 1 0 ≡ 3831157163
unfolding murmur3_sum32
sum32_one = refl

sum32_four : murmur3_sum32 four 4 0 ≡ 1043635621
unfolding murmur3_sum32
sum32_four = refl

sum32_seven : murmur3_sum32 seven 7 0 ≡ 4233664437
unfolding murmur3_sum32
sum32_seven = refl

sum32_nine : murmur3_sum32 nine 9 0 ≡ 2711154856
unfolding murmur3_sum32
sum32_nine = refl

sum128_four :
    murmur3_sum128 four 4 0 ≡ record { h1 = 720734999560851427; h2 = 16923441050003117939 }
unfolding murmur3_sum128
sum128_four = refl

sum128_nine :
    murmur3_sum128 nine 9 0 ≡ record { h1 = 13807401213100465550; h2 = 17366753655886151073 }
unfolding murmur3_sum128
sum128_nine = refl

sum64_seven : murmur3_sum64 seven 7 0 ≡ 17578618098293890537
unfolding murmur3_sum64
sum64_seven = refl
