-- ===== src/HotLoop/Agree.antt =====
-- When the three sums agree.
use learn_cpp.Prelude.{
  ℕ, zero, suc, ◌+◌, ◌%◌, ◌^◌, ◌<◌, ◌≡◌, refl, ◌∙◌, List, [], ◌∷◌, length, get_or, drop, add64,
  arith,
}
use learn_cpp.HotLoop.{
  naive_loop, sum_naive, pointer_loop, sum_cache_friendly, Lanes, add_epi32, add_lanes, simd_loop,
  sum_simd,
}

-- The sum without wrapping.
abbrev pub total : List ℕ → ℕ
total [] = 0
total (x ∷ v) = x + total v

naive_loop-total : (s : ℕ) (v : List ℕ) → s < 2 ^ 64 → naive_loop s v ≡ (s + total v) % 2 ^ 64
unfolding naive_loop
naive_loop-total s [] h = omega arith
naive_loop-total s (x ∷ v) h =
    let rest = naive_loop-total (add64 s x) v (omega arith) in omega (arith, rest)

abbrev lane_sum : Lanes → ℕ
lane_sum t = t.lane0 + t.lane1 + t.lane2 + t.lane3

add_lanes-small : (t : Lanes) → lane_sum t < 2 ^ 31 → add_lanes t ≡ lane_sum t
unfolding add_lanes
add_lanes-small t h = ground arith

add_epi32-small :
    (s t : Lanes)
    → lane_sum s + lane_sum t < 2 ^ 31
    → lane_sum (add_epi32 s t) ≡ lane_sum s + lane_sum t
unfolding add_epi32
add_epi32-small s t h = omega arith

simd_loop-total :
    (t : Lanes) (v : List ℕ) → lane_sum t + total v < 2 ^ 31 → simd_loop t v ≡ lane_sum t + total v
unfolding simd_loop
simd_loop-total t (a ∷ b ∷ c ∷ d ∷ v) h =
    let four : Lanes = record { lane0 = a; lane1 = b; lane2 = c; lane3 = d } in
    let sum = add_epi32-small t four (omega arith) in
    let rest = simd_loop-total (add_epi32 t four) v (omega (arith, sum)) in omega (arith, sum, rest)
simd_loop-total t [] h = let small = add_lanes-small t (omega arith) in omega (arith, small)
simd_loop-total t (a ∷ []) h = let small = add_lanes-small t (omega arith) in omega (arith, small)
simd_loop-total t (a ∷ b ∷ []) h =
    let small = add_lanes-small t (omega arith) in omega (arith, small)
simd_loop-total t (a ∷ b ∷ c ∷ []) h =
    let small = add_lanes-small t (omega arith) in omega (arith, small)

drop-get_or : (p : List ℕ) (i : ℕ) → i < length p → drop i p ≡ get_or p i 0 ∷ drop (suc i) p
drop-get_or [] i h = absurd (omega arith)
drop-get_or (x ∷ p) zero h = refl
drop-get_or (x ∷ p) (suc i) h = drop-get_or p i (omega arith)

drop-all : (p : List ℕ) (i : ℕ) → i ≡ length p → drop i p ≡ []
drop-all [] zero e = refl
drop-all [] (suc i) e = refl
drop-all (x ∷ p) zero e = absurd (omega arith)
drop-all (x ∷ p) (suc i) e = drop-all p i (omega arith)

pointer_loop-naive_loop :
    (n s i : ℕ) (p : List ℕ) → i + n ≡ length p → pointer_loop n s i p ≡ naive_loop s (drop i p)
unfolding pointer_loop naive_loop
pointer_loop-naive_loop zero s i p e = rw (drop-all p i (omega arith)) refl
pointer_loop-naive_loop (suc n) s i p e =
    rw (drop-get_or p i (omega arith))
      (pointer_loop-naive_loop n (add64 s (get_or p i 0)) (suc i) p (omega arith))

-- When the sum of the elements is below 2^31, the three functions return it.
pub sums_agree :
    (v : List ℕ)
    → total v < 2 ^ 31
    → (sum_cache_friendly v ≡ total v) × (sum_simd v ≡ total v) × (sum_naive v ≡ total v)
unfolding sum_cache_friendly sum_naive sum_simd
sums_agree v h =
    let naive = naive_loop-total 0 v (omega arith) in
    let simd =
      simd_loop-total (record { lane0 = 0; lane1 = 0; lane2 = 0; lane3 = 0 }) v (omega arith) in
    let sum : naive_loop 0 v ≡ total v = omega (arith, naive) in
    (pointer_loop-naive_loop (length v) 0 0 v (omega arith) ∙ sum, omega (arith, simd), sum)
