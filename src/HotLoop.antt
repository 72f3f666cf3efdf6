-- ===== src/HotLoop.antt =====
-- The sums of topics/microarchitecture/hot_loop_optimization.cpp. Elements are below 2^32, a sum of
-- `uint64_t` wraps, and so does each lane of `_mm_add_epi32`. The sum of the four `int32_t` lanes wraps
-- here where it is undefined in the source.
pub mod Agree
pub mod Tests
use learn_cpp.Prelude.{
  ℕ, zero, suc, ◌+◌, ◌-◌, ◌%◌, ◌^◌, ◌≡◌, List, [], ◌∷◌, if◌then◌else◌, ltb, add64, length, get_or,
}

-- The loop of `sum_naive` with the sum so far.
unfoldable pub naive_loop : ℕ → List ℕ → ℕ
naive_loop s [] = s
naive_loop s (x ∷ v) = naive_loop (add64 s x) v

unfoldable pub sum_naive : List ℕ → ℕ
unfolding naive_loop
sum_naive v = naive_loop 0 v

-- The loop of `sum_cache_friendly` with the rounds left, the sum so far and i.
unfoldable pub pointer_loop : ℕ → ℕ → ℕ → List ℕ → ℕ
pointer_loop zero s i p = s
pointer_loop (suc n) s i p = pointer_loop n (add64 s (get_or p i 0)) (suc i) p

unfoldable pub sum_cache_friendly : List ℕ → ℕ
unfolding pointer_loop
sum_cache_friendly v = pointer_loop (length v) 0 0 v

abbrev pub add32 : ℕ → ℕ → ℕ
add32 a b = (a + b) % 2 ^ 32

pub record Lanes : Type 0 where
  pub lane0 : ℕ
  pub lane1 : ℕ
  pub lane2 : ℕ
  pub lane3 : ℕ

-- `_mm_add_epi32`
unfoldable pub add_epi32 : Lanes → Lanes → Lanes
add_epi32 s t = record {
  lane0 = add32 s.lane0 t.lane0;
  lane1 = add32 s.lane1 t.lane1;
  lane2 = add32 s.lane2 t.lane2;
  lane3 = add32 s.lane3 t.lane3;
}

-- `int32_t` to `uint64_t`.
abbrev pub extend : ℕ → ℕ
extend x = if ltb x (2 ^ 31) then x else 2 ^ 64 - 2 ^ 32 + x

-- The sum of the lanes of `tmp`.
unfoldable pub add_lanes : Lanes → ℕ
add_lanes t = extend (add32 (add32 (add32 t.lane0 t.lane1) t.lane2) t.lane3)

-- Both loops of `sum_simd`, the first with the lanes so far.
unfoldable pub simd_loop : Lanes → List ℕ → ℕ
unfolding naive_loop add_lanes add_epi32
simd_loop t (a ∷ b ∷ c ∷ d ∷ v) =
    simd_loop (add_epi32 t (record { lane0 = a; lane1 = b; lane2 = c; lane3 = d })) v
simd_loop t [] = add_lanes t
simd_loop t (a ∷ []) = naive_loop (add_lanes t) (a ∷ [])
simd_loop t (a ∷ b ∷ []) = naive_loop (add_lanes t) (a ∷ b ∷ [])
simd_loop t (a ∷ b ∷ c ∷ []) = naive_loop (add_lanes t) (a ∷ b ∷ c ∷ [])

unfoldable pub sum_simd : List ℕ → ℕ
unfolding simd_loop
sum_simd v = simd_loop (record { lane0 = 0; lane1 = 0; lane2 = 0; lane3 = 0 }) v
