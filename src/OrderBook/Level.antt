-- ===== src/OrderBook/Level.antt =====
-- Properties that hold of each price level of a side, through a match and through an order that rests.
use learn_cpp.Prelude.{
  ℕ, ◌-◌, ◌<◌, ◌≡◌, refl, sym, subst, min, Bool, true, false, not, ◌&&◌, List, [], ◌∷◌, ◌++◌, ◌==◌,
  arith, Bool-cases, ==→eq, inl, inr, ◌⊎◌,
}
use learn_cpp.OrderBook.{Order, Levels, less, is_empty, match_level, match_levels, rest_in}

abbrev pub All : (ℕ → List Order → Type 0) → Levels → Type 0
All P [] = Unit
All P ((price, level) ∷ levels) = P price level × All P levels

abbrev pub Live : ℕ → List Order → Type 0
Live price [] = Unit
Live price (o ∷ level) = ((0 < o.qty) × (o.price ≡ price)) × Live price level

-- A level that a side may hold: it is not empty, and its orders are open and of its price.
abbrev pub Stocked : ℕ → List Order → Type 0
Stocked price level = (is_empty level ≡ false) × Live price level

pub match_level_price :
    (o : Order) (level : List Order) → (match_level o level).order.price ≡ o.price
unfolding match_level
match_level_price o [] = refl
match_level_price o (r ∷ level) =
    let ih = match_level_price (less o (min o.qty r.qty)) level in ground (arith, ih)

-- The inner loop ends with the order filled or the level used up.
pub match_level_done :
    (o : Order) (level : List Order)
    → let m = match_level o level in (m.order.qty ≡ 0) ⊎ (is_empty m.left ≡ true)
unfolding match_level
match_level_done o [] = inr refl
match_level_done o (r ∷ level) =
    let ih = match_level_done (less o (min o.qty r.qty)) level in
    elim (Bool-cases (o.qty == 0)) [
      | inl done ↦ rw done (inl (ground arith))
      | inr more ↦ elim (Bool-cases (r.qty - min o.qty r.qty == 0)) [
        | inl used_up ↦ rw (more, used_up) ih
        | inr part ↦ rw (more, part) (inl (ground arith))
      ]
    ]

pub match_level-Live :
    (price : ℕ) (o : Order) (level : List Order)
    → Live price level
    → Live price (match_level o level).left
unfolding match_level
match_level-Live price o [] l = tt
match_level-Live price o (r ∷ level) (h, l) =
    let ih = match_level-Live price (less o (min o.qty r.qty)) level l in
    elim (Bool-cases (o.qty == 0)) [
      | inl done ↦ rw done (h, l)
      | inr more ↦ elim (Bool-cases (r.qty - min o.qty r.qty == 0)) [
        | inl used_up ↦ rw (more, used_up) ih
        | inr part ↦ rw (more, part) ((ground arith, h.1), l)
      ]
    ]

pub match_levels_price :
    (crosses : ℕ → Bool) (o : Order) (levels : Levels)
    → (match_levels crosses o levels).order.price ≡ o.price
unfolding match_levels
match_levels_price crosses o [] = refl
match_levels_price crosses o ((price, level) ∷ levels) =
    let m = match_level o level in
    ground (arith, match_level_price o level, match_levels_price crosses m.order levels)

-- What holds of the levels holds of those that a match leaves, when it outlives fills.
pub match_levels-All :
    (P : ℕ → List Order → Type 0)
    → ((price : ℕ) (o : Order) (level : List Order)
        → P price level
        → is_empty (match_level o level).left ≡ false
        → P price (match_level o level).left)
    → (crosses : ℕ → Bool) (o : Order) (levels : Levels) → All P levels
    → All P (match_levels crosses o levels).left
unfolding match_levels
match_levels-All P keep crosses o [] a = tt
match_levels-All P keep crosses o ((price, level) ∷ levels) (h, a) =
    let m = match_level o level in
    let ih = match_levels-All P keep crosses m.order levels a in
    elim (Bool-cases (not (o.qty == 0) && crosses price)) [
      | inl goes ↦ elim (Bool-cases (is_empty m.left)) [
        | inl used_up ↦ rw (goes, used_up) ih
        | inr part ↦ rw (goes, part) (keep price o level h part, a)
      ]
      | inr stops ↦ rw stops (h, a)
    ]

pub rest_in-All :
    (P : ℕ → List Order → Type 0) (before : ℕ → ℕ → Bool) (o : Order)
    → P o.price (o ∷ [])
    → ((level : List Order) → P o.price level → P o.price (level ++ (o ∷ [])))
    → (levels : Levels) → All P levels
    → All P (rest_in before o levels)
unfolding rest_in
rest_in-All P before o new more [] a = (new, tt)
rest_in-All P before o new more ((price, level) ∷ levels) (h, a) =
    elim (Bool-cases (price == o.price)) [
      | inl same ↦
          let e : price ≡ o.price = ==→eq price o.price same in
          rw same (
            subst (λ p. P p (level ++ (o ∷ []))) (sym e) (more level (subst (λ p. P p level) e h)),
            a,
          )
      | inr other ↦ elim (Bool-cases (before price o.price)) [
        | inl further ↦ rw (other, further) (h, rest_in-All P before o new more levels a)
        | inr here ↦ rw (other, here) (new, (h, a))
      ]
    ]

append-Stocked :
    (o : Order) (level : List Order)
    → 0 < o.qty
    → Live o.price level
    → Live o.price (level ++ (o ∷ []))
append-Stocked o [] pos l = ((pos, refl), tt)
append-Stocked o (r ∷ level) pos (h, l) = (h, append-Stocked o level pos l)

is_empty-append : (o : Order) (level : List Order) → is_empty (level ++ (o ∷ [])) ≡ false
is_empty-append o [] = refl
is_empty-append o (r ∷ level) = refl

pub match_levels-Stocked :
    (crosses : ℕ → Bool) (o : Order) (levels : Levels)
    → All Stocked levels
    → All Stocked (match_levels crosses o levels).left
match_levels-Stocked crosses =
    match_levels-All Stocked (λ price o level s part. (part, match_level-Live price o level s.1))
      crosses

pub rest_in-Stocked :
    (before : ℕ → ℕ → Bool) (o : Order) (levels : Levels)
    → 0 < o.qty
    → All Stocked levels
    → All Stocked (rest_in before o levels)
rest_in-Stocked before o levels pos =
    rest_in-All Stocked before o (refl, ((pos, refl), tt))
      (λ level s. (is_empty-append o level, append-Stocked o level pos s.1)) levels
