-- ===== src/OrderBook/Matching.antt =====
-- What a match takes from the book: quantities, prices, and the order of the fills.
use learn_cpp.Prelude.{
  ℕ, ◌+◌, ◌-◌, ◌*◌, ◌≡◌, refl, ap, min, Bool, true, not, ◌&&◌, List, [], ◌∷◌, ◌++◌, map, ◌==◌, leb,
  arith, Bool-cases, inl, inr, take, length,
}
use learn_cpp.OrderBook.{
  Order, Side, Fill, Levels, OrderBook, less, is_empty, match_level, match_levels, match_buy,
  match_sell, rest_in, rest_if_any, ascending, descending, add_on, add_order,
}

abbrev pub filled : List Fill → ℕ
filled [] = 0
filled (f ∷ fs) = f.qty + filled fs

abbrev pub level_volume : List Order → ℕ
level_volume [] = 0
level_volume (o ∷ os) = o.qty + level_volume os

abbrev pub volume : Levels → ℕ
volume [] = 0
volume ((price, level) ∷ levels) = level_volume level + volume levels

pub filled-append : (fs gs : List Fill) → filled (fs ++ gs) ≡ filled fs + filled gs
filled-append [] gs = omega arith
filled-append (f ∷ fs) gs = omega (arith, filled-append fs gs)

-- A fill takes the same quantity from both sides.
match_level_volume :
    (o : Order) (level : List Order)
    → let m = match_level o level in
      (m.order.qty + filled m.fills ≡ o.qty)
      × (level_volume m.left + filled m.fills ≡ level_volume level)
unfolding match_level
match_level_volume o [] = (omega arith, refl)
match_level_volume o (r ∷ level) =
    let q : ℕ = min o.qty r.qty in
    let ih = match_level_volume (less o q) level in
    elim (Bool-cases (o.qty == 0)) [
      | inl done ↦ rw done (omega arith, omega arith)
      | inr more ↦ elim (Bool-cases (r.qty - q == 0)) [
        | inl used_up ↦ rw (more, used_up) (omega (arith, ih.0), ground (arith, ih.1))
        | inr part ↦ rw (more, part) (omega arith, omega arith)
      ]
    ]

empty_volume : (level : List Order) → is_empty level ≡ true → level_volume level ≡ 0
empty_volume [] e = refl
empty_volume (o ∷ os) e = absurd (ground arith)

pub match_levels-volume :
    (crosses : ℕ → Bool) (o : Order) (levels : Levels)
    → let m = match_levels crosses o levels in
      (m.order.qty + filled m.fills ≡ o.qty) × (volume m.left + filled m.fills ≡ volume levels)
unfolding match_levels
match_levels-volume crosses o [] = (omega arith, refl)
match_levels-volume crosses o ((price, level) ∷ levels) =
    let m = match_level o level in
    let here = match_level_volume o level in
    let rest = match_levels crosses m.order levels in
    let ih = match_levels-volume crosses m.order levels in
    elim (Bool-cases (not (o.qty == 0) && crosses price)) [
      | inl goes ↦ elim (Bool-cases (is_empty m.left)) [
        | inl used_up ↦
            rw (goes, used_up, filled-append m.fills rest.fills)
              (
                omega (arith, here.0, ih.0),
                omega (arith, here.1, ih.1, empty_volume m.left used_up),
              )
        | inr part ↦ rw (goes, part) (here.0, omega (arith, here.1))
      ]
      | inr stops ↦ rw stops (omega arith, omega arith)
    ]

level_volume-append :
    (os ps : List Order) → level_volume (os ++ ps) ≡ level_volume os + level_volume ps
level_volume-append [] ps = omega arith
level_volume-append (o ∷ os) ps = omega (arith, level_volume-append os ps)

volume-rest_in :
    (before : ℕ → ℕ → Bool) (o : Order) (levels : Levels)
    → volume (rest_in before o levels) ≡ volume levels + o.qty
unfolding rest_in
volume-rest_in before o [] = omega arith
volume-rest_in before o ((price, level) ∷ levels) = elim (Bool-cases (price == o.price)) [
  | inl same ↦ rw same (omega (arith, level_volume-append level (o ∷ [])))
  | inr other ↦ elim (Bool-cases (before price o.price)) [
    | inl further ↦ rw (other, further) (omega (arith, volume-rest_in before o levels))
    | inr here ↦ rw (other, here) (omega arith)
  ]
]

volume-rest_if_any :
    (before : ℕ → ℕ → Bool) (o : Order) (levels : Levels)
    → volume (rest_if_any before o levels) ≡ volume levels + o.qty
unfolding rest_if_any
volume-rest_if_any before o levels = elim (Bool-cases (o.qty == 0)) [
  | inl filled_up ↦ rw filled_up (ground arith)
  | inr more ↦ rw more (volume-rest_in before o levels)
]

abbrev pub book_volume : OrderBook → ℕ
book_volume book = volume book.bids + volume book.asks

add_on_volume :
    (s : Side) (order : Order) (book : OrderBook)
    → let (fills, after) = add_on s order book in
      book_volume after + 2 * filled fills ≡ book_volume book + order.qty
unfolding add_on match_buy match_sell
add_on_volume Side.buy order book =
    let m = match_buy order book.asks in
    let taken = match_levels-volume (λ price. leb price order.price) order book.asks in
    omega (arith, taken.0, taken.1, volume-rest_if_any descending m.order book.bids)
add_on_volume Side.sell order book =
    let m = match_sell order book.bids in
    let taken = match_levels-volume (λ price. leb order.price price) order book.bids in
    omega (arith, taken.0, taken.1, volume-rest_if_any ascending m.order book.asks)

-- An order loses no quantity: what the book holds afterwards and twice what was filled is what it
-- held before and the quantity of the order, for every order and book.
pub add_order_volume :
    (order : Order) (book : OrderBook)
    → let (fills, after) = add_order order book in
      book_volume after + 2 * filled fills ≡ book_volume book + order.qty
unfolding add_order
add_order_volume order book = add_on_volume order.side order book

-- The fills of a level are with its orders from the front, in the order in which they came, for
-- every order and level.
pub match_level_order :
    (o : Order) (level : List Order)
    → let fills = (match_level o level).fills in
      map (λ f. f.match_id) fills ≡ take (length fills) (map (λ r. r.id) level)
unfolding match_level
match_level_order o [] = refl
match_level_order o (r ∷ level) =
    let q : ℕ = min o.qty r.qty in
    elim (Bool-cases (o.qty == 0)) [
      | inl done ↦ rw done refl
      | inr more ↦ elim (Bool-cases (r.qty - q == 0)) [
        | inl used_up ↦
            rw (more, used_up) (ap (λ ids. r.id ∷ ids) (match_level_order (less o q) level))
        | inr part ↦ rw (more, part) refl
      ]
    ]
