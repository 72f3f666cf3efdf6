-- ===== src/OrderBook.antt =====
-- topics/domain_sketches/order_book_matching_engine.cpp: a limit order book with price and time
-- priority. `Price` and `Quantity` are `int64_t`; the model takes them as natural numbers, so that
-- an order with a price or a quantity below zero is not modelled. Sums do not overflow here: the
-- code only subtracts, and never more than there is.
pub mod Matching
pub mod Level
pub mod Invariant
pub mod Book
mod Tests
use learn_cpp.Prelude.{
  ℕ, zero, suc, ◌+◌, ◌-◌, ◌≡◌, min, Bool, true, false, not, ◌&&◌, Option, none, some, List, [], ◌∷◌,
  ◌++◌, if◌then◌else◌, ◌==◌, leb, ltb,
}

pub data Side : Type 0 where
  buy sell : Side

pub record Order : Type 0 where
  pub id : ℕ
  pub side : Side
  pub price : ℕ
  pub qty : ℕ

pub record Fill : Type 0 where
  pub order_id : ℕ
  pub match_id : ℕ
  pub price : ℕ
  pub qty : ℕ

-- `std::map<Price, std::vector<Order>>`: keys in the order in which a match visits them, ascending
-- for `asks_`, descending for `bids_`, which the code walks from `rbegin`.
abbrev pub Levels : Type 0
Levels = List (ℕ × List Order)

pub record OrderBook : Type 0 where
  pub bids : Levels
  pub asks : Levels

abbrev pub empty : OrderBook
empty = record { bids = []; asks = [] }

unfoldable pub best_bid : OrderBook → ℕ
best_bid book = elim book.bids [ [] ↦ 0 | (price, level) ∷ rest ↦ price ]

unfoldable pub best_ask : OrderBook → ℕ
best_ask book = elim book.asks [ [] ↦ 0 | (price, level) ∷ rest ↦ price ]

abbrev pub fill_of : Order → Order → Fill
fill_of order resting = record {
  order_id = order.id;
  match_id = resting.id;
  price = resting.price;
  qty = min order.qty resting.qty;
}

-- The order, the fills in the order of `push_back`, and what it has matched against.
pub record Matched (A : Type 0) : Type 0 where
  pub order : Order
  pub fills : List Fill
  pub left : A

abbrev pub less : Order → ℕ → Order
less o q = record o { qty = o.qty - q }

-- The inner loop, `while (order.qty > 0 && !level.empty())`. Where a resting order keeps a part, the
-- incoming one has nothing left, so that the loop ends there.
unfoldable pub match_level : Order → List Order → Matched (List Order)
match_level order [] = record { order = order; fills = []; left = [] }
match_level order (resting ∷ level) =
    let q : ℕ = min order.qty resting.qty in
    let rest = match_level (less order q) level in
    if order.qty == 0
    then record { order = order; fills = []; left = resting ∷ level }
    else (if resting.qty - q == 0
        then record rest { fills = fill_of order resting ∷ rest.fills }
        else record {
          order = less order q;
          fills = fill_of order resting ∷ [];
          left = less resting q ∷ level;
        })

abbrev pub is_empty : List Order → Bool
is_empty [] = true
is_empty (o ∷ os) = false

-- The outer loop: levels from the best on, while they cross. A level that is not used up ends it,
-- because the order then has nothing left.
unfoldable pub match_levels : (ℕ → Bool) → Order → Levels → Matched Levels
unfolding match_level
match_levels crosses order [] = record { order = order; fills = []; left = [] }
match_levels crosses order ((price, level) ∷ levels) =
    let m = match_level order level in
    let rest = match_levels crosses m.order levels in
    if not (order.qty == 0) && crosses price
    then (if is_empty m.left
        then record rest { fills = m.fills ++ rest.fills }
        else record { order = m.order; fills = m.fills; left = (price, m.left) ∷ levels })
    else record { order = order; fills = []; left = (price, level) ∷ levels }

unfoldable pub match_buy : Order → Levels → Matched Levels
unfolding match_levels
match_buy order asks = match_levels (λ price. leb price order.price) order asks

unfoldable pub match_sell : Order → Levels → Matched Levels
unfolding match_levels
match_sell order bids = match_levels (λ price. leb order.price price) order bids

-- `levels[order.price].push_back(order)` on a map with the given order of keys.
unfoldable pub rest_in : (ℕ → ℕ → Bool) → Order → Levels → Levels
rest_in before order [] = (order.price, order ∷ []) ∷ []
rest_in before order ((price, level) ∷ levels) =
    if price == order.price
    then (price, level ++ (order ∷ [])) ∷ levels
    else (if before price order.price
        then (price, level) ∷ rest_in before order levels
        else (order.price, order ∷ []) ∷ (price, level) ∷ levels)

abbrev pub ascending : ℕ → ℕ → Bool
ascending a b = ltb a b

abbrev pub descending : ℕ → ℕ → Bool
descending a b = ltb b a

-- What is left of the order rests in the book.
unfoldable pub rest_if_any : (ℕ → ℕ → Bool) → Order → Levels → Levels
unfolding rest_in
rest_if_any before order levels = if order.qty == 0 then levels else rest_in before order levels

-- The two branches of `add_order` on the side.
unfoldable pub add_on : Side → Order → OrderBook → List Fill × OrderBook
unfolding match_buy match_sell rest_if_any
add_on Side.buy order book =
    let m = match_buy order book.asks in
    (m.fills, record { bids = rest_if_any descending m.order book.bids; asks = m.left })
add_on Side.sell order book =
    let m = match_sell order book.bids in
    (m.fills, record { bids = m.left; asks = rest_if_any ascending m.order book.asks })

unfoldable pub add_order : Order → OrderBook → List Fill × OrderBook
unfolding add_on
add_order order book = add_on order.side order book
