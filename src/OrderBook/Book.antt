-- ===== src/OrderBook/Book.antt =====
-- The invariant of `OrderBook`, which `add_order` keeps.
use learn_cpp.Prelude.{
  ℕ, ◌<◌, ◌≡◌, Bool, true, false, List, [], ◌∷◌, ◌==◌, leb, ltb, arith, Bool-cases, inl, inr,
}
use learn_cpp.OrderBook.{
  Order, Side, Levels, OrderBook, empty, match_levels, match_buy, match_sell, rest_in, rest_if_any,
  ascending, descending, add_on, add_order, best_bid, best_ask,
}
use learn_cpp.OrderBook.Level.{
  All, Stocked, match_levels_price, match_levels-All, match_levels-Stocked, rest_in-All,
  rest_in-Stocked,
}
use learn_cpp.OrderBook.Invariant.{
  Behind, IsOrdered, match_levels-Behind, match_levels-IsOrdered, match_levels_stops,
  rest_in-Behind, rest_in-IsOrdered,
}

pub ascending_trans :
    (a b c : ℕ) → ascending a b ≡ true → ascending b c ≡ true → ascending a c ≡ true
ascending_trans a b c h k = ground arith

pub ascending_total : (a b : ℕ) → (a == b) ≡ false → ascending a b ≡ false → ascending b a ≡ true
ascending_total a b h k = ground arith

pub descending_trans :
    (a b c : ℕ) → descending a b ≡ true → descending b c ≡ true → descending a c ≡ true
descending_trans a b c h k = ground arith

pub descending_total : (a b : ℕ) → (a == b) ≡ false → descending a b ≡ false → descending b a ≡ true
descending_total a b h k = ground arith

-- The price is below every ask.
abbrev pub BelowAsks : Levels → ℕ → List Order → Type 0
BelowAsks asks price level = All (λ q l. ltb price q ≡ true) asks

-- No bid reaches an ask.
abbrev pub Uncrossed : Levels → Levels → Type 0
Uncrossed bids asks = All (BelowAsks asks) bids

pub record Valid (book : OrderBook) : Type 0 where
  pub bids_ordered : IsOrdered descending descending_trans descending_total book.bids
  pub asks_ordered : IsOrdered ascending ascending_trans ascending_total book.asks
  pub bids_stocked : All Stocked book.bids
  pub asks_stocked : All Stocked book.asks
  pub uncrossed : Uncrossed book.bids book.asks

pub empty-Valid : Valid empty
empty-Valid = record {
  bids_ordered = tt;
  asks_ordered = tt;
  bids_stocked = tt;
  asks_stocked = tt;
  uncrossed = tt;
}

All-map :
    (P Q : ℕ → List Order → Type 0)
    → ((p : ℕ) (l : List Order) → P p l → Q p l)
    → (levels : Levels) → All P levels
    → All Q levels
All-map P Q f [] a = tt
All-map P Q f ((p, l) ∷ levels) (h, a) = (f p l h, All-map P Q f levels a)

All-both :
    (P Q R : ℕ → List Order → Type 0)
    → ((p : ℕ) (l : List Order) → P p l → Q p l → R p l)
    → (levels : Levels) → All P levels
    → All Q levels
    → All R levels
All-both P Q R f [] a b = tt
All-both P Q R f ((p, l) ∷ levels) (h, a) (k, b) = (f p l h k, All-both P Q R f levels a b)

-- A bid at the price crosses no ask that is left.
match_buy-Uncrossed :
    (order : Order) (bids asks : Levels)
    → IsOrdered ascending ascending_trans ascending_total asks
    → Uncrossed bids asks
    → let m = match_buy order asks in Uncrossed (rest_if_any descending m.order bids) m.left
unfolding match_buy rest_if_any
match_buy-Uncrossed order bids asks s u =
    let crosses : ℕ → Bool = λ price. leb price order.price in
    let m = match_levels crosses order asks in
    let kept : Uncrossed bids m.left =
      All-map (BelowAsks asks) (BelowAsks m.left)
        (λ p l. match_levels-Behind ascending ascending_trans ascending_total p crosses order asks)
        bids u in
    elim (Bool-cases (m.order.qty == 0)) [
      | inl filled ↦ rw filled kept
      | inr more ↦
          let clear : BelowAsks m.left m.order.price [] =
            rw (match_levels_price crosses order asks) (
              match_levels_stops ascending ascending_trans ascending_total crosses order.price
                (λ q. ground arith) order asks s more) in
          rw more (rest_in-All (BelowAsks m.left) descending m.order clear (λ level b. b) bids kept)
    ]

match_sell-Uncrossed :
    (order : Order) (bids asks : Levels)
    → IsOrdered descending descending_trans descending_total bids
    → Uncrossed bids asks
    → let m = match_sell order bids in Uncrossed m.left (rest_if_any ascending m.order asks)
unfolding match_sell rest_if_any
match_sell-Uncrossed order bids asks s u =
    let crosses : ℕ → Bool = λ price. leb order.price price in
    let m = match_levels crosses order bids in
    let kept : Uncrossed m.left asks =
      match_levels-All (BelowAsks asks) (λ price o level b part. b) crosses order bids u in
    elim (Bool-cases (m.order.qty == 0)) [
      | inl filled ↦ rw filled kept
      | inr more ↦
          let clear : Behind descending descending_trans descending_total m.order.price m.left =
            rw (match_levels_price crosses order bids) (
              match_levels_stops descending descending_trans descending_total crosses order.price
                (λ q. ground arith) order bids s more) in
          rw more (
            All-both (BelowAsks asks) (λ p l. ltb p m.order.price ≡ true)
              (BelowAsks (rest_in ascending m.order asks))
              (λ p l b c.
                rest_in-Behind ascending ascending_trans ascending_total p m.order asks c b)
              m.left kept clear)
    ]

rest_if_any-Stocked :
    (before : ℕ → ℕ → Bool) (o : Order) (levels : Levels)
    → All Stocked levels
    → All Stocked (rest_if_any before o levels)
unfolding rest_if_any
rest_if_any-Stocked before o levels s = elim (Bool-cases (o.qty == 0)) [
  | inl filled ↦ rw filled s
  | inr more ↦ rw more (rest_in-Stocked before o levels (ground arith) s)
]

rest_if_any-IsOrdered :
    (before : ℕ → ℕ → Bool)
    (trans : (a b c : ℕ) → before a b ≡ true → before b c ≡ true → before a c ≡ true)
    (total : (a b : ℕ) → (a == b) ≡ false → before a b ≡ false → before b a ≡ true) (o : Order)
    (levels : Levels)
    → IsOrdered before trans total levels
    → IsOrdered before trans total (rest_if_any before o levels)
unfolding rest_if_any
rest_if_any-IsOrdered before trans total o levels s = elim (Bool-cases (o.qty == 0)) [
  | inl filled ↦ rw filled s
  | inr more ↦ rw more (rest_in-IsOrdered before trans total o levels s)
]

add_on-Valid :
    (s : Side) (order : Order) (book : OrderBook) → Valid book → Valid (add_on s order book).1
unfolding add_on
add_on-Valid Side.buy order book v =
    let m = match_buy order book.asks in
    record {
      bids_ordered =
          rest_if_any-IsOrdered descending descending_trans descending_total m.order book.bids
            v.bids_ordered;
      asks_ordered =
          unfold match_buy in
          match_levels-IsOrdered ascending ascending_trans ascending_total
            (λ price. leb price order.price) order book.asks v.asks_ordered;
      bids_stocked = rest_if_any-Stocked descending m.order book.bids v.bids_stocked;
      asks_stocked =
          unfold match_buy in
          match_levels-Stocked (λ price. leb price order.price) order book.asks v.asks_stocked;
      uncrossed = match_buy-Uncrossed order book.bids book.asks v.asks_ordered v.uncrossed;
    }
add_on-Valid Side.sell order book v =
    let m = match_sell order book.bids in
    record {
      bids_ordered =
          unfold match_sell in
          match_levels-IsOrdered descending descending_trans descending_total
            (λ price. leb order.price price) order book.bids v.bids_ordered;
      asks_ordered =
          rest_if_any-IsOrdered ascending ascending_trans ascending_total m.order book.asks
            v.asks_ordered;
      bids_stocked =
          unfold match_sell in
          match_levels-Stocked (λ price. leb order.price price) order book.bids v.bids_stocked;
      asks_stocked = rest_if_any-Stocked ascending m.order book.asks v.asks_stocked;
      uncrossed = match_sell-Uncrossed order book.bids book.asks v.bids_ordered v.uncrossed;
    }

-- `add_order` keeps the invariant of the book: the levels of each side are in the order of their
-- prices, no level is empty, every resting order is open and at the price of its level, and every
-- bid is below every ask.
pub add_order-Valid :
    (order : Order) (book : OrderBook) → Valid book → Valid (add_order order book).1
unfolding add_order
add_order-Valid order book = add_on-Valid order.side order book

-- A book after the orders, from the first one on.
unfoldable pub add_all : List Order → OrderBook → OrderBook
unfolding add_order
add_all [] book = book
add_all (order ∷ orders) book = add_all orders (add_order order book).1

pub add_all-Valid :
    (orders : List Order) (book : OrderBook) → Valid book → Valid (add_all orders book)
unfolding add_all
add_all-Valid [] book v = v
add_all-Valid (order ∷ orders) book v =
    add_all-Valid orders (add_order order book).1 (add_order-Valid order book v)

abbrev pub no_levels : Levels → Bool
no_levels [] = true
no_levels (l ∷ levels) = false

Uncrossed-best :
    (bids asks : Levels)
    → no_levels bids ≡ false
    → no_levels asks ≡ false
    → Uncrossed bids asks
    → best_bid (record { bids = bids; asks = asks })
      < best_ask (record { bids = bids; asks = asks })
unfolding best_bid best_ask
Uncrossed-best [] asks b a u = absurd (ground arith)
Uncrossed-best (x ∷ bids) [] b a u = absurd (ground arith)
Uncrossed-best ((p, l) ∷ bids) ((q, k) ∷ asks) b a ((lt, u), us) = ground arith

-- After any orders on an empty book, when both sides hold orders, the best bid is below the best ask.
pub best_bid-best_ask :
    (orders : List Order)
    → no_levels (add_all orders empty).bids ≡ false
    → no_levels (add_all orders empty).asks ≡ false
    → best_bid (add_all orders empty) < best_ask (add_all orders empty)
best_bid-best_ask orders b a =
    let book = add_all orders empty in
    Uncrossed-best book.bids book.asks b a (add_all-Valid orders empty empty-Valid).uncrossed
