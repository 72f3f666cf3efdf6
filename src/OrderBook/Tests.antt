-- ===== src/OrderBook/Tests.antt =====
-- The order book on the orders of its `main` and on a few more.
use learn_cpp.Prelude.{◌*◌, ◌+◌, ◌<◌, ◌≡◌, refl, List, [], ◌∷◌, map, take, length}
use learn_cpp.OrderBook.{Side, Order, OrderBook, empty, best_bid, best_ask, match_level, add_order}
use learn_cpp.OrderBook.Matching.{filled, book_volume, add_order_volume, match_level_order}
use learn_cpp.OrderBook.Book.{Valid, empty-Valid, add_order-Valid, add_all, best_bid-best_ask}

abbrev sell_50 : Order
sell_50 = record { id = 1; side = Side.sell; price = 100; qty = 50 }

abbrev buy_30 : Order
buy_30 = record { id = 2; side = Side.buy; price = 100; qty = 30 }

abbrev buy_40 : Order
buy_40 = record { id = 3; side = Side.buy; price = 99; qty = 40 }

abbrev after_sell : OrderBook
after_sell = (add_order sell_50 empty).1

-- `main`: the buy order takes 30 of the 50 at 100.
buy_30_fills :
    (add_order buy_30 after_sell).0
    ≡ record { order_id = 2; match_id = 1; price = 100; qty = 30 } ∷ []
unfolding add_order
buy_30_fills = refl

add_order_volume_example :
    book_volume (add_order buy_30 after_sell).1 + 2 * filled (add_order buy_30 after_sell).0
    ≡ book_volume after_sell + 30
add_order_volume_example = add_order_volume buy_30 after_sell

match_level_order_example :
    map (λ f. f.match_id) (match_level buy_30 (sell_50 ∷ [])).fills
    ≡ take (length (match_level buy_30 (sell_50 ∷ [])).fills) (1 ∷ [])
match_level_order_example = match_level_order buy_30 (sell_50 ∷ [])

add_order-Valid_example : Valid (add_order sell_50 empty).1
add_order-Valid_example = add_order-Valid sell_50 empty empty-Valid

abbrev orders : List Order
orders = sell_50 ∷ buy_30 ∷ buy_40 ∷ []

best_bid-best_ask_example : best_bid (add_all orders empty) < best_ask (add_all orders empty)
unfolding add_all
best_bid-best_ask_example = best_bid-best_ask orders refl refl
