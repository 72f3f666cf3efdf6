-- ===== src/OrderBook/Invariant.antt =====
-- The order of the levels of a side, and the invariant of the book.
use learn_cpp.Prelude.{
  ℕ, ◌≡◌, Bool, true, false, not, ◌&&◌, [], ◌∷◌, ◌==◌, arith, Bool-cases, inl, inr,
}
use learn_cpp.OrderBook.{Order, Levels, is_empty, match_level, match_levels, rest_in}
use learn_cpp.OrderBook.Level.{All, match_level_done, match_levels-All, rest_in-All}

module _ (before : ℕ → ℕ → Bool)
    (trans : (a b c : ℕ) → before a b ≡ true → before b c ≡ true → before a c ≡ true)
    (total : (a b : ℕ) → (a == b) ≡ false → before a b ≡ false → before b a ≡ true) where
  abbrev pub Behind : ℕ → Levels → Type 0
  Behind p = All (λ q level. before p q ≡ true)

  abbrev pub IsOrdered : Levels → Type 0
  IsOrdered [] = Unit
  IsOrdered ((price, level) ∷ levels) = Behind price levels × IsOrdered levels

  Behind-trans : (p q : ℕ) (levels : Levels) → before p q ≡ true → Behind q levels → Behind p levels
  Behind-trans p q [] b s = tt
  Behind-trans p q ((price, level) ∷ levels) b (h, s) =
      (trans p q price b h, Behind-trans p q levels b s)

  pub match_levels-Behind :
      (p : ℕ) (crosses : ℕ → Bool) (o : Order) (levels : Levels)
      → Behind p levels
      → Behind p (match_levels crosses o levels).left
  match_levels-Behind p crosses o levels =
      match_levels-All (λ q level. before p q ≡ true) (λ price o level b part. b) crosses o levels

  pub match_levels-IsOrdered :
      (crosses : ℕ → Bool) (o : Order) (levels : Levels)
      → IsOrdered levels
      → IsOrdered (match_levels crosses o levels).left
  unfolding match_levels
  match_levels-IsOrdered crosses o [] s = tt
  match_levels-IsOrdered crosses o ((price, level) ∷ levels) (h, s) =
      let m = match_level o level in
      elim (Bool-cases (not (o.qty == 0) && crosses price)) [
        | inl goes ↦ elim (Bool-cases (is_empty m.left)) [
          | inl used_up ↦ rw (goes, used_up) (match_levels-IsOrdered crosses m.order levels s)
          | inr part ↦ rw (goes, part) (h, s)
        ]
        | inr stops ↦ rw stops (h, s)
      ]

  -- A match that leaves something of the order leaves no level that crosses its price.
  pub match_levels_stops :
      (crosses : ℕ → Bool) (limit : ℕ)
      → ((q : ℕ) → crosses q ≡ not (before limit q))
      → (o : Order) (levels : Levels) → IsOrdered levels
      → ((match_levels crosses o levels).order.qty == 0) ≡ false
      → Behind limit (match_levels crosses o levels).left
  unfolding match_levels
  match_levels_stops crosses limit c o [] s = λ more. tt
  match_levels_stops crosses limit c o ((price, level) ∷ levels) (h, s) =
      let m = match_level o level in
      elim (Bool-cases (not (o.qty == 0) && crosses price)) [
        | inl goes ↦ elim (Bool-cases (is_empty m.left)) [
          | inl used_up ↦ rw (goes, used_up) (match_levels_stops crosses limit c m.order levels s)
          | inr part ↦ rw (goes, part) (λ more. absurd (ground (arith, match_level_done o level)))
        ]
        | inr stops ↦ rw stops (λ more.
            let beyond : before limit price ≡ true = ground (arith, c price) in
            (beyond, Behind-trans limit price levels beyond h))
      ]

  pub rest_in-Behind :
      (p : ℕ) (o : Order) (levels : Levels)
      → before p o.price ≡ true
      → Behind p levels
      → Behind p (rest_in before o levels)
  rest_in-Behind p o levels b =
      rest_in-All (λ q level. before p q ≡ true) before o b (λ level b'. b') levels

  pub rest_in-IsOrdered :
      (o : Order) (levels : Levels) → IsOrdered levels → IsOrdered (rest_in before o levels)
  unfolding rest_in
  rest_in-IsOrdered o [] s = (tt, tt)
  rest_in-IsOrdered o ((price, level) ∷ levels) (h, s) = elim (Bool-cases (price == o.price)) [
    | inl same ↦ rw same (h, s)
    | inr other ↦ elim (Bool-cases (before price o.price)) [
      | inl further ↦
          rw (other, further)
            (rest_in-Behind price o levels further h, rest_in-IsOrdered o levels s)
      | inr here ↦
          let b : before o.price price ≡ true = total price o.price other here in
          rw (other, here) ((b, Behind-trans o.price price levels b h), (h, s))
    ]
  ]
