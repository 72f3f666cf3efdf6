-- ===== src/Fifo.antt =====
-- What the queues of the program promise: first in, first out, with at most `room` items held.
-- `push` answers whether it stored its item, `pop` whether it wrote its out-parameter. An
-- implementation fills the record `Fifo`; a client takes it as a parameter.
use learn_cpp.Prelude.{
  ℕ, ◌≡◌, refl, Bool, true, false, Option, none, some, List, [], ◌∷◌, ◌++◌, if◌then◌else◌, ltb,
  length,
}

pub data Op {ℓ} (A : Type ℓ) : Type ℓ where
  put : A → Op A
  get : Op A

module _ {ℓ} {A : Type ℓ} where
  -- the abstract queue, oldest item first
  abbrev pub offer : ℕ → A → List A → Bool × List A
  offer room x q = if ltb (length q) room then (true, q ++ x ∷ []) else (false, q)

  abbrev pub poll : List A → Bool × Option A × List A
  poll [] = (false, none, [])
  poll (x ∷ q) = (true, some x, q)

  -- what a caller sees of each call
  unfoldable pub replies : ℕ → List (Op A) → List A → List (Bool × Option A)
  replies room [] q = []
  replies room (put x ∷ ops) q = let (b, q') = offer room x q in (b, none) ∷ replies room ops q'
  replies room (get ∷ ops) q = let (b, out, q') = poll q in (b, out) ∷ replies room ops q'

-- An implementation with states `S`, and the relation between a state and the items that it holds.
pub record Fifo {ℓ κ} (A : Type ℓ) (S : Type κ) : Type ((ℓ ⊔ κ) + 1) where
  pub room : ℕ
  pub push : A → S → Bool × S
  pub pop : S → Bool × Option A × S
  pub Models : S → List A → Type (ℓ ⊔ κ)
  pub push_offer :
      (x : A) (s : S) (q : List A)
      → Models s q
      → ((push x s).0 ≡ (offer room x q).0) × Models (push x s).1 (offer room x q).1
  pub pop_poll :
      (s : S) (q : List A)
      → Models s q
      → ((pop s).0 ≡ (poll q).0) × ((pop s).1 ≡ (poll q).1) × Models (pop s).2 (poll q).2

module _ {ℓ κ} {A : Type ℓ} {S : Type κ} (f : Fifo A S) where
  open f use {room, push, pop, Models, push_offer, pop_poll}

  unfoldable pub run : List (Op A) → S → List (Bool × Option A)
  run [] s = []
  run (put x ∷ ops) s = let (b, s') = push x s in (b, none) ∷ run ops s'
  run (get ∷ ops) s = let (b, out, s') = pop s in (b, out) ∷ run ops s'

  -- No sequence of calls tells the implementation from the abstract queue.
  pub run-replies :
      (ops : List (Op A)) (s : S) (q : List A) → Models s q → run ops s ≡ replies room ops q
  unfolding run replies
  run-replies [] s q m = refl
  run-replies (put x ∷ ops) s q m =
      let (b, m') = push_offer x s q m in λ i. (b i, none) ∷ run-replies ops _ _ m' i
  run-replies (get ∷ ops) s q m =
      let (b, out, m') = pop_poll s q m in λ i. (b i, out i) ∷ run-replies ops _ _ m' i
