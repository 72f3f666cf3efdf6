-- ===== src/Ring/Window.antt =====
-- Consecutive slots of a ring, and what a write to one slot does to them.
use native.Mathlib.Nat.{mod-add-mod}
use learn_cpp.Prelude.{
  ℕ, zero, suc, ◌+◌, ◌%◌, ◌≤◌, ◌<◌, ◌≡◌, sym, ap, ◌∙◌, ◌≢◌, some, List, [], ◌∷◌, ◌++◌, arith,
  length, get_elem?, set, get_elem?-set_self, get_elem?-set_ne,
}

-- The slot after the last of `n` slots from `i`.
pub next_slot : (i n c : ℕ) → 0 < c → ((i + n) % c + 1) % c ≡ (i + suc n) % c
next_slot i n c h = mod-add-mod (i + n) c 1 ∙ ap (λ (t : ℕ). t % c) (omega arith)

pub first_slot : (i n c : ℕ) → ((i + 1) % c + n) % c ≡ (i + suc n) % c
first_slot i n c = mod-add-mod (i + 1) c n ∙ ap (λ (t : ℕ). t % c) (omega arith)

-- Fewer than `c` slots on from `i` is another slot.
pub slot-ne : (i n c : ℕ) → i < c → suc n < c → (i + suc n) % c ≢ i
slot-ne i n c hi hn = grind arith

pub slot_here : (i c : ℕ) → i < c → (i + 0) % c ≡ i
slot_here i c h = grind arith

-- A full turn comes back.
pub slot_turn : (i c : ℕ) → i < c → (i + c) % c ≡ i
slot_turn i c h = grind arith

module _ {ℓ κ μ} {B : Type ℓ} {S : Type κ} (P : B → S → Type μ) (c : ℕ) where
  -- The slots from `i` on, going round at `c`, are related to the items one by one.
  abbrev pub Along : List S → ℕ → List B → Type (κ ⊔ μ)
  Along slots i [] = Unit
  Along slots i (b ∷ bs) =
      ((s : S) × (get_elem? slots i ≡ some s) × P b s) × Along slots ((i + 1) % c) bs

  -- Slots that are all related to everything are related to any window.
  pub Along-all :
      (slots : List S) (bs : List B) (i : ℕ)
      → ((j : ℕ) (b : B) → j < c → (s : S) × (get_elem? slots j ≡ some s) × P b s)
      → i < c
      → Along slots i bs
  Along-all slots [] i every h = tt
  Along-all slots (b ∷ bs) i every h =
      (every i b h, Along-all slots bs ((i + 1) % c) every (omega arith))

  -- The slot after the window, if it is related to `b`, extends it.
  pub Along-snoc :
      (slots : List S) (bs : List B) (i : ℕ) (b : B) (v : S)
      → i < c
      → get_elem? slots ((i + length bs) % c) ≡ some v
      → P b v
      → Along slots i bs
      → Along slots i (bs ++ b ∷ [])
  Along-snoc slots [] i b v hi at p a =
      ((v, ap (get_elem? slots) (sym (slot_here i c hi)) ∙ at, p), tt)
  Along-snoc slots (b' ∷ bs) i b v hi at p (s, rest) = (
    s,
    Along-snoc slots bs ((i + 1) % c) b v (omega arith)
        (ap (get_elem? slots) (first_slot i (length bs) c) ∙ at) p rest,
  )

  module _ (slots : List S) (full : length slots ≡ c) where
    -- A write past the window leaves it alone.
    pub Along-set :
        (bs : List B) (i j k : ℕ) (v : S)
        → i < c
        → j ≡ (i + k) % c
        → length bs ≤ k
        → k < c
        → Along slots i bs
        → Along (set slots j v) i bs
    Along-set [] i j k v hi hj hk hc a = tt
    Along-set (b ∷ bs) i j zero v hi hj hk hc a = absurd (omega arith)
    Along-set (b ∷ bs) i j (suc k) v hi hj hk hc ((s, at, p), rest) = (
      (s, get_elem?-set_ne slots v (λ e. slot-ne i k c hi hc (sym hj ∙ e)) ∙ at, p),
      Along-set bs ((i + 1) % c) j k v (omega arith) (hj ∙ sym (first_slot i k c)) (omega arith)
          (omega arith) rest,
    )

    -- A write at the end of the window extends it.
    pub Along-push :
        (bs : List B) (i j : ℕ) (b : B) (v : S)
        → i < c
        → j ≡ (i + length bs) % c
        → length bs < c
        → P b v
        → Along slots i bs
        → Along (set slots j v) i (bs ++ b ∷ [])
    Along-push bs i j b v hi hj hc p a =
        let at : get_elem? (set slots j v) j ≡ some v =
          get_elem?-set_self slots j v (omega (arith, hj, hi)) in
        Along-snoc (set slots j v) bs i b v hi (ap (get_elem? (set slots j v)) (sym hj) ∙ at) p
          (Along-set bs i j (length bs) v hi hj (omega arith) hc a)
