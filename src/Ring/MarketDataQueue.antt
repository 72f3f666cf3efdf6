-- ===== src/Ring/MarketDataQueue.antt =====
-- `MarketDataQueue` of topics/domain_sketches/market_data_message_queue.cpp: each slot has a
-- sequence number beside the bytes of its message. The `memcpy` of a whole `Msg` is a copy of the
-- message, of any type `M`.
use learn_cpp.Prelude.{
  ℕ, zero, suc, ◌-◌, ◌%◌, ◌^◌, ◌<◌, ◌≡◌, refl, ap, ◌∙◌, Bool, true, false, Option, none, List, [],
  ◌∷◌, map, arith, if◌then◌else◌, ◌==◌, get_elem?, set, replicate, add64,
}
use mathlib.Core.Option
use learn_cpp.Fifo.{Fifo, Op, run, replies, run-replies}
use learn_cpp.Ring.Indices
use learn_cpp.Ring.Indices.{Ring, Models, push-Models, pop-Models, fresh-Models}

pub record Slot {ℓ} (M : Type ℓ) : Type ℓ where
  pub seq : ℕ  -- uint32_t
  pub payload : M

-- `c` is the template's `Capacity`.
module _ {ℓ} {M : Type ℓ} (c : ℕ) where
  pub init : M → Ring (Slot M)
  init d = record { slots = replicate c (record { seq = 0; payload = d }); write = 0; read = 0 }

  pub publish : M → Ring (Slot M) → Bool × Ring (Slot M)
  publish msg s =
      let w = s.write in
      let next = add64 w 1 % c in
      if next == s.read then (false, s) else (
        true,
        record s {
          slots = set s.slots w (record { seq = add64 w 1 % 2 ^ 32; payload = msg });
          write = next;
        },
      )

  pub consume : Ring (Slot M) → Bool × Option M × Ring (Slot M)
  consume s =
      let r = s.read in
      if r == s.write then (false, none, s) else (
        true,
        Option.map (λ (slot : Slot M). slot.payload) (get_elem? s.slots r),
        record s { read = add64 r 1 % c },
      )

abbrev payloads {ℓ} : {M : Type ℓ} → Ring (Slot M) → Ring M
payloads s = record { slots = map (λ slot. slot.payload) s.slots; write = s.write; read = s.read }

map-set {ℓ κ} :
    {A : Type ℓ} {B : Type κ} (f : A → B) (xs : List A) (i : ℕ) (v : A)
    → map f (set xs i v) ≡ set (map f xs) i (f v)
map-set f [] i v = refl
map-set f (x ∷ xs) zero v = refl
map-set f (x ∷ xs) (suc i) v = ap (◌∷◌ (f x)) (map-set f xs i v)

get_elem?-map {ℓ κ} :
    {A : Type ℓ} {B : Type κ} (f : A → B) (xs : List A) (i : ℕ)
    → Option.map f (get_elem? xs i) ≡ get_elem? (map f xs) i
get_elem?-map f [] i = refl
get_elem?-map f (x ∷ xs) zero = refl
get_elem?-map f (x ∷ xs) (suc i) = get_elem?-map f xs i

map-replicate {ℓ κ} :
    {A : Type ℓ} {B : Type κ} (f : A → B) (n : ℕ) (a : A)
    → map f (replicate n a) ≡ replicate n (f a)
map-replicate f zero a = refl
map-replicate f (suc n) a = ap (◌∷◌ (f a)) (map-replicate f n a)

module _ {ℓ} {M : Type ℓ} (c : ℕ) where
  publish-payloads :
      (x : M) (s : Ring (Slot M))
      → ((publish c x s).0 ≡ (Indices.push c x (payloads s)).0)
        × (payloads (publish c x s).1 ≡ (Indices.push c x (payloads s)).1)
  unfolding publish Indices.push
  publish-payloads x s = (
    ground arith,
    ground (
      arith,
      map-set (λ (slot : Slot M). slot.payload) s.slots s.write
          (record { seq = add64 s.write 1 % 2 ^ 32; payload = x }),
    ),
  )

  consume-payloads :
      (s : Ring (Slot M))
      → ((consume c s).0 ≡ (Indices.pop c (payloads s)).0)
        × ((consume c s).1 ≡ (Indices.pop c (payloads s)).1)
        × (payloads (consume c s).2 ≡ (Indices.pop c (payloads s)).2)
  unfolding consume Indices.pop
  consume-payloads s = (
    ground arith,
    ground (arith, get_elem?-map (λ (slot : Slot M). slot.payload) s.slots s.read),
    ground arith,
  )

  pub fifo : Fifo M (Ring (Slot M))
  fifo = record {
    room = c - 1;
    push = publish c;
    pop = consume c;
    Models = λ s q. Models c (payloads s) q;
    push_offer = λ x s q m.
        let (b, e) = publish-payloads x s in
        let (b', m') = push-Models c x (payloads s) q m in (b ∙ b', rw e m');
    pop_poll = λ s q m.
        let (b, o, e) = consume-payloads s in
        let (b', o', m') = pop-Models c (payloads s) q m in (b ∙ b', o ∙ o', rw e m');
  }

  -- From a new queue no sequence of `publish` and `consume` can be told from a queue of
  -- Capacity - 1 messages; the sequence numbers in the slots change nothing.
  run-market_data_queue :
      (d : M) (ops : List (Op M))
      → 0 < c
      → c < 2 ^ 64
      → run fifo ops (init c d) ≡ replies (c - 1) ops []
  unfolding fifo init
  run-market_data_queue d ops pos small =
      run-replies fifo ops (init c d) [] (rw map-replicate (fresh-Models c d pos small))
