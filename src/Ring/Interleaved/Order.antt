-- ===== src/Ring/Interleaved/Order.antt =====
-- Every order of the two threads' steps keeps the items in order, and the threads apart.
use learn_cpp.Prelude.{
  ℕ, suc, ◌+◌, ◌-◌, ◌%◌, ◌^◌, ◌≤◌, ◌<◌, ◌≡◌, refl, sym, ap, ◌∙◌, subst, ◌≢◌, List, [], ◌++◌,
  append_assoc, arith, length, length-append,
}
use learn_cpp.Ring.Window.{slot-ne}
use learn_cpp.Ring.Indices.{Ring, Models, fresh-Models}
use learn_cpp.Ring.SpscRingBuffer.{init}
use learn_cpp.Ring.Interleaved.Defs.{
  System, Producer, Consumer, Step, produce, consume, Reach, here, later, start,
}
use learn_cpp.Ring.Interleaved.Steps.{Producing, Consuming, Push-Pushed, Pop-Popped}

module _ {ℓ} {A : Type ℓ} (c : ℕ) where
  -- `q` is what is in flight: published and not yet released.
  pub record Inv (s : System A) : Type ℓ where
    pub q : List A
    pub models : Models c s.ring q
    pub order : s.sent ≡ s.received ++ q
    pub producing : Producing c s.ring q s.producer
    pub consuming : Consuming c s.ring q s.consumer

  -- The consumer's locals stay right while the producer moves, and the other way round.
  Consuming-push :
      (ring ring' : Ring A) (q more : List A) (p : Consumer A)
      → ring'.read ≡ ring.read
      → Consuming c ring q p
      → Consuming c ring' (q ++ more) p
  Consuming-push ring ring' q more Consumer.outside e h = tt
  Consuming-push ring ring' q more (Consumer.loaded r) e (h, _) = (h ∙ sym e, tt)
  Consuming-push ring ring' q more (Consumer.filled r) e (h, pos, _) =
      (h ∙ sym e, omega (arith, length-append q more), tt)
  Consuming-push ring ring' q more (Consumer.taken r v) e (h, rest, split) =
      (h ∙ sym e, rest ++ more, ap (λ l. l ++ more) split)

  Producing-pop :
      (ring ring' : Ring A) (gone left : List A) (p : Producer A)
      → ring'.write ≡ ring.write
      → ring'.slots ≡ ring.slots
      → Producing c ring (gone ++ left) p
      → Producing c ring' left p
  Producing-pop ring ring' gone left Producer.outside e f h = tt
  Producing-pop ring ring' gone left (Producer.loaded v w) e f (h, _) = (h ∙ sym e, tt)
  Producing-pop ring ring' gone left (Producer.clear v w) e f (h, room, _) =
      (h ∙ sym e, omega (arith, length-append gone left), tt)
  Producing-pop ring ring' gone left (Producer.written v w) e f (h, room, at) =
      (h ∙ sym e, omega (arith, length-append gone left), rw f at)

  pub Step-Inv : {s t : System A} → Step c s t → Inv s → Inv t
  Step-Inv {s} (produce {ring} {sent} {p} push) i =
      let r = Push-Pushed c s.ring i.q i.models push i.producing in
      record {
        q = i.q ++ r.more;
        models = r.models;
        order = r.noted ∙ ap (λ l. l ++ r.more) i.order ∙ append_assoc s.received i.q r.more;
        producing = r.producing;
        consuming = Consuming-push s.ring ring i.q r.more s.consumer r.read_same i.consuming;
      }
  Step-Inv {s} (consume {ring} {received} {p} pop) i =
      let r = Pop-Popped c s.ring i.q i.models pop i.consuming in
      record {
        q = r.left;
        models = r.models;
        order =
            i.order
            ∙ ap (λ l. s.received ++ l) r.split
            ∙ sym (append_assoc s.received r.gone r.left)
            ∙ ap (λ l. l ++ r.left) (sym r.noted);
        producing =
            Producing-pop s.ring ring r.gone r.left s.producer r.write_same r.slots_same
              (subst (λ l. Producing c s.ring l s.producer) r.split i.producing);
        consuming = r.consuming;
      }

  pub Reach-Inv : {s t : System A} → Reach c s t → Inv s → Inv t
  Reach-Inv here i = i
  Reach-Inv (later r st) i = Step-Inv st (Reach-Inv r i)

  start-Inv : (d : A) → 0 < c → c < 2 ^ 64 → Inv (start (init c d))
  unfolding init
  start-Inv d pos small = record {
    q = [];
    models = fresh-Models c d pos small;
    order = refl;
    producing = tt;
    consuming = tt;
  }

  -- With a capacity from 1 to 2^64 - 1: however the threads' steps interleave, the items received are
  -- the first of the items sent, in order, none lost and none twice; those still in flight are in the
  -- ring, at most Capacity - 1.
  pub received-prefix :
      (d : A) {s : System A}
      → 0 < c
      → c < 2 ^ 64
      → Reach c (start (init c d)) s
      → (flight : List A) × (s.sent ≡ s.received ++ flight)
        × Models c s.ring flight
        × (length flight ≤ c - 1)
  received-prefix d pos small r =
      let i = Reach-Inv r (start-Inv d pos small) in
      (i.q, i.order, i.models, omega (arith, i.models.room))

  -- With a capacity from 1 to 2^64 - 1, in every state that the threads reach, the producer that is about
  -- to write a slot and the consumer that is about to read one are at different slots.
  pub slots_apart :
      (d : A) {s : System A} {v : A} {w r : ℕ}
      → 0 < c
      → c < 2 ^ 64
      → Reach c (start (init c d)) s
      → s.producer ≡ Producer.clear v w
      → s.consumer ≡ Consumer.filled r
      → w ≢ r
  slots_apart d {s} {v} {w} {r} pos small reach ep ec same =
      let i = Reach-Inv reach (start-Inv d pos small) in
      let (at_write, _, _) = subst (Producing c s.ring i.q) ep i.producing in
      let (at_read, some_item, _) = subst (Consuming c s.ring i.q) ec i.consuming in
      slot-ne s.ring.read (length i.q - 1) c i.models.read_in (omega (arith, i.models.room)) (
        ap (λ (t : ℕ). (s.ring.read + t) % c) {x = suc (length i.q - 1)} (omega (arith, some_item))
        ∙ sym i.models.write_at
        ∙ sym at_write
        ∙ same
        ∙ at_read)
