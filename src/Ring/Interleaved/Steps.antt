-- ===== src/Ring/Interleaved/Steps.antt =====
-- What one step of either thread does to the queue that the ring holds.
use learn_cpp.Prelude.{
  ℕ, suc, ◌+◌, ◌%◌, ◌<◌, ◌≡◌, refl, sym, ap, ◌∙◌, subst, ◌≢◌, some, List, [], ◌∷◌, ◌++◌, append-nil,
  arith, length, length-append, length-set, get_elem?, get_elem?-set_self, set, add64,
}
use learn_cpp.Ring.Window.{Along-set, Along-snoc, first_slot, slot_here, slot_turn}
use learn_cpp.Ring.Indices.{Ring, Models, next_write, write_in}
use learn_cpp.Ring.Interleaved.Defs.{Producer, Consumer, Push, Pop}

module _ {ℓ} {A : Type ℓ} (c : ℕ) where
  -- What the producer's locals say of the ring and the queue that it holds.
  abbrev pub Producing : Ring A → List A → Producer A → Type ℓ
  Producing ring q Producer.outside = Unit
  Producing ring q (Producer.loaded v w) = (w ≡ ring.write) × Unit {ℓ}
  Producing ring q (Producer.clear v w) = (w ≡ ring.write) × (suc (length q) < c) × Unit {ℓ}
  Producing ring q (Producer.written v w) =
      (w ≡ ring.write) × (suc (length q) < c) × (get_elem? ring.slots w ≡ some v)

  abbrev pub Consuming : Ring A → List A → Consumer A → Type ℓ
  Consuming ring q Consumer.outside = Unit
  Consuming ring q (Consumer.loaded r) = (r ≡ ring.read) × Unit {ℓ}
  Consuming ring q (Consumer.filled r) = (r ≡ ring.read) × (0 < length q) × Unit {ℓ}
  Consuming ring q (Consumer.taken r v) = (r ≡ ring.read) × (rest : List A) × (q ≡ v ∷ rest)

  -- The producer adds `more` at the end of the queue, and does not touch the reader's index.
  pub record Pushed (ring ring' : Ring A) (sent sent' q : List A) (p' : Producer A) : Type ℓ where
    pub more : List A
    pub noted : sent' ≡ sent ++ more
    pub models : Models c ring' (q ++ more)
    pub producing : Producing ring' (q ++ more) p'
    pub read_same : ring'.read ≡ ring.read

  -- The consumer takes `gone` off the front, and does not touch the slots and the writer's index.
  pub record Popped (ring ring' : Ring A) (received received' q : List A) (p' : Consumer A)
      : Type ℓ where
    pub gone : List A
    pub left : List A
    pub split : q ≡ gone ++ left
    pub noted : received' ≡ received ++ gone
    pub models : Models c ring' left
    pub consuming : Consuming ring' left p'
    pub write_same : ring'.write ≡ ring.write
    pub slots_same : ring'.slots ≡ ring.slots

  -- The reader's slot holds the oldest item.
  oldest :
      (ring : Ring A) (q : List A)
      → Models c ring q
      → 0 < length q
      → (v : A) → get_elem? ring.slots ring.read ≡ some v
      → (rest : List A) × (q ≡ v ∷ rest)
  oldest ring [] m pos v at = absurd (omega arith)
  oldest ring (x ∷ q) m pos v at =
      let ((y, found, same), _) = m.stored in let e : x ≡ v = cc in (q, ap (λ z. z ∷ q) e)

  -- Moving the reader's index drops the oldest item.
  advance :
      (ring : Ring A) (v : A) (rest : List A)
      → Models c ring (v ∷ rest)
      → Models c (record ring { read = add64 ring.read 1 % c }) rest
  advance ring v rest m =
      let plain : add64 ring.read 1 ≡ ring.read + 1 = omega (arith, m.small, m.read_in) in
      record {
        sized = m.sized;
        small = m.small;
        read_in = omega (arith, m.read_in);
        write_at = rw plain (m.write_at ∙ sym (first_slot ring.read (length rest) c));
        room = omega (arith, m.room);
        stored = rw plain m.stored.1;
      }

  module _ (ring : Ring A) (q : List A) (m : Models c ring q) where
    idle : (sent : List A) (p' : Producer A) → Producing ring q p' → Pushed ring ring sent sent q p'
    idle sent p' h = record {
      more = [];
      noted = sym (append-nil sent);
      models = rw append-nil m;
      producing = rw append-nil h;
      read_same = refl;
    }

    has_room : add64 ring.write 1 % c ≢ ring.read → suc (length q) < c
    has_room n = ground (arith, m.room, next_write c ring q m, slot_turn ring.read c m.read_in, n)

    has_item : ring.read ≢ ring.write → 0 < length q
    has_item n = ground (arith, m.write_at, slot_here ring.read c m.read_in, n)

    -- The slot at the writer's index holds no item.
    fill : (v : A) → Models c (record ring { slots = set ring.slots ring.write v }) q
    fill v = record {
      sized = length-set ring.slots ring.write v ∙ m.sized;
      small = m.small;
      read_in = m.read_in;
      write_at = m.write_at;
      room = m.room;
      stored =
          Along-set (λ (x y : A). y ≡ x) c ring.slots m.sized q ring.read ring.write (length q) v
            m.read_in m.write_at (omega arith) m.room m.stored;
    }

    -- Moving the writer's index takes its slot into the queue.
    show :
        (v : A)
        → suc (length q) < c
        → get_elem? ring.slots ring.write ≡ some v
        → Models c (record ring { write = add64 ring.write 1 % c }) (q ++ v ∷ [])
    show v room at =
        let longer : length (q ++ v ∷ []) ≡ suc (length q) =
          omega (arith, length-append q (v ∷ [])) in
        record {
          sized = m.sized;
          small = m.small;
          read_in = m.read_in;
          write_at = rw longer (next_write c ring q m);
          room = omega (arith, longer);
          stored =
              Along-snoc (λ (x y : A). y ≡ x) c ring.slots q ring.read v v m.read_in
                (ap (get_elem? ring.slots) (sym m.write_at) ∙ at) refl m.stored;
        }

    pub Push-Pushed :
        {sent sent' : List A} {p p' : Producer A} {ring' : Ring A}
        → Push c ring sent p ring' sent' p'
        → Producing ring q p
        → Pushed ring ring' sent sent' q p'
    Push-Pushed {sent} Push.load_write h = idle sent _ (refl, tt)
    Push-Pushed {sent} (Push.find_full e) h = idle sent _ tt
    Push-Pushed {sent} (Push.find_room n) (e, _) =
        idle sent _ (e, has_room (λ f. n (ap (λ (t : ℕ). add64 t 1 % c) e ∙ f)), tt)
    Push-Pushed {sent} (Push.write_slot {v} {w}) (e, room, _) =
        let inside : w < length ring.slots = omega (arith, e, m.sized, write_in c ring q m) in
        record {
          more = [];
          noted = sym (append-nil sent);
          models = rw (append-nil, e) (fill v);
          producing = rw append-nil (e, room, get_elem?-set_self ring.slots w v inside);
          read_same = refl;
        }
    Push-Pushed {sent} (Push.publish {v} {w}) (e, room, at) = record {
      more = v ∷ [];
      noted = refl;
      models = rw e (show v room (ap (get_elem? ring.slots) (sym e) ∙ at));
      producing = tt;
      read_same = refl;
    }

    stay :
        (received : List A) (p' : Consumer A)
        → Consuming ring q p'
        → Popped ring ring received received q p'
    stay received p' h = record {
      gone = [];
      left = q;
      split = refl;
      noted = sym (append-nil received);
      models = m;
      consuming = h;
      write_same = refl;
      slots_same = refl;
    }

    pub Pop-Popped :
        {received received' : List A} {p p' : Consumer A} {ring' : Ring A}
        → Pop c ring received p ring' received' p'
        → Consuming ring q p
        → Popped ring ring' received received' q p'
    Pop-Popped {received} Pop.load_read h = stay received _ (refl, tt)
    Pop-Popped {received} (Pop.find_empty e) h = stay received _ tt
    Pop-Popped {received} (Pop.find_item n) (e, _) =
        stay received _ (e, has_item (λ f. n (e ∙ f)), tt)
    Pop-Popped {received} (Pop.read_slot at) (e, pos, _) =
        let (rest, split) = oldest ring q m pos _ (ap (get_elem? ring.slots) (sym e) ∙ at) in
        stay received _ (e, rest, split)
    Pop-Popped {received} (Pop.release {r} {v}) (e, rest, split) = record {
      gone = v ∷ [];
      left = rest;
      split = split;
      noted = refl;
      models = rw e (advance ring v rest (subst (Models c ring) split m));
      consuming = tt;
      write_same = refl;
      slots_same = refl;
    }
