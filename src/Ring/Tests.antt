-- ===== src/Ring/Tests.antt =====
-- The rings at small capacities: runs, and the theorems at concrete inputs.
use learn_cpp.Prelude.{
  ℕ, ◌≤◌, ◌≡◌, refl, ◌≢◌, true, false, none, some, List, [], ◌∷◌, ◌++◌, arith, length,
}
use learn_cpp.Fifo.{Op, put, get, run, replies}
use learn_cpp.Ring.Indices.{Ring, Models, fresh-Models}
use learn_cpp.Ring.SpscRingBuffer
use learn_cpp.Ring.MaskedRing
use learn_cpp.Ring.WaitFreeSpscQueue
use learn_cpp.Ring.Interleaved.Defs.{
  System, Producer, Consumer, Push, Pop, produce, consume, Reach, here, later, start,
}
use learn_cpp.Ring.Interleaved.Order.{received-prefix, slots_apart}

abbrev script : List (Op ℕ)
script = put 7 ∷ put 8 ∷ put 9 ∷ get ∷ put 9 ∷ get ∷ get ∷ get ∷ []

-- Three slots hold two items; the third `push` is refused, the last `pop` finds nothing.
script-replies :
    replies 2 script []
    ≡ (true, none)
      ∷ (true, none)
      ∷ (false, none)
      ∷ (true, some 7)
      ∷ (true, none)
      ∷ (true, some 8)
      ∷ (true, some 9)
      ∷ (false, none)
      ∷ []
unfolding replies
script-replies = refl

run-masked_ring_example :
    run (MaskedRing.fifo 4 2 refl) script (MaskedRing.init 4 0) ≡ replies 3 script []
run-masked_ring_example = MaskedRing.run-masked_ring 4 2 refl 0 script (omega arith)

run-wait_free_queue_example :
    run (WaitFreeSpscQueue.fifo 3) script (WaitFreeSpscQueue.init 3 0) ≡ replies 3 script []
run-wait_free_queue_example =
    WaitFreeSpscQueue.run-wait_free_queue 3 0 script (omega arith) (omega arith)

abbrev four : Ring ℕ
four = record { slots = 0 ∷ 0 ∷ 0 ∷ 0 ∷ []; write = 0; read = 0 }

four-Models : Models 4 four []
four-Models = fresh-Models 4 0 (omega arith) (omega arith)

-- Five items into room for three.
push_batch-Models_example :
    ((MaskedRing.push_batch 4 (5 ∷ 6 ∷ 7 ∷ 8 ∷ 9 ∷ []) four).0 ≡ 3)
    × Models 4 (MaskedRing.push_batch 4 (5 ∷ 6 ∷ 7 ∷ 8 ∷ 9 ∷ []) four).1 (5 ∷ 6 ∷ 7 ∷ [])
push_batch-Models_example =
    MaskedRing.push_batch-Models 4 2 refl (5 ∷ 6 ∷ 7 ∷ 8 ∷ 9 ∷ []) four [] four-Models

abbrev filled : Ring ℕ
filled = (MaskedRing.push_batch 4 (5 ∷ 6 ∷ 7 ∷ 8 ∷ 9 ∷ []) four).1

pop_batch-Models_example :
    ((MaskedRing.pop_batch 4 2 filled).0 ≡ 2)
    × ((MaskedRing.pop_batch 4 2 filled).1 ≡ some 5 ∷ some 6 ∷ [])
    × Models 4 (MaskedRing.pop_batch 4 2 filled).2 (7 ∷ [])
pop_batch-Models_example =
    MaskedRing.pop_batch-Models 4 2 refl 2 filled (5 ∷ 6 ∷ 7 ∷ []) push_batch-Models_example.1

-- The producer publishes 7, and stands before its next write while the consumer stands before its
-- first read.
abbrev origin : System ℕ
origin = start (SpscRingBuffer.init 3 0)

abbrev racing : System ℕ
racing = record {
  ring = record { slots = 7 ∷ 0 ∷ 0 ∷ []; write = 1; read = 0 };
  producer = Producer.clear 8 1;
  consumer = Consumer.filled 0;
  sent = 7 ∷ [];
  received = [];
}

racing-Reach : Reach 3 origin racing
unfolding SpscRingBuffer.init
racing-Reach =
    let published : Reach 3 origin
        (record racing { producer = Producer.outside; consumer = Consumer.outside }) =
      later
        (later
          (later (later here (produce Push.load_write))
            (produce (Push.find_room {v = 7} (omega arith))))
          (produce Push.write_slot))
        (produce Push.publish) in
    later
      (later
        (later (later published (produce Push.load_write))
          (produce (Push.find_room {v = 8} (omega arith))))
        (consume Pop.load_read))
      (consume (Pop.find_item (omega arith)))

received-prefix_example :
    (flight : List ℕ) × (racing.sent ≡ racing.received ++ flight)
    × Models 3 racing.ring flight
    × (length flight ≤ 2)
received-prefix_example = received-prefix 3 0 (omega arith) (omega arith) racing-Reach

slots_apart_example : ◌≢◌ {A = ℕ} 1 0
slots_apart_example = slots_apart 3 0 (omega arith) (omega arith) racing-Reach refl refl
