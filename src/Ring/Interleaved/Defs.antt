-- ===== src/Ring/Interleaved/Defs.antt =====
-- The threads of `SPSCRingBuffer`: a producer that calls `push` and a consumer that calls `pop`.
use learn_cpp.Prelude.{ℕ, ◌%◌, ◌≡◌, ◌≢◌, some, List, [], ◌∷◌, ◌++◌, get_elem?, set, add64}
use learn_cpp.Ring.Indices.{Ring}

-- Where the producer stands in `push`, with its locals.
pub data Producer {ℓ} (A : Type ℓ) : Type ℓ where
  outside : Producer A
  loaded : (value : A) (w : ℕ) → Producer A  -- `w` is loaded
  clear : (value : A) (w : ℕ) → Producer A  -- the test has found room
  written : (value : A) (w : ℕ) → Producer A  -- `buffer_[w]` is written

-- Where the consumer stands in `pop`.
pub data Consumer {ℓ} (A : Type ℓ) : Type ℓ where
  outside : Consumer A
  loaded : (r : ℕ) → Consumer A  -- `r` is loaded
  filled : (r : ℕ) → Consumer A  -- the test has found an item
  taken : (r : ℕ) (value : A) → Consumer A  -- `buffer_[r]` is read

-- Shared memory, both threads, and what the calls that returned true have moved so far.
pub record System {ℓ} (A : Type ℓ) : Type ℓ where
  pub ring : Ring A
  pub producer : Producer A
  pub consumer : Consumer A
  pub sent : List A
  pub received : List A

module _ {ℓ} {A : Type ℓ} (c : ℕ) where
  -- One step of `push`: the ring, the thread's place and the items sent, before and after.
  pub data Push (ring : Ring A) (sent : List A)
      : Producer A → Ring A → List A → Producer A → Type ℓ where
    load_write : {v : A} → Push ring sent Producer.outside ring sent (Producer.loaded v ring.write)
    find_full :
        {v : A} {w : ℕ}
        → add64 w 1 % c ≡ ring.read
        → Push ring sent (Producer.loaded v w) ring sent Producer.outside
    find_room :
        {v : A} {w : ℕ}
        → add64 w 1 % c ≢ ring.read
        → Push ring sent (Producer.loaded v w) ring sent (Producer.clear v w)
    write_slot :
        {v : A} {w : ℕ}
        → Push ring sent
            (Producer.clear v w)
            (record ring { slots = set ring.slots w v })
            sent
            (Producer.written v w)
    publish :
        {v : A} {w : ℕ}
        → Push ring sent
            (Producer.written v w)
            (record ring { write = add64 w 1 % c })
            (sent ++ v ∷ [])
            Producer.outside

  -- One step of `pop`.
  pub data Pop (ring : Ring A) (received : List A)
      : Consumer A → Ring A → List A → Consumer A → Type ℓ where
    load_read : Pop ring received Consumer.outside ring received (Consumer.loaded ring.read)
    find_empty :
        {r : ℕ}
        → r ≡ ring.write
        → Pop ring received (Consumer.loaded r) ring received Consumer.outside
    find_item :
        {r : ℕ}
        → r ≢ ring.write
        → Pop ring received (Consumer.loaded r) ring received (Consumer.filled r)
    read_slot :
        {r : ℕ} {v : A}
        → get_elem? ring.slots r ≡ some v
        → Pop ring received (Consumer.filled r) ring received (Consumer.taken r v)
    release :
        {r : ℕ} {v : A}
        → Pop ring received
            (Consumer.taken r v)
            (record ring { read = add64 r 1 % c })
            (received ++ v ∷ [])
            Consumer.outside

  pub data Step (s : System A) : System A → Type ℓ where
    produce :
        {ring : Ring A} {sent : List A} {p : Producer A}
        → Push s.ring s.sent s.producer ring sent p
        → Step s (record s { ring = ring; sent = sent; producer = p })
    consume :
        {ring : Ring A} {received : List A} {p : Consumer A}
        → Pop s.ring s.received s.consumer ring received p
        → Step s (record s { ring = ring; received = received; consumer = p })

  pub data Reach (s : System A) : System A → Type ℓ where
    here : Reach s s
    later : {t u : System A} → Reach s t → Step t u → Reach s u

-- Both threads outside, nothing sent yet.
abbrev pub start {ℓ} : {A : Type ℓ} → Ring A → System A
start ring = record {
  ring = ring;
  producer = Producer.outside;
  consumer = Consumer.outside;
  sent = [];
  received = [];
}
