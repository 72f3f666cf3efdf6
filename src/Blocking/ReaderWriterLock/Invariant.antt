-- ===== src/Blocking/ReaderWriterLock/Invariant.antt =====
-- The invariant of `ReaderWriterLock`: who is inside and who sleeps.
use learn_cpp.Prelude.{
  ℕ, ◌+◌, ◌-◌, ◌<◌, ◌≤◌, ◌≡◌, refl, ap, ◌⊎◌, inl, inr, Bool, Bool-cases, true, false, some, List,
  map, replicate, if◌then◌else◌, ◌==◌, get_elem?, set, arith,
}
use learn_cpp.Blocking.Threads.{
  tally, tally-set, tally-map, tally-map_none, tally-replicate, Reach, Reach-keep,
}
use learn_cpp.Blocking.ReaderWriterLock.{
  Mode, may_enter, enter, unlock, Thread, System, attempt, wake, leave, Step,
}

abbrev pub is_reading : Thread → Bool
is_reading (Thread.inside Mode.read) = true
is_reading t = false

abbrev pub is_writing : Thread → Bool
is_writing (Thread.inside Mode.write) = true
is_writing t = false

abbrev pub is_reader_asleep : Thread → Bool
is_reader_asleep (Thread.asleep Mode.read) = true
is_reader_asleep t = false

abbrev pub is_writer_asleep : Thread → Bool
is_writer_asleep (Thread.asleep Mode.write) = true
is_writer_asleep t = false

-- The lock's fields count the threads inside, readers exclude writers, a reader sleeps only while there
-- is a writer inside, and a writer only while there is any thread inside.
pub record Sound (s : System) : Type 0 where
  pub readers : tally is_reading s.threads ≡ s.lock.readers
  pub writers : tally is_writing s.threads ≡ (if s.lock.writing then 1 else 0)
  pub exclusive : (s.lock.readers ≡ 0) ⊎ (s.lock.writing ≡ false)
  pub reader_asleep : (tally is_reader_asleep s.threads ≡ 0) ⊎ (s.lock.writing ≡ true)
  pub writer_asleep :
      (tally is_writer_asleep s.threads ≡ 0) ⊎ (s.lock.writing ≡ true) ⊎ (0 < s.lock.readers)

-- A thread that is not inside and not asleep.
record Free (x : Thread) : Type 0 where
  reading : is_reading x ≡ false
  writing : is_writing x ≡ false
  reader_asleep : is_reader_asleep x ≡ false
  writer_asleep : is_writer_asleep x ≡ false

-- A free thread that moves to y is counted where y is.
free-set :
    (p : Thread → Bool) (ts : List Thread) (t : ℕ) (x y : Thread)
    → get_elem? ts t ≡ some x
    → p x ≡ false
    → tally p (set ts t y) ≡ tally p ts + (if p y then 1 else 0)
free-set p ts t x y h free =
    let moved = tally-set p ts t x y h in
    let out = ap {B = ℕ} (λ b. if b then 1 else 0) free in omega (arith, moved, out)

enter-Sound :
    (m : Mode) (t : ℕ) (s : System) (x : Thread)
    → get_elem? s.threads t ≡ some x
    → Free x
    → may_enter m s.lock ≡ true
    → Sound s
    → Sound (record { lock = enter m s.lock; threads = set s.threads t (Thread.inside m) })
unfolding may_enter enter
enter-Sound Mode.read t s x h free e sound =
    let r = free-set is_reading s.threads t x (Thread.inside Mode.read) h free.reading in
    let w = free-set is_writing s.threads t x (Thread.inside Mode.read) h free.writing in
    let ra =
      free-set is_reader_asleep s.threads t x (Thread.inside Mode.read) h free.reader_asleep in
    let wa =
      free-set is_writer_asleep s.threads t x (Thread.inside Mode.read) h free.writer_asleep in
    record {
      readers = omega (arith, r, sound.readers);
      writers = omega (arith, w, sound.writers);
      exclusive = inr (ground arith);
      reader_asleep = ground (arith, ra, sound.reader_asleep);
      writer_asleep = inr (inr (omega arith));
    }
enter-Sound Mode.write t s x h free e sound =
    let r = free-set is_reading s.threads t x (Thread.inside Mode.write) h free.reading in
    let w = free-set is_writing s.threads t x (Thread.inside Mode.write) h free.writing in
    record {
      readers = omega (arith, r, sound.readers);
      writers = ground (arith, w, sound.writers);
      exclusive = inl (ground arith);
      reader_asleep = inr refl;
      writer_asleep = inr (inl refl);
    }

sleep-Sound :
    (m : Mode) (t : ℕ) (s : System) (x : Thread)
    → get_elem? s.threads t ≡ some x
    → Free x
    → may_enter m s.lock ≡ false
    → Sound s
    → Sound (record s { threads = set s.threads t (Thread.asleep m) })
unfolding may_enter
sleep-Sound Mode.read t s x h free e sound =
    let r = free-set is_reading s.threads t x (Thread.asleep Mode.read) h free.reading in
    let w = free-set is_writing s.threads t x (Thread.asleep Mode.read) h free.writing in
    let wa =
      free-set is_writer_asleep s.threads t x (Thread.asleep Mode.read) h free.writer_asleep in
    record {
      readers = omega (arith, r, sound.readers);
      writers = omega (arith, w, sound.writers);
      exclusive = sound.exclusive;
      reader_asleep = inr (ground arith);
      writer_asleep = ground (arith, wa, sound.writer_asleep);
    }
sleep-Sound Mode.write t s x h free e sound =
    let r = free-set is_reading s.threads t x (Thread.asleep Mode.write) h free.reading in
    let w = free-set is_writing s.threads t x (Thread.asleep Mode.write) h free.writing in
    let ra =
      free-set is_reader_asleep s.threads t x (Thread.asleep Mode.write) h free.reader_asleep in
    record {
      readers = omega (arith, r, sound.readers);
      writers = omega (arith, w, sound.writers);
      exclusive = sound.exclusive;
      reader_asleep = ground (arith, ra, sound.reader_asleep);
      writer_asleep = inr (ground arith);
    }

attempt-Sound :
    (m : Mode) (t : ℕ) (s : System) (x : Thread)
    → get_elem? s.threads t ≡ some x
    → Free x
    → Sound s
    → Sound (attempt m t s)
unfolding attempt may_enter enter
attempt-Sound m t s x h free sound = elim (Bool-cases (may_enter m s.lock)) [
  | inl e ↦ rw (e, attempt) (enter-Sound m t s x h free e sound)
  | inr e ↦ rw (e, attempt) (sleep-Sound m t s x h free e sound)
]

-- A notification counts nobody asleep, and leaves who is inside.
record Woken (ts : List Thread) : Type 0 where
  reading : tally is_reading (map wake ts) ≡ tally is_reading ts
  writing : tally is_writing (map wake ts) ≡ tally is_writing ts
  reader_asleep : tally is_reader_asleep (map wake ts) ≡ 0
  writer_asleep : tally is_writer_asleep (map wake ts) ≡ 0

wake-is_reading : (x : Thread) → is_reading (wake x) ≡ is_reading x
wake-is_reading Thread.outside = refl
wake-is_reading (Thread.asleep m) = refl
wake-is_reading (Thread.awake m) = refl
wake-is_reading (Thread.inside m) = refl

wake-is_writing : (x : Thread) → is_writing (wake x) ≡ is_writing x
wake-is_writing Thread.outside = refl
wake-is_writing (Thread.asleep m) = refl
wake-is_writing (Thread.awake m) = refl
wake-is_writing (Thread.inside m) = refl

wake-is_reader_asleep : (x : Thread) → is_reader_asleep (wake x) ≡ false
wake-is_reader_asleep Thread.outside = refl
wake-is_reader_asleep (Thread.asleep m) = refl
wake-is_reader_asleep (Thread.awake m) = refl
wake-is_reader_asleep (Thread.inside m) = refl

wake-is_writer_asleep : (x : Thread) → is_writer_asleep (wake x) ≡ false
wake-is_writer_asleep Thread.outside = refl
wake-is_writer_asleep (Thread.asleep m) = refl
wake-is_writer_asleep (Thread.awake m) = refl
wake-is_writer_asleep (Thread.inside m) = refl

map-Woken : (ts : List Thread) → Woken ts
map-Woken ts = record {
  reading = tally-map is_reading is_reading wake ts wake-is_reading;
  writing = tally-map is_writing is_writing wake ts wake-is_writing;
  reader_asleep = tally-map_none is_reader_asleep wake ts wake-is_reader_asleep;
  writer_asleep = tally-map_none is_writer_asleep wake ts wake-is_writer_asleep;
}

leave-Sound :
    (m : Mode) (t : ℕ) (s : System)
    → get_elem? s.threads t ≡ some (Thread.inside m)
    → Sound s
    → Sound (leave m t s)
unfolding leave unlock
leave-Sound Mode.read t s h sound =
    let r = tally-set is_reading s.threads t (Thread.inside Mode.read) Thread.outside h in
    let w = tally-set is_writing s.threads t (Thread.inside Mode.read) Thread.outside h in
    let ra = tally-set is_reader_asleep s.threads t (Thread.inside Mode.read) Thread.outside h in
    let woken = map-Woken (set s.threads t Thread.outside) in
    let free : s.lock.writing ≡ false = ground (arith, r, sound.readers, sound.exclusive) in
    elim (Bool-cases (s.lock.readers - 1 == 0)) [
      | inl e ↦
          rw (e, leave)
            (record {
              readers = omega (arith, r, woken.reading, sound.readers);
              writers = omega (arith, w, woken.writing, sound.writers);
              exclusive = inr free;
              reader_asleep = inl woken.reader_asleep;
              writer_asleep = inl woken.writer_asleep;
            })
      | inr e ↦
          rw (e, leave)
            (record {
              readers = omega (arith, r, sound.readers);
              writers = omega (arith, w, sound.writers);
              exclusive = inr free;
              reader_asleep = ground (arith, ra, sound.reader_asleep);
              writer_asleep = inr (inr (ground arith));
            })
    ]
leave-Sound Mode.write t s h sound =
    let r = tally-set is_reading s.threads t (Thread.inside Mode.write) Thread.outside h in
    let w = tally-set is_writing s.threads t (Thread.inside Mode.write) Thread.outside h in
    let woken = map-Woken (set s.threads t Thread.outside) in
    record {
      readers = omega (arith, r, woken.reading, sound.readers);
      writers = ground (arith, w, woken.writing, sound.writers);
      exclusive = inr refl;
      reader_asleep = inl woken.reader_asleep;
      writer_asleep = inl woken.writer_asleep;
    }

spurious-Sound :
    (m : Mode) (t : ℕ) (s : System)
    → get_elem? s.threads t ≡ some (Thread.asleep m)
    → Sound s
    → Sound (record s { threads = set s.threads t (Thread.awake m) })
spurious-Sound m t s h sound =
    let r = tally-set is_reading s.threads t (Thread.asleep m) (Thread.awake m) h in
    let w = tally-set is_writing s.threads t (Thread.asleep m) (Thread.awake m) h in
    let ra = tally-set is_reader_asleep s.threads t (Thread.asleep m) (Thread.awake m) h in
    let wa = tally-set is_writer_asleep s.threads t (Thread.asleep m) (Thread.awake m) h in
    record {
      readers = omega (arith, r, sound.readers);
      writers = omega (arith, w, sound.writers);
      exclusive = sound.exclusive;
      reader_asleep = ground (arith, ra, sound.reader_asleep);
      writer_asleep = ground (arith, wa, sound.writer_asleep);
    }

step-Sound : (s u : System) → Step s u → Sound s → Sound u
step-Sound s _ (Step.call t m h) sound =
    attempt-Sound m t s Thread.outside h
      (record { reading = refl; writing = refl; reader_asleep = refl; writer_asleep = refl }) sound
step-Sound s _ (Step.retry t m h) sound =
    attempt-Sound m t s (Thread.awake m) h
      (record { reading = refl; writing = refl; reader_asleep = refl; writer_asleep = refl }) sound
step-Sound s _ (Step.exit t m h) sound = leave-Sound m t s h sound
step-Sound s _ (Step.spurious t m h) sound = spurious-Sound m t s h sound

-- The lock is free and all of n threads are outside.
abbrev pub start : ℕ → System
start n = record {
  lock = record { readers = 0; writing = false };
  threads = replicate n Thread.outside;
}

start-Sound : (n : ℕ) → Sound (start n)
start-Sound n = record {
  readers = tally-replicate is_reading n Thread.outside refl;
  writers = tally-replicate is_writing n Thread.outside refl;
  exclusive = inl refl;
  reader_asleep = inl (tally-replicate is_reader_asleep n Thread.outside refl);
  writer_asleep = inl (tally-replicate is_writer_asleep n Thread.outside refl);
}

reached-Sound : (n : ℕ) (s : System) → Reach Step (start n) s → Sound s
reached-Sound n s r = Reach-keep Step Sound step-Sound (start n) s r (start-Sound n)

-- In every state that n threads reach by locking and unlocking, at most one thread is inside for
-- writing, and none is inside for writing or none is for reading.
pub writers_exclude :
    (n : ℕ) (s : System)
    → Reach Step (start n) s
    → (tally is_writing s.threads ≤ 1)
      × ((tally is_writing s.threads ≡ 0) ⊎ (tally is_reading s.threads ≡ 0))
writers_exclude n s r =
    let sound = reached-Sound n s r in
    (ground (arith, sound.writers), ground (arith, sound.writers, sound.readers, sound.exclusive))

-- In every state that n threads reach, no reader is asleep or the predicate of a reader's wait is
-- false, and no writer is asleep or the predicate of a writer's wait is false: no notification is lost.
pub no_one_oversleeps :
    (n : ℕ) (s : System)
    → Reach Step (start n) s
    → ((tally is_reader_asleep s.threads ≡ 0) ⊎ (may_enter Mode.read s.lock ≡ false))
      × ((tally is_writer_asleep s.threads ≡ 0) ⊎ (may_enter Mode.write s.lock ≡ false))
unfolding may_enter
no_one_oversleeps n s r =
    let sound = reached-Sound n s r in
    (ground (arith, sound.reader_asleep), ground (arith, sound.writer_asleep))
