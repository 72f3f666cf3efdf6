-- ===== src/Reconciler/FlatHash/Models.antt =====
-- The hash table as a map from ids to entries: what it keeps, and what an insertion, a write and an
-- erasure do to the map.
use learn_cpp.Prelude.{
  ℕ, suc, ◌≤◌, ◌<◌, ◌≡◌, ◌≢◌, refl, sym, ap, ◌∙◌, subst, true, false, ◌⊎◌, inl, inr, Option, none,
  some, List, if◌then◌else◌, ◌==◌, length, length-set, get_or, get_or-set_ne, get_or-set_self, set,
  count, arith, Bool-cases, ==→eq, ==→ne,
}
use learn_cpp.Reconciler.FlatHash.{Table, insert_at, erase_at, write_at, probe}
use learn_cpp.Reconciler.FlatHash.Keys.{
  search, Sound, count-set, count-set_used, set-Sized, search-set, set-Sound, search-erase, wrote,
  kept,
}
use learn_cpp.Reconciler.FlatHash.Probe.{key, Sized, probe_le, find_from-key}
use learn_cpp.Reconciler.UnorderedHeap.{HeapEntry, fresh}

module _ {D : Type 0} where
  abbrev pub entry_at : List (HeapEntry D) → Option ℕ → Option (HeapEntry D)
  entry_at es none = none
  entry_at es (some s) = some (get_or es s fresh)

  -- The table holds the map `g`, and takes `room` more keys.
  pub record Models (room : ℕ) (tb : Table D) (g : ℕ → Option (HeapEntry D)) : Type 0 where
    pub sized : Sized tb.mask tb.keys
    pub entries_len : length tb.entries ≡ suc tb.mask
    pub used_len : length tb.used ≡ suc tb.mask
    pub free : room < count 0 tb.keys
    pub sound : Sound tb.mask tb.keys
    pub in_use : (s : ℕ) → s ≤ tb.mask → 2 ≤ key tb.keys s → get_or tb.used s false ≡ true
    pub agrees :
        (id : ℕ)
        → (o : Option ℕ) × ((search tb.mask tb.keys id ≡ some o) × (g id ≡ entry_at tb.entries o))

  pub weaken :
      (room more : ℕ) (tb : Table D) (g : ℕ → Option (HeapEntry D))
      → room ≤ more
      → Models more tb g
      → Models room tb g
  weaken room more tb g le m = record {
    sized = m.sized;
    entries_len = m.entries_len;
    used_len = m.used_len;
    free = omega (arith, m.free);
    sound = m.sound;
    in_use = m.in_use;
    agrees = m.agrees;
  }

  module _ {room : ℕ} (tb : Table D) (g : ℕ → Option (HeapEntry D)) where
    pub Models_ext :
        (g' : ℕ → Option (HeapEntry D))
        → ((j : ℕ) → g j ≡ g' j)
        → Models room tb g
        → Models room tb g'
    Models_ext g' same m = record {
      sized = m.sized;
      entries_len = m.entries_len;
      used_len = m.used_len;
      free = m.free;
      sound = m.sound;
      in_use = m.in_use;
      agrees = λ j. let (o, (f, e)) = m.agrees j in (o, (f, sym (same j) ∙ e));
    }

    -- What the search finds holds the key and the entry.
    pub slot-Models :
        (id s : ℕ)
        → Models room tb g
        → search tb.mask tb.keys id ≡ some (some s)
        → (key tb.keys s ≡ id) × (2 ≤ id) × (s ≤ tb.mask)
    slot-Models id s m h =
        find_from-key (suc tb.mask) tb.mask id tb.keys (probe tb.mask id) s m.sized
          (probe_le id m.sized) h

    pub entry-Models :
        (id s : ℕ)
        → Models room tb g
        → search tb.mask tb.keys id ≡ some (some s)
        → g id ≡ some (get_or tb.entries s fresh)
    entry-Models id s m h =
        let (o, (f, e)) = m.agrees id in
        let same : o ≡ some s = ground (arith, f, h) in e ∙ ap (entry_at tb.entries) same

    -- A write to the entry of another slot.
    kept_entry :
        (j s : ℕ) (ent : HeapEntry D) (o : Option ℕ)
        → Models room tb g
        → (key tb.keys s < 2) ⊎ (key tb.keys s ≢ j)
        → search tb.mask tb.keys j ≡ some o
        → entry_at tb.entries o ≡ entry_at (set tb.entries s ent) o
    kept_entry j s ent none m old h = refl
    kept_entry j s ent (some t) m old h =
        let (there, two, in_range) = slot-Models j t m h in
        let apart : s ≢ t = λ e. elim old [
          | inl small ↦ omega (arith, ap (key tb.keys) e, there)
          | inr ne ↦ ne (ap (key tb.keys) e ∙ there)
        ] in
        ap some (sym (get_or-set_ne tb.entries s t ent fresh apart))

    pub write_at-Models :
        (id s : ℕ) (ent : HeapEntry D)
        → search tb.mask tb.keys id ≡ some (some s)
        → Models room tb g
        → Models room (write_at s ent tb) (λ j. if id == j then some ent else g j)
    unfolding write_at
    write_at-Models id s ent h m =
        let (there, two, in_range) = slot-Models id s m h in
        record {
          sized = m.sized;
          entries_len = length-set tb.entries s ent ∙ m.entries_len;
          used_len = m.used_len;
          free = m.free;
          sound = m.sound;
          in_use = m.in_use;
          agrees = λ j. elim (Bool-cases (id == j)) [
            | inl same ↦ rw same (
              some s,
              (
                subst (λ i. search tb.mask tb.keys i ≡ some (some s)) (==→eq id j same) h,
                ap some
                    (sym (get_or-set_self tb.entries s ent fresh (omega (arith, m.entries_len)))),
              ),
            )
            | inr other ↦
                let (o, (f, e)) = m.agrees j in
                let old : key tb.keys s ≢ j = λ c. ==→ne id j other (sym there ∙ c) in
                rw other (o, (f, e ∙ kept_entry j s ent o m (inr old) f))
          ];
        }

  module _ {room : ℕ} (tb : Table D) (g : ℕ → Option (HeapEntry D)) where
    -- A new key at a slot where it is found.
    pub insert_at-Models :
        (id s : ℕ)
        → 2 ≤ id
        → s ≤ tb.mask
        → key tb.keys s < 2
        → search tb.mask tb.keys id ≡ some none
        → search tb.mask (set tb.keys s id) id ≡ some (some s)
        → Models (suc room) tb g
        → Models room (insert_at s id tb) (λ j. if id == j then some fresh else g j)
    unfolding insert_at
    insert_at-Models id s two le small absent found m =
        let room' : room < count 0 (set tb.keys s id) =
          omega (arith, m.free, count-set tb.keys s id (omega arith)) in
        let some_room : 0 < count 0 (set tb.keys s id) = omega arith in
        record {
          sized = set-Sized m.sized s id;
          entries_len = length-set tb.entries s fresh ∙ m.entries_len;
          used_len = length-set tb.used s true ∙ m.used_len;
          free = room';
          sound = set-Sound m.sized m.sound s id le some_room (inr (two, absent, found));
          in_use = λ t in_range big. elim (Bool-cases (s == t)) [
            | inl hit ↦
                subst (λ i. get_or (set tb.used s true) i false ≡ true) (==→eq s t hit)
                  (get_or-set_self tb.used s true false (omega (arith, m.used_len)))
            | inr miss ↦
                get_or-set_ne tb.used s t true false (==→ne s t miss)
                ∙ m.in_use t in_range
                    (omega (arith, kept m.sized m.sound s id le some_room t miss, big))
          ];
          agrees = λ j. elim (Bool-cases (id == j)) [
            | inl same ↦ rw same (
              some s,
              (
                subst (λ i. search tb.mask (set tb.keys s id) i ≡ some (some s)) (==→eq id j same)
                    found,
                ap some
                    (sym (get_or-set_self tb.entries s fresh fresh (omega (arith, m.entries_len)))),
              ),
            )
            | inr other ↦
                let (o, (f, e)) = m.agrees j in
                rw other (
                  o,
                  (
                    search-set m.sized m.sound s id le some_room j o (inr (two, ==→ne id j other))
                        (inl small) f,
                    e ∙ kept_entry tb g j s fresh o m (inl small) f,
                  ),
                )
          ];
        }

    pub erase_at-Models :
        (id s : ℕ)
        → search tb.mask tb.keys id ≡ some (some s)
        → Models room tb g
        → Models room (erase_at s tb) (λ j. if id == j then none else g j)
    unfolding erase_at
    erase_at-Models id s h m =
        let (there, two, le) = slot-Models tb g id s m h in
        let room' : room < count 0 (set tb.keys s 1) =
          omega (arith, m.free, count-set_used tb.keys s 1 (omega arith) (omega (arith, there))) in
        let some_room : 0 < count 0 (set tb.keys s 1) = omega arith in
        record {
          sized = set-Sized m.sized s 1;
          entries_len = length-set tb.entries s fresh ∙ m.entries_len;
          used_len = length-set tb.used s false ∙ m.used_len;
          free = room';
          sound = set-Sound m.sized m.sound s 1 le some_room (inl refl);
          in_use = λ t in_range big. elim (Bool-cases (s == t)) [
            | inl hit ↦ absurd (omega (arith, wrote m.sized m.sound s 1 le some_room t hit, big))
            | inr miss ↦
                get_or-set_ne tb.used s t false false (==→ne s t miss)
                ∙ m.in_use t in_range
                    (omega (arith, kept m.sized m.sound s 1 le some_room t miss, big))
          ];
          agrees = λ j. elim (Bool-cases (id == j)) [
            | inl same ↦ rw same (
              none,
              (
                subst (λ i. search tb.mask (set tb.keys s 1) i ≡ some none)
                    (there ∙ ==→eq id j same)
                    (search-erase m.sized m.sound s 1 le some_room refl (rw there two)),
                refl,
              ),
            )
            | inr other ↦
                let (o, (f, e)) = m.agrees j in
                let old : key tb.keys s ≢ j = λ c. ==→ne id j other (sym there ∙ c) in
                rw other (
                  o,
                  (
                    search-set m.sized m.sound s 1 le some_room j o (inl refl) (inr old) f,
                    e ∙ kept_entry tb g j s fresh o m (inr old) f,
                  ),
                )
          ];
        }
