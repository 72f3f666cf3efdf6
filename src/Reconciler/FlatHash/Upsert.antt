-- ===== src/Reconciler/FlatHash/Upsert.antt =====
-- What `findOrInsert` and a write through the reference that it gives do to the map of a table.
use learn_cpp.Prelude.{
  ℕ, suc, ◌≤◌, ◌<◌, ◌≡◌, refl, ap, ◌∙◌, Bool, true, false, inl, inr, Option, none, some,
  if◌then◌else◌, ◌==◌, get_or, get_or-set_self, set, arith, Option-cases,
}
use learn_cpp.Reconciler.FlatHash.{Table, find_or_insert, insert_at, write_at, probe}
use learn_cpp.Reconciler.FlatHash.Insert.{insert_from-found, insert_from-new}
use learn_cpp.Reconciler.FlatHash.Keys.{search}
use learn_cpp.Reconciler.FlatHash.Probe.{key, probe_le}
use learn_cpp.Reconciler.UnorderedHeap.{HeapEntry, fresh, entry_of}
use learn_cpp.Reconciler.FlatHash.Models.{
  Models, Models_ext, entry-Models, weaken, write_at-Models, insert_at-Models, entry_at,
}

module _ {D : Type 0} where
  write_twice :
      (b : Bool) (x y : HeapEntry D) (o : Option (HeapEntry D))
      → (if b then some x else if b then some y else o) ≡ (if b then some x else o)
  write_twice true x y o = refl
  write_twice false x y o = refl

  -- What `findOrInsert` and a write through the reference do to the map, where a key has room.
  pub record Upserted (room : ℕ) (id : ℕ) (tb : Table D) (g : ℕ → Option (HeapEntry D)) (s : ℕ)
      (got : Table D) : Type 0 where
    pub returns : find_or_insert id tb ≡ some (s, got)
    pub reads : get_or got.entries s fresh ≡ entry_of (g id)
    pub writes :
        (ent : HeapEntry D)
        → Models room (write_at s ent got) (λ j. if id == j then some ent else g j)

  inserted :
      (room id s : ℕ) (tb : Table D) (g : ℕ → Option (HeapEntry D))
      → 2 ≤ id
      → s ≤ tb.mask
      → key tb.keys s < 2
      → search tb.mask tb.keys id ≡ some none
      → search tb.mask (set tb.keys s id) id ≡ some (some s)
      → find_or_insert id tb ≡ some (s, insert_at s id tb)
      → g id ≡ none
      → Models (suc room) tb g
      → Upserted room id tb g s (insert_at s id tb)
  unfolding insert_at
  inserted room id s tb g two le small absent found run new m = record {
    returns = run;
    reads = get_or-set_self tb.entries s fresh fresh (omega (arith, m.entries_len)) ∙ rw new refl;
    writes = λ ent.
        Models_ext (write_at s ent (insert_at s id tb)) _ (λ j. if id == j then some ent else g j)
          (λ j. write_twice (id == j) ent fresh (g j))
          (write_at-Models (insert_at s id tb) _ id s ent found
            (insert_at-Models tb g id s two le small absent found m));
  }

  pub find_or_insert_lem :
      (room id : ℕ) (tb : Table D) (g : ℕ → Option (HeapEntry D))
      → 2 ≤ id
      → Models (suc room) tb g
      → (s : ℕ) × ((got : Table D) × Upserted room id tb g s got)
  unfolding find_or_insert
  find_or_insert_lem room id tb g two m =
      let le = probe_le id m.sized in
      let (o, (f, e)) = m.agrees id in
      elim (Option-cases o) [
        | inr (s, present) ↦
            let h : search tb.mask tb.keys id ≡ some (some s) = f ∙ ap some present in
            (
              s,
              (
                tb,
                record {
                  returns =
                      insert_from-found id two tb m.sized (suc tb.mask) (probe tb.mask id) s none le
                        h;
                  reads = rw (entry-Models tb g id s m h) refl;
                  writes = λ ent.
                      write_at-Models tb g id s ent h (weaken room (suc room) tb g (omega arith) m);
                },
              ),
            )
        | inl absent ↦
            let h : search tb.mask tb.keys id ≡ some none = f ∙ ap some absent in
            let (s, (run, why)) =
              insert_from-new id two tb m.sized (suc tb.mask) (probe tb.mask id) none le h in
            elim why [
              | inl full ↦ absurd (ground arith)
              | inr (start, in_range, small, found) ↦ (
                s,
                (
                  insert_at s id tb,
                  inserted room id s tb g two in_range small h found run
                      (e ∙ ap (entry_at tb.entries) absent) m,
                ),
              )
            ]
      ]
