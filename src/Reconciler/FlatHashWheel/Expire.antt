-- ===== src/Reconciler/FlatHashWheel/Expire.antt =====
-- What `onTimer` of the hash table with a wheel erases, next to that of the vector with a wheel.
use learn_cpp.Prelude.{
  ℕ, zero, suc, ◌%◌, ◌≡◌, refl, sym, ap, ◌∙◌, subst, Bool, true, false, Option, none, some, List,
  [], ◌∷◌, if◌then◌else◌, ◌==◌, leb, add64, get_or, set, inl, inr, Bool-cases, Option-cases, ==→eq,
}
use learn_cpp.Reconciler.DirectIndex.{DirectEntry}
use learn_cpp.Reconciler.DirectIndex.View.{look}
use learn_cpp.Reconciler.DirectIndexWheel
use learn_cpp.Reconciler.DirectIndexWheel.Buckets.{
  Good, is_due, expire_id, expire_id-Good, look-expire_id, expire_bucket-Good,
}
use learn_cpp.Reconciler.FlatHash.{Table, find_index, erase_at}
use learn_cpp.Reconciler.FlatHash.Models.{
  Models, Models_ext, slot-Models, erase_at-Models, entry_at,
}
use learn_cpp.Reconciler.FlatHashWheel
use learn_cpp.Reconciler.FlatHashWheel.Receive.{direct?, Started}
use learn_cpp.Reconciler.IdMap.{keep}
use learn_cpp.Reconciler.UnorderedHeap.{HeapEntry, fresh}

module _ {D : Type 0} where
  -- The table and the vector hold the same entries.
  pub record Linked (room : ℕ) (tb : Table D) (es : List (DirectEntry D)) : Type 0 where
    pub held : ℕ → Option (HeapEntry D)
    pub models : Models room tb held
    pub started : (id : ℕ) → Started (held id)
    pub same : (id : ℕ) → direct? (held id) ≡ look id es

  abbrev due : ℕ → HeapEntry D → Bool
  due t e = leb e.expire_at t

  abbrev left : ℕ → Bool → Option (HeapEntry D) → Option (HeapEntry D)
  left t b o = if b then keep (due t) o else o

  direct-left :
      (max_id tick_mod t : ℕ) (b : Bool) (o : Option (HeapEntry D))
      → direct? (left t b o)
        ≡ (if b then keep (is_due max_id tick_mod t) (direct? o) else direct? o)
  direct-left max_id tick_mod t false o = refl
  direct-left max_id tick_mod t true none = refl
  direct-left max_id tick_mod t true (some e) = elim (Bool-cases (leb e.expire_at t)) [
    | inl gone ↦ rw gone refl
    | inr stays ↦ rw stays refl
  ]

  left-Started : (t : ℕ) (b : Bool) (o : Option (HeapEntry D)) → Started o → Started (left t b o)
  left-Started t false o s = s
  left-Started t true none s = tt
  left-Started t true (some e) s = elim (Bool-cases (leb e.expire_at t)) [
    | inl gone ↦ rw gone tt
    | inr stays ↦ rw stays s
  ]

  left_if :
      (t id j : ℕ) (g : ℕ → Option (HeapEntry D)) (o : Option (HeapEntry D))
      → keep (due t) (g id) ≡ o
      → (if id == j then o else g j) ≡ left t (id == j) (g j)
  left_if t id j g o h = elim (Bool-cases (id == j)) [
    | inl same ↦ rw same (sym h ∙ ap (λ i. keep (due t) (g i)) (==→eq id j same))
    | inr other ↦ rw other refl
  ]

  left_same :
      (t id j : ℕ) (g : ℕ → Option (HeapEntry D))
      → keep (due t) (g id) ≡ g id
      → g j ≡ left t (id == j) (g j)
  left_same t id j g h = elim (Bool-cases (id == j)) [
    | inl same ↦ rw same (subst (λ i. g i ≡ keep (due t) (g i)) (==→eq id j same) (sym h))
    | inr other ↦ rw other refl
  ]

  module _ (room max_id tick_mod t : ℕ) where
    -- One id of a bucket: what the table holds afterwards.
    expire_id-Models :
        (id : ℕ) (tb : Table D) (g : ℕ → Option (HeapEntry D))
        → Models room tb g
        → (got : Table D) × ((FlatHashWheel.expire_id t id tb ≡ some got)
            × Models room got (λ j. left t (id == j) (g j)))
    unfolding FlatHashWheel.expire_id
    expire_id-Models id tb g m =
        let (o, (f, e)) = m.agrees id in
        elim (Option-cases o) [
          | inl absent ↦
              let missing : g id ≡ none = e ∙ ap (entry_at tb.entries) absent in
              let stop : find_index id tb ≡ some none = unfold find_index in f ∙ ap some absent in
              (
                tb,
                (
                  rw (FlatHashWheel.expire_id, stop) refl,
                  Models_ext tb g _ (λ j. left_same t id j g (rw missing refl)) m,
                ),
              )
          | inr (idx, present) ↦
              let ent : HeapEntry D = get_or tb.entries idx fresh in
              let there : g id ≡ some ent = e ∙ ap (entry_at tb.entries) present in
              let found : find_index id tb ≡ some (some idx) =
                unfold find_index in f ∙ ap some present in
              let (same_key, two, le) = slot-Models tb g id idx m (f ∙ ap some present) in
              let used : get_or tb.used idx false ≡ true = m.in_use idx le (rw same_key two) in
              elim (Bool-cases (leb ent.expire_at t)) [
                | inl gone ↦ (
                  erase_at idx tb,
                  (
                    rw (FlatHashWheel.expire_id, found, used, gone) refl,
                    Models_ext (erase_at idx tb) _ _
                        (λ j. left_if t id j g none (rw (there, gone) refl))
                        (erase_at-Models tb g id idx (f ∙ ap some present) m),
                  ),
                )
                | inr stays ↦ (
                  tb,
                  (
                    rw (FlatHashWheel.expire_id, found, used, stays) refl,
                    Models_ext tb g _ (λ j. left_same t id j g (rw (there, stays) refl)) m,
                  ),
                )
              ]
        ]

    expire_id-Linked :
        (id : ℕ) (tb : Table D) (es : List (DirectEntry D))
        → Good max_id tick_mod es
        → Linked room tb es
        → (got : Table D) × ((FlatHashWheel.expire_id t id tb ≡ some got)
            × Linked room got (expire_id max_id tick_mod t id es))
    expire_id-Linked id tb es good l =
        let (got, (run, m)) = expire_id-Models id tb l.held l.models in
        (
          got,
          (
            run,
            record {
              held = λ j. left t (id == j) (l.held j);
              models = m;
              started = λ j. left-Started t (id == j) (l.held j) (l.started j);
              same = λ j.
                  direct-left max_id tick_mod t (id == j) (l.held j)
                  ∙ ap (λ o. if id == j then keep (is_due max_id tick_mod t) o else o) (l.same j)
                  ∙ sym (look-expire_id max_id tick_mod t id j es good);
            },
          ),
        )

    expire_bucket-Linked :
        (b : List ℕ) (tb : Table D) (es : List (DirectEntry D))
        → Good max_id tick_mod es
        → Linked room tb es
        → (got : Table D) × ((FlatHashWheel.expire_bucket t b tb ≡ some got)
            × Linked room got (DirectIndexWheel.expire_bucket max_id t b es))
    unfolding FlatHashWheel.expire_bucket DirectIndexWheel.expire_bucket expire_id
    expire_bucket-Linked [] tb es good l = (tb, (refl, l))
    expire_bucket-Linked (id ∷ b) tb es good l =
        let (next, (run, l')) = expire_id-Linked id tb es good l in
        let (got, (rest, l'')) =
          expire_bucket-Linked b next (expire_id max_id tick_mod t id es)
            (expire_id-Good max_id tick_mod t id es good) l' in
        (got, (rw (FlatHashWheel.expire_bucket, run) rest, l''))

  module _ (room max_id tick_mod : ℕ) where
    expire_ticks-step :
        (n t : ℕ) (wheel : List (List ℕ)) (tb next : Table D)
        → FlatHashWheel.expire_bucket t (get_or wheel (t % tick_mod) []) tb ≡ some next
        → FlatHashWheel.expire_ticks tick_mod (suc n) t (wheel, tb)
          ≡ FlatHashWheel.expire_ticks tick_mod n (add64 t 1) (set wheel (t % tick_mod) [], next)
    unfolding FlatHashWheel.expire_ticks FlatHashWheel.expire_tick
    expire_ticks-step n t wheel tb next h =
        rw (FlatHashWheel.expire_ticks, FlatHashWheel.expire_tick, h) refl

    -- The loop over the ticks.
    pub expire_ticks-Linked :
        (n t : ℕ) (wheel : List (List ℕ)) (tb : Table D) (es : List (DirectEntry D))
        → Good max_id tick_mod es
        → Linked room tb es
        → let s = DirectIndexWheel.expire_ticks max_id tick_mod n t (wheel, es) in
          (got : Table D) × ((FlatHashWheel.expire_ticks tick_mod n t (wheel, tb) ≡ some (s.0, got))
            × Linked room got s.1)
    unfolding FlatHashWheel.expire_ticks DirectIndexWheel.expire_ticks DirectIndexWheel.expire_tick
    expire_ticks-Linked zero t wheel tb es good l = (tb, (refl, l))
    expire_ticks-Linked (suc n) t wheel tb es good l =
        let b : List ℕ = get_or wheel (t % tick_mod) [] in
        let (next, (run, l')) = expire_bucket-Linked room max_id tick_mod t b tb es good l in
        let (got, (rest, l'')) =
          expire_ticks-Linked n (add64 t 1) (set wheel (t % tick_mod) []) next
            (DirectIndexWheel.expire_bucket max_id t b es)
            (expire_bucket-Good max_id tick_mod t b es good) l' in
        (got, (expire_ticks-step n t wheel tb next run ∙ rest, l''))
