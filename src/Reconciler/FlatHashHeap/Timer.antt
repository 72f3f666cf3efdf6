-- ===== src/Reconciler/FlatHashHeap/Timer.antt =====
-- `onTimer` of the open-addressing hash table with a heap, next to that of the hash map with a heap.
use learn_cpp.Prelude.{
  ℕ, ◌≡◌, refl, sym, ap, ◌∙◌, true, false, none, some, List, [], ◌∷◌, ◌==◌, ltb, get_or, inl, inr,
  Bool-cases, Option-cases,
}
use learn_cpp.Reconciler.ExpiryHeap.{Exp}
use learn_cpp.Reconciler.FlatHash.{Table, find_index, erase_at}
use learn_cpp.Reconciler.FlatHash.Models.{
  Models, Models_ext, slot-Models, erase_at-Models, entry_at,
}
use learn_cpp.Reconciler.FlatHashHeap
use learn_cpp.Reconciler.FlatHashHeap.{FlatHashHeap}
use learn_cpp.Reconciler.IdMap
use learn_cpp.Reconciler.IdMap.{IdMap, find, find-set, find-erase}
use learn_cpp.Reconciler.UnorderedHeap
use learn_cpp.Reconciler.UnorderedHeap.{HeapEntry, UnorderedHeap, fresh, entry_of, receive}

module _ {D : Type 0} (room : ℕ) where
  abbrev Holds : Table D → IdMap (HeapEntry D) → Type 0
  Holds tb m = Models room tb (λ j. find j m)

  drop_due-Holds :
      (x : Exp) (tb : Table D) (m : IdMap (HeapEntry D))
      → Holds tb m
      → (got : Table D) × ((FlatHashHeap.drop_due x tb ≡ some got)
          × Holds got (UnorderedHeap.drop_due x m))
  unfolding FlatHashHeap.drop_due UnorderedHeap.drop_due
  drop_due-Holds x tb m h =
      let (o, (f, e)) = h.agrees x.id in
      elim (Option-cases o) [
        | inl absent ↦
            let missing : find x.id m ≡ none = e ∙ ap (entry_at tb.entries) absent in
            let stop : find_index x.id tb ≡ some none = unfold find_index in f ∙ ap some absent in
            (tb, (rw (FlatHashHeap.drop_due, stop) refl, rw (UnorderedHeap.drop_due, missing) h))
        | inr (idx, present) ↦
            let there : find x.id m ≡ some (get_or tb.entries idx fresh) =
              e ∙ ap (entry_at tb.entries) present in
            let found : find_index x.id tb ≡ some (some idx) =
              unfold find_index in f ∙ ap some present in
            let (same_key, two, le) =
              slot-Models tb (λ j. find j m) x.id idx h (f ∙ ap some present) in
            let used : get_or tb.used idx false ≡ true = h.in_use idx le (rw same_key two) in
            elim (Bool-cases ((get_or tb.entries idx fresh).expire_at == x.expire_at)) [
              | inl due ↦ (
                erase_at idx tb,
                (
                  rw (FlatHashHeap.drop_due, found, used, due) refl,
                  rw (UnorderedHeap.drop_due, there, due)
                      (Models_ext (erase_at idx tb) _ (λ j. find j (IdMap.erase x.id m))
                        (λ j. sym (find-erase x.id j m))
                        (erase_at-Models tb (λ j. find j m) x.id idx (f ∙ ap some present) h)),
                ),
              )
              | inr stays ↦ (
                tb,
                (
                  rw (FlatHashHeap.drop_due, found, used, stays) refl,
                  rw (UnorderedHeap.drop_due, there, stays) h,
                ),
              )
            ]
      ]

  drain-Holds :
      (now : ℕ) (h : List Exp) (tb : Table D) (m : IdMap (HeapEntry D))
      → Holds tb m
      → let left = UnorderedHeap.drain now h m in
        (got : Table D) × ((FlatHashHeap.drain now h tb ≡ some (left.0, got)) × Holds got left.1)
  unfolding FlatHashHeap.drain UnorderedHeap.drain
  drain-Holds now [] tb m s = (tb, (refl, s))
  drain-Holds now (x ∷ h) tb m s = elim (Bool-cases (ltb now x.expire_at)) [
    | inl later ↦ rw later (tb, (refl, s))
    | inr due ↦
        let (next, (dropped, s')) = drop_due-Holds x tb m s in
        let (got, (run, kept)) = drain-Holds now h next (UnorderedHeap.drop_due x m) s' in
        rw due (got, (rw (dropped, run) refl, kept))
  ]

  pub record Same (h : FlatHashHeap D) (u : UnorderedHeap D) : Type 0 where
    pub window : h.window_width ≡ u.window_width
    pub timer : h.last_timer ≡ u.last_timer
    pub alerts : h.alerts ≡ u.alerts
    pub expiry : h.expiry ≡ u.expiry
    pub holds : Holds h.table u.by_id

  pub on_timer-Same :
      (now : ℕ) (h : FlatHashHeap D) (u : UnorderedHeap D)
      → Same h u
      → (r : FlatHashHeap D) × ((FlatHashHeap.on_timer now h ≡ some r)
          × Same r (UnorderedHeap.on_timer now u))
  unfolding FlatHashHeap.on_timer UnorderedHeap.on_timer
  on_timer-Same now h u s =
      let (got, (run, kept)) = drain-Holds now u.expiry h.table u.by_id s.holds in
      (
        record h {
          last_timer = now;
          expiry = (UnorderedHeap.drain now u.expiry u.by_id).0;
          table = got;
        },
        (
          rw (FlatHashHeap.on_timer, s.expiry, run) refl,
          record {
            window = s.window;
            timer = refl;
            alerts = s.alerts;
            expiry = refl;
            holds = kept;
          },
        ),
      )
