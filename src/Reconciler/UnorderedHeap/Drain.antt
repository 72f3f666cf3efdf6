-- ===== src/Reconciler/UnorderedHeap/Drain.antt =====
-- What the `onTimer` of the heap with a hash map leaves, when every entry has its expiry time there.
use learn_cpp.Prelude.{
  ℕ, ◌<◌, ◌≡◌, refl, Option, List, [], ◌∷◌, arith, inl, inr, Option-cases, ==→eq, Bool,
}
use learn_cpp.Reconciler.ExpiryHeap.{Exp, Due, IsSorted}
use learn_cpp.Reconciler.ExpiryHeap.Drain as Heap
use learn_cpp.Reconciler.IdMap.{IdMap, find, keep, find-erase}
use learn_cpp.Reconciler.UnorderedHeap.{HeapEntry, drop_due, drain}

module _ {D : Type 0} where
  abbrev pub time_of : HeapEntry D → ℕ
  time_of e = e.expire_at

  abbrev pub is_due : ℕ → HeapEntry D → Bool
  is_due = Heap.is_due time_of find drop_due

  abbrev pub Scheduled : List Exp → ℕ → Option (HeapEntry D) → Type 0
  Scheduled = Heap.Scheduled time_of find drop_due

  find-drop_due :
      (x : Exp) (j : ℕ) (m : IdMap (HeapEntry D))
      → find j (drop_due x m) ≡ Heap.dropped time_of find drop_due x j (find j m)
  unfolding drop_due
  find-drop_due x j m = elim (Option-cases (find x.id m)) [
    | inl absent ↦ rw (drop_due, absent) (ground (arith, absent, ==→eq x.id j))
    | inr (e, present) ↦
        rw (drop_due, present) (ground (arith, present, ==→eq x.id j, find-erase x.id j m))
  ]

  drain_eq :
      (now : ℕ) (h : List Exp) (m : IdMap (HeapEntry D))
      → drain now h m ≡ Heap.drain time_of find drop_due now h m
  unfolding drain Heap.drain
  drain_eq now [] m = refl
  drain_eq now (x ∷ h) m = rw (drain_eq now h (drop_due x m))

  pub drain-find :
      (now : ℕ) (h : List Exp) (j : ℕ) (m : IdMap (HeapEntry D))
      → IsSorted h
      → Scheduled h j (find j m)
      → find j (drain now h m).1 ≡ keep (is_due now) (find j m)
  drain-find now h j m s d = rw (drain_eq now h m) (
      Heap.look-drain time_of find drop_due (λ m'. Unit {0}) (λ x m' g. tt)
        (λ x i m' g. find-drop_due x i m') now h j m tt s d)

  pub drain-IsSorted :
      (now : ℕ) (h : List Exp) (m : IdMap (HeapEntry D)) → IsSorted h → IsSorted (drain now h m).0
  drain-IsSorted now h m s =
      rw (drain_eq now h m) (Heap.drain-IsSorted time_of find drop_due now h m s)

  pub drain-Due :
      (now t id : ℕ) (h : List Exp) (m : IdMap (HeapEntry D))
      → now < t
      → Due t id h
      → Due t id (drain now h m).0
  drain-Due now t id h m lt d =
      rw (drain_eq now h m) (Heap.drain-Due time_of find drop_due now t id h m lt d)
