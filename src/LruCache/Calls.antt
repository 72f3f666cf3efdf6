-- ===== src/LruCache/Calls.antt =====
-- Sequences of calls on a new `LRUCache`. `none` stands for undefined behaviour in one of them.
use learn_cpp.Prelude.{
  ℕ, ◌<◌, ◌≡◌, refl, ◌∙◌, ap, ap₂, subst, sym, Option, none, some, List, [], ◌∷◌,
}
use learn_cpp.LruCache.{LruCache, init, get, put}
use learn_cpp.LruCache.Links.{entries}
use learn_cpp.LruCache.Recency.{recall, record_use, Linked, get-recall, put-record_use, get-cap}

pub data Call (V : Type 0) : Type 0 where
  read : ℕ → Call V
  write : ℕ → V → Call V

module _ {V : Type 0} where
  -- What the calls of `get` in a sequence return.
  unfoldable pub answers : List (Call V) → LruCache V → Option (List (Option V))
  answers [] c = some []
  answers (read key ∷ calls) c =
      let (value, c') = get key c in
      elim (answers calls c') [ none ↦ none | some values ↦ some (value ∷ values) ]
  answers (write key v ∷ calls) c = elim (put key v c) [ none ↦ none | some c' ↦ answers calls c' ]

  -- The same on a list in the order of the last use.
  unfoldable pub expected : ℕ → List (Call V) → List (ℕ × V) → List (Option V)
  unfolding recall record_use
  expected cap [] es = []
  expected cap (read key ∷ calls) es =
      let (value, es') = recall key es in value ∷ expected cap calls es'
  expected cap (write key v ∷ calls) es = expected cap calls (record_use cap key v es)

  answers-Linked :
      (cap : ℕ) (calls : List (Call V)) (c : LruCache V) (es : List (ℕ × V))
      → 0 < cap
      → c.cap ≡ cap
      → entries c.list ≡ es
      → Linked c
      → answers calls c ≡ some (expected cap calls es)
  unfolding answers expected
  answers-Linked cap [] c es positive same view linked = refl
  answers-Linked cap (read key ∷ calls) c es positive same view linked =
      let step = get-recall key c linked in
      let rest =
        answers-Linked cap calls (get key c).1 _ positive (get-cap key c ∙ same)
          (step.1 ∙ ap (λ l. (recall key l).1) view) step.2 in
      ap {B = Option (List (Option V))}
        (λ o. elim o [ none ↦ none | some vs ↦ some ((get key c).0 ∷ vs) ]) rest
      ∙ ap (λ v. some (v ∷ expected cap calls (recall key es).1))
          (step.0 ∙ ap (λ l. (recall key l).0) view)
  answers-Linked cap (write key v ∷ calls) c es positive same view linked =
      let (c', (done, kept, seen, linked')) =
        put-record_use key v c linked (subst (λ n. 0 < n) (sym same) positive) in
      ap {B = Option (List (Option V))} (λ o. elim o [ none ↦ none | some d ↦ answers calls d ])
        done
      ∙ answers-Linked cap calls c' _ positive (kept ∙ same)
          (seen ∙ ap₂ (λ k l. record_use k key v l) same view) linked'

  init-Linked : (cap : ℕ) → Linked (init {V = V} cap)
  unfolding init
  init-Linked cap = record { distinct = tt; index = λ key. refl; fresh = λ a h. refl }

  -- In every sequence of calls on a new cache with a positive capacity, every call is defined, and
  -- `get` returns what a list of keys and values returns that moves a key to the front when it is used,
  -- and drops the last one for a new key when it is full.
  pub answers-expected :
      (cap : ℕ) (calls : List (Call V))
      → 0 < cap
      → answers calls (init cap) ≡ some (expected cap calls [])
  unfolding init
  answers-expected cap calls positive =
      answers-Linked cap calls (init cap) [] positive refl refl (init-Linked cap)
