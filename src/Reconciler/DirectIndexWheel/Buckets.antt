-- ===== src/Reconciler/DirectIndexWheel/Buckets.antt =====
-- What the buckets of the wheel do to the entries, when each entry stands in the bucket of its time.
use learn_cpp.Prelude.{
  ℕ, zero, suc, ◌+◌, ◌%◌, ◌≤◌, ◌<◌, ◌^◌, ◌≡◌, ◌≢◌, refl, sym, ap, ◌∙◌, subst, Bool, true, false,
  ◌&&◌, Option, none, some, List, [], ◌∷◌, ◌++◌, if◌then◌else◌, ◌==◌, leb, add64, length,
  length-set, get_or, get_or-set_ne, set, arith, inl, inr, Bool-cases, ==→eq, ==→ne,
}
use learn_cpp.Reconciler.DirectIndex.{DirectEntry, blank}
use learn_cpp.Reconciler.DirectIndex.View.{live, at, look, Clean, look-set, set-Clean, at_end}
use learn_cpp.Reconciler.DirectIndexWheel.{expire_bucket, expire_tick, expire_ticks}
use learn_cpp.Reconciler.IdMap.{keep}

abbrev pub has : ℕ → List ℕ → Bool
has id [] = false
has id (j ∷ b) = if j == id then true else has id b

pub has-snoc :
    (id j : ℕ) (b : List ℕ) → has id (b ++ (j ∷ [])) ≡ (if j == id then true else has id b)
has-snoc id j [] = refl
has-snoc id j (k ∷ b) = ground (arith, has-snoc id j b)

pub false_of : (b : Bool) → b ≡ true → b ≡ false → ⊥
false_of b t f = cc

-- Numbers less than a round apart have different slots.
pub mod-ne : (a b m : ℕ) → a < b → b < a + m → a % m ≢ b % m
mod-ne a b m lt near e = grind arith

module _ {D : Type 0} (max_id tick_mod : ℕ) where
  abbrev pub Good : List (DirectEntry D) → Type 0
  Good es = (length es ≡ suc max_id) × Clean es

  abbrev pub is_due : ℕ → DirectEntry D → Bool
  is_due t e = leb e.expire_at t

  keep-live :
      (t : ℕ) (e : DirectEntry D)
      → keep (is_due t) (live e) ≡ (if e.active && leb e.expire_at t then none else live e)
  keep-live t e = ground arith

  -- One id of a bucket.
  unfoldable pub expire_id : ℕ → ℕ → List (DirectEntry D) → List (DirectEntry D)
  expire_id t id es =
      let e = at id es in
      if leb id max_id && e.active && leb e.expire_at t then set es id blank else es

  pub expire_id-Good : (t id : ℕ) (es : List (DirectEntry D)) → Good es → Good (expire_id t id es)
  unfolding expire_id
  expire_id-Good t id es (size, c) =
      let e : DirectEntry D = at id es in
      elim (Bool-cases (leb id max_id && e.active && leb e.expire_at t)) [
        | inl due ↦
            let le : id < length es = ground (arith, size) in
            rw due (length-set es id blank ∙ size, set-Clean id blank es le (λ off. refl) c)
        | inr stays ↦ rw stays (size, c)
      ]

  expire_id_self :
      (t id : ℕ) (es : List (DirectEntry D))
      → Good es
      → look id (expire_id t id es) ≡ keep (is_due t) (look id es)
  unfolding expire_id
  expire_id_self t id es (size, c) =
      let e : DirectEntry D = at id es in
      let seen : keep (is_due t) (look id es)
          ≡ (if e.active && leb e.expire_at t then none else live e) =
        unfold look in keep-live t e in
      elim (Bool-cases (leb id max_id)) [
        | inr out ↦
            let none_there : look id es ≡ none =
              unfold look in ap live (at_end id es (ground (arith, size))) in
            rw (out, none_there) refl
        | inl within ↦
            let lt : id < length es = ground (arith, size) in
            let here : look id (set es id blank) ≡ none =
              look-set id id blank es lt ∙ ground arith in
            elim (Bool-cases (e.active && leb e.expire_at t)) [
              | inl due ↦
                  let gone : keep (is_due t) (look id es) ≡ none = seen ∙ rw due in
                  rw (within, due) (here ∙ sym gone)
              | inr stays ↦
                  let left : keep (is_due t) (look id es) ≡ look id es =
                    seen ∙ rw stays (unfold look in refl) in
                  rw (within, stays) (sym left)
            ]
      ]

  expire_id_ne :
      (t id j : ℕ) (es : List (DirectEntry D))
      → Good es
      → (id == j) ≡ false
      → look j (expire_id t id es) ≡ look j es
  unfolding expire_id
  expire_id_ne t id j es (size, c) other =
      let e : DirectEntry D = at id es in
      elim (Bool-cases (leb id max_id && e.active && leb e.expire_at t)) [
        | inl due ↦ rw due (look-set id j blank es (ground (arith, size)) ∙ rw other)
        | inr stays ↦ rw stays refl
      ]

  pub look-expire_id :
      (t id j : ℕ) (es : List (DirectEntry D))
      → Good es
      → look j (expire_id t id es) ≡ (if id == j then keep (is_due t) (look j es) else look j es)
  look-expire_id t id j es g = elim (Bool-cases (id == j)) [
    | inl same ↦ rw same (
        subst (λ k. look k (expire_id t id es) ≡ keep (is_due t) (look k es)) (==→eq id j same)
          (expire_id_self t id es g))
    | inr other ↦ rw other (expire_id_ne t id j es g other)
  ]

  keep_twice :
      (s t : ℕ) (o : Option (DirectEntry D))
      → s ≤ t
      → keep (is_due t) (keep (is_due s) o) ≡ keep (is_due t) o
  keep_twice s t none le = refl
  keep_twice s t (some e) le = ground arith

  bucket_step :
      (more this : Bool) (t : ℕ) (o o' : Option (DirectEntry D))
      → o' ≡ (if this then keep (is_due t) o else o)
      → (if more then keep (is_due t) o' else o')
        ≡ (if (if this then true else more) then keep (is_due t) o else o)
  bucket_step true true t o o' e = rw e (keep_twice t t o (omega arith))
  bucket_step true false t o o' e = rw e refl
  bucket_step false true t o o' e = e
  bucket_step false false t o o' e = e

  pub expire_bucket-Good :
      (t : ℕ) (b : List ℕ) (es : List (DirectEntry D))
      → Good es
      → Good (expire_bucket max_id t b es)
  unfolding expire_bucket expire_id
  expire_bucket-Good t [] es g = g
  expire_bucket-Good t (id ∷ b) es g =
      expire_bucket-Good t b (expire_id t id es) (expire_id-Good t id es g)

  look-expire_bucket :
      (t j : ℕ) (b : List ℕ) (es : List (DirectEntry D))
      → Good es
      → look j (expire_bucket max_id t b es)
        ≡ (if has j b then keep (is_due t) (look j es) else look j es)
  unfolding expire_bucket expire_id
  look-expire_bucket t j [] es g = refl
  look-expire_bucket t j (id ∷ b) es g =
      let es' : List (DirectEntry D) = expire_id t id es in
      look-expire_bucket t j b es' (expire_id-Good t id es g)
      ∙ bucket_step (has j b) (id == j) t (look j es) (look j es') (look-expire_id t id j es g)

  -- Each entry stands in the bucket of its time, which comes within one round of the wheel.
  abbrev pub InWindow : ℕ → ℕ → List (List ℕ) → Option (DirectEntry D) → Type 0
  InWindow p id wheel none = Unit
  InWindow p id wheel (some e) =
      (p < e.expire_at)
      × (e.expire_at ≤ p + tick_mod)
      × (has id (get_or wheel (e.expire_at % tick_mod) []) ≡ true)

  pub record Placed (p : ℕ) (wheel : List (List ℕ)) (es : List (DirectEntry D)) : Type 0 where
    pub sized : length wheel ≡ tick_mod
    pub good : Good es
    pub window : (id : ℕ) → InWindow p id wheel (look id es)

  -- A bucket drops what is due: no entry of another bucket is.
  in_bucket :
      (p id : ℕ) (wheel : List (List ℕ)) (o : Option (DirectEntry D))
      → InWindow p id wheel o
      → (if has id (get_or wheel (suc p % tick_mod) []) then keep (is_due (suc p)) o else o)
        ≡ keep (is_due (suc p)) o
  in_bucket p id wheel none i = ground arith
  in_bucket p id wheel (some e) i =
      elim (Bool-cases (has id (get_or wheel (suc p % tick_mod) []))) [
        | inl there ↦ rw there refl
        | inr away ↦
            let later : leb e.expire_at (suc p) ≡ false = elim (Bool-cases (e.expire_at == suc p)) [
              | inl now ↦ absurd (
                  false_of (has id (get_or wheel (e.expire_at % tick_mod) [])) i.2 (
                    ap (λ (t : ℕ). has id (get_or wheel (t % tick_mod) []))
                      (==→eq e.expire_at (suc p) now)
                    ∙ away))
              | inr ne ↦ ground (arith, ==→ne e.expire_at (suc p) ne)
            ] in
            rw (away, later) refl
      ]

  keep-InWindow :
      (p id : ℕ) (wheel : List (List ℕ)) (o : Option (DirectEntry D))
      → InWindow p id wheel o
      → InWindow (suc p) id (set wheel (suc p % tick_mod) []) (keep (is_due (suc p)) o)
  keep-InWindow p id wheel none i = tt
  keep-InWindow p id wheel (some e) i = elim (Bool-cases (leb e.expire_at (suc p))) [
    | inl due ↦ rw due tt
    | inr later ↦
        let lt : suc p < e.expire_at = ground arith in
        rw later (
          lt,
          omega (arith, i.1),
          ap (has id) (
                get_or-set_ne wheel (suc p % tick_mod) (e.expire_at % tick_mod) [] []
                  (mod-ne (suc p) e.expire_at tick_mod lt (omega (arith, i.1))))
              ∙ i.2,
        )
  ]

  look-expire_tick :
      (p j : ℕ) (wheel : List (List ℕ)) (es : List (DirectEntry D))
      → Placed p wheel es
      → look j (expire_tick max_id tick_mod (suc p) (wheel, es)).1
        ≡ keep (is_due (suc p)) (look j es)
  unfolding expire_tick
  look-expire_tick p j wheel es a =
      look-expire_bucket (suc p) j (get_or wheel (suc p % tick_mod) []) es a.good
      ∙ in_bucket p j wheel (look j es) (a.window j)

  expire_tick-Placed :
      (p : ℕ) (wheel : List (List ℕ)) (es : List (DirectEntry D))
      → Placed p wheel es
      → let s = expire_tick max_id tick_mod (suc p) (wheel, es) in Placed (suc p) s.0 s.1
  unfolding expire_tick
  expire_tick-Placed p wheel es a = record {
    sized = length-set wheel (suc p % tick_mod) [] ∙ a.sized;
    good = expire_bucket-Good (suc p) (get_or wheel (suc p % tick_mod) []) es a.good;
    window = λ id.
        rw (look-expire_tick p id wheel es a) (keep-InWindow p id wheel (look id es) (a.window id));
  }

  not_due :
      (p q id : ℕ) (wheel : List (List ℕ)) (o : Option (DirectEntry D))
      → q ≡ p
      → InWindow p id wheel o
      → o ≡ keep (is_due q) o
  not_due p q id wheel none e i = refl
  not_due p q id wheel (some x) e i =
      let later : leb x.expire_at q ≡ false = ground (arith, i.0) in rw later refl

  -- The loop over the ticks drops what is due by the last of them.
  pub expire_ticks_lem :
      (n p q : ℕ) (wheel : List (List ℕ)) (es : List (DirectEntry D))
      → q ≡ p + n
      → q + 1 < 2 ^ 64
      → Placed p wheel es
      → let s = expire_ticks max_id tick_mod n (suc p) (wheel, es) in
        Placed q s.0 s.1 × ((j : ℕ) → look j s.1 ≡ keep (is_due q) (look j es))
  unfolding expire_ticks
  expire_ticks_lem zero p q wheel es e small a =
      let same : q ≡ p = omega arith in
      (
        subst (λ r. Placed r wheel es) (sym same) a,
        λ j. not_due p q j wheel (look j es) same (a.window j),
      )
  expire_ticks_lem (suc n) p q wheel es e small a =
      let s = expire_tick max_id tick_mod (suc p) (wheel, es) in
      let next : add64 (suc p) 1 ≡ suc (suc p) = omega arith in
      let ih =
        expire_ticks_lem n (suc p) q s.0 s.1 (omega arith) small
          (expire_tick-Placed p wheel es a) in
      rw (expire_ticks, next)
        (
          ih.0,
          λ j.
              ih.1 j
              ∙ ap (keep (is_due q)) (look-expire_tick p j wheel es a)
              ∙ keep_twice (suc p) q (look j es) (omega arith),
        )
