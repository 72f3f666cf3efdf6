-- ===== src/Reconciler/DirectIndexWheel/Schedule.antt =====
-- What `scheduleExpiry` does to the wheel, and an entry that is written to the entries in it.
use native.Mathlib.Nat.{mod-lt}
use learn_cpp.Prelude.{
  ℕ, ◌+◌, ◌%◌, ◌≤◌, ◌<◌, ◌≡◌, refl, sym, ap, ◌∙◌, subst, true, false, Option, none, some, List, [],
  ◌∷◌, ◌++◌, if◌then◌else◌, ◌==◌, length, length-set, get_or, get_or-set_ne, get_or-set_self,
  ==_refl, set, arith, inl, inr, Bool-cases, ==→eq, ==→ne,
}
use learn_cpp.Reconciler.DirectIndex.{DirectEntry}
use learn_cpp.Reconciler.DirectIndex.View.{live, at, look, look-set, set-Clean}
use learn_cpp.Reconciler.DirectIndex.Receive.{live-some}
use learn_cpp.Reconciler.DirectIndexWheel.{schedule_expiry}
use learn_cpp.Reconciler.DirectIndexWheel.Buckets.{has, has-snoc, false_of, Good, InWindow, Placed}

-- A bucket that gets an id keeps the ids that it has.
has-schedule_expiry :
    (tick_mod id j t a : ℕ) (wheel : List (List ℕ))
    → length wheel ≡ tick_mod
    → 0 < tick_mod
    → has j (get_or wheel (a % tick_mod) []) ≡ true
    → has j (get_or (schedule_expiry tick_mod id t wheel) (a % tick_mod) []) ≡ true
unfolding schedule_expiry
has-schedule_expiry tick_mod id j t a wheel size pos h =
    let slot : ℕ = t % tick_mod in
    let b : List ℕ = get_or wheel slot [] in
    elim (Bool-cases (slot == a % tick_mod)) [
      | inl same ↦
          let e : slot ≡ a % tick_mod = ==→eq slot (a % tick_mod) same in
          let h' : has j b ≡ true = subst (λ k. has j (get_or wheel k []) ≡ true) (sym e) h in
          subst (λ k. has j (get_or (set wheel slot (b ++ (id ∷ []))) k []) ≡ true) e
            (ap (has j) (get_or-set_self wheel slot (b ++ (id ∷ [])) [] (rw size (mod-lt t pos)))
              ∙ has-snoc j id b
              ∙ ground (arith, h'))
      | inr other ↦
          ap (has j) (
            get_or-set_ne wheel slot (a % tick_mod) (b ++ (id ∷ [])) []
              (==→ne slot (a % tick_mod) other))
          ∙ h
    ]

has-scheduled :
    (tick_mod id t : ℕ) (wheel : List (List ℕ))
    → length wheel ≡ tick_mod
    → 0 < tick_mod
    → has id (get_or (schedule_expiry tick_mod id t wheel) (t % tick_mod) []) ≡ true
unfolding schedule_expiry
has-scheduled tick_mod id t wheel size pos =
    let slot : ℕ = t % tick_mod in
    let b : List ℕ = get_or wheel slot [] in
    ap (has id) (get_or-set_self wheel slot (b ++ (id ∷ [])) [] (rw size (mod-lt t pos)))
    ∙ has-snoc id id b
    ∙ rw (==_refl id) refl

module _ {D : Type 0} (max_id tick_mod : ℕ) where
  abbrev Standing : ℕ → ℕ → List (List ℕ) → Option (DirectEntry D) → Type 0
  Standing = InWindow max_id tick_mod

  InWindow-schedule :
      (p id j t : ℕ) (wheel : List (List ℕ)) (o : Option (DirectEntry D))
      → length wheel ≡ tick_mod
      → 0 < tick_mod
      → Standing p j wheel o
      → Standing p j (schedule_expiry tick_mod id t wheel) o
  InWindow-schedule p id j t wheel none size pos i = tt
  InWindow-schedule p id j t wheel (some e) size pos i =
      (i.0, i.1, has-schedule_expiry tick_mod id j t e.expire_at wheel size pos i.2)

  InWindow_time :
      (p id : ℕ) (wheel : List (List ℕ)) (a b : DirectEntry D)
      → a.expire_at ≡ b.expire_at
      → Standing p id wheel (some b)
      → Standing p id wheel (some a)
  InWindow_time p id wheel a b e i = rw e i

  written :
      (p id j : ℕ) (e : DirectEntry D) (wheel : List (List ℕ)) (o : Option (DirectEntry D))
      → e.active ≡ true
      → Standing p id wheel (some e)
      → Standing p j wheel o
      → Standing p j wheel (if id == j then live e else o)
  written p id j e wheel o on mine i = elim (Bool-cases (id == j)) [
    | inl same ↦ rw (same, on) (subst (λ k. Standing p k wheel (some e)) (==→eq id j same) mine)
    | inr other ↦ rw other i
  ]

  -- The entries after one has been written, and scheduled if it was not active.
  pub write-Placed :
      (p id : ℕ) (e : DirectEntry D) (wheel : List (List ℕ)) (es : List (DirectEntry D))
      → 0 < tick_mod
      → id ≤ max_id
      → e.active ≡ true
      → ((at id es).active ≡ true → e.expire_at ≡ (at id es).expire_at)
      → ((at id es).active ≡ false → (p < e.expire_at) × (e.expire_at ≤ p + tick_mod))
      → Placed max_id tick_mod p wheel es
      → Placed max_id tick_mod p
          (if (at id es).active then wheel else schedule_expiry tick_mod id e.expire_at wheel)
          (set es id e)
  write-Placed p id e wheel es pos le on old new a =
      let lt : id < length es = omega (arith, a.good.0) in
      let good : Good max_id tick_mod (set es id e) = (
        length-set es id e ∙ a.good.0,
        set-Clean id e es lt (λ off. absurd (false_of e.active on off)) a.good.1,
      ) in
      elim (Bool-cases (at id es).active) [
        | inl known ↦
            let seen : look id es ≡ some (at id es) = unfold look in live-some (at id es) known in
            let mine : Standing p id wheel (some e) =
              InWindow_time p id wheel e (at id es) (old known)
                (subst (Standing p id wheel) seen (a.window id)) in
            rw known (record {
              sized = a.sized;
              good = good;
              window = λ j.
                  rw (look-set id j e es lt)
                    (written p id j e wheel (look j es) on mine (a.window j));
            })
        | inr fresh ↦
            let w : List (List ℕ) = schedule_expiry tick_mod id e.expire_at wheel in
            let mine : Standing p id w (some e) = (
              (new fresh).0,
              (new fresh).1,
              has-scheduled tick_mod id e.expire_at wheel a.sized pos,
            ) in
            rw fresh (record {
              sized = unfold schedule_expiry in length-set wheel _ _ ∙ a.sized;
              good = good;
              window = λ j. rw (look-set id j e es lt) (
                  written p id j e w (look j es) on mine (
                    InWindow-schedule p id j e.expire_at wheel (look j es) a.sized pos
                      (a.window j)));
            })
      ]
