-- ===== src/Reconciler/Calls.antt =====
-- Sequences of calls on a reconciler class, `onFeedOne`, `onFeedTwo`, `onFeedThree` and `onTimer` of
-- extras/citadel_interview/main.cpp in any order.
use learn_cpp.Prelude.{ℕ, suc, ◌≤◌, ◌≡◌, refl, Option, none, some, List, [], ◌∷◌}
use learn_cpp.Reconciler.Common.{Execution, Feed}
use learn_cpp.Reconciler.Interface.{Reconciler, Agreement}

pub data Call (D : Type 0) : Type 0 where
  feed : Feed → Execution D → Call D
  timer : ℕ → Call D

module _ {D S : Type 0} (r : Reconciler D S) where
  unfoldable pub call : Call D → S → S
  call (feed f exec) s = r.on_feed f exec s
  call (timer now) s = r.on_timer now s

  unfoldable pub calls : List (Call D) → S → S
  unfolding call
  calls [] s = s
  calls (c ∷ cs) s = calls cs (call c s)

-- Related classes raise the same alerts in every sequence of calls, where no execution is excluded.
module _ {D S T : Type 0} {a : Reconciler D S} {b : Reconciler D T} (g : Agreement a b)
    (all : (exec : Execution D) → g.Allowed exec) where
  calls-Related :
      (cs : List (Call D)) (s : S) (t : T) → g.Related s t → g.Related (calls a cs s) (calls b cs t)
  unfolding calls
  calls-Related [] s t r = r
  calls-Related (feed f exec ∷ cs) s t r = calls-Related cs _ _ (g.feed f exec s t (all exec) r)
  calls-Related (timer now ∷ cs) s t r = calls-Related cs _ _ (g.timer now s t r)

  pub calls-Agreement :
      (cs : List (Call D)) (s : S) (t : T)
      → g.Related s t
      → a.alerts (calls a cs s) ≡ b.alerts (calls b cs t)
  calls-Agreement cs s t r = g.same_alerts _ _ (calls-Related cs s t r)

-- Sequences of calls on a class whose operations may not return (`none`).
module _ {D S : Type 0} (on_feed : Feed → Execution D → S → Option S)
    (on_timer : ℕ → S → Option S) where
  unfoldable pub try_call : Call D → S → Option S
  try_call (feed f exec) s = on_feed f exec s
  try_call (timer now) s = on_timer now s

  unfoldable pub try_calls : List (Call D) → S → Option S
  unfolding try_call
  try_calls [] s = some s
  try_calls (c ∷ cs) s = elim (try_call c s) [ none ↦ none | some s' ↦ try_calls cs s' ]

  pub try_calls-cons :
      (c : Call D) (cs : List (Call D)) (s s' : S)
      → try_call c s ≡ some s'
      → try_calls (c ∷ cs) s ≡ try_calls cs s'
  unfolding try_calls
  try_calls-cons c cs s s' h = rw (try_calls, h) refl

-- How many of the calls bring an execution.
module _ {D : Type 0} where
  abbrev pub feeds : List (Call D) → ℕ
  feeds [] = 0
  feeds (feed f exec ∷ cs) = suc (feeds cs)
  feeds (timer now ∷ cs) = feeds cs

  -- No id is one of the two keys that the hash tables keep for themselves, 0 and 1.
  abbrev pub ProperIds : List (Call D) → Type 0
  ProperIds [] = Unit
  ProperIds (feed f exec ∷ cs) = (2 ≤ exec.id) × ProperIds cs
  ProperIds (timer now ∷ cs) = ProperIds cs
