-- ===== src/Reconciler/Interface.antt =====
-- What `runBench` of extras/citadel_interview/main.cpp uses of a reconciler class, and when two
-- classes cannot be told apart through it.
use learn_cpp.Prelude.{ℕ, ◌≡◌}
use learn_cpp.Reconciler.Common.{Execution, Feed}

pub record Reconciler (D S : Type 0) : Type 0 where
  pub on_feed : Feed → Execution D → S → S
  pub on_timer : ℕ → S → S
  pub alerts : S → ℕ

-- A relation between the states of two classes that every call keeps, for the executions that they
-- may be given, and that fixes the alerts.
pub record Agreement {D S T : Type 0} (a : Reconciler D S) (b : Reconciler D T) : Type 1 where
  pub Related : S → T → Type 0
  pub Allowed : Execution D → Type 0
  pub feed :
      (f : Feed) (exec : Execution D) (s : S) (t : T)
      → Allowed exec
      → Related s t
      → Related (a.on_feed f exec s) (b.on_feed f exec t)
  pub timer :
      (now : ℕ) (s : S) (t : T) → Related s t → Related (a.on_timer now s) (b.on_timer now t)
  pub same_alerts : (s : S) (t : T) → Related s t → a.alerts s ≡ b.alerts t
