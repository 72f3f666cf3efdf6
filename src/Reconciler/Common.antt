-- ===== src/Reconciler/Common.antt =====
-- Executions, feeds and the mismatch tests that the reconciler classes share.
use learn_cpp.Prelude.{ℕ, Bool, false, not, ◌&&◌, ◌||◌, Option, none, some, ◌==◌}

-- `D` is the type `double`.
pub record Execution (D : Type 0) : Type 0 where
  pub id : ℕ
  pub price : D
  pub size : ℕ
  pub ts : ℕ

pub data Feed : Type 0 where
  one two three : Feed

-- What an id keeps inside its window, in the classes that scan.
pub record Entry (D : Type 0) : Type 0 where
  pub first_ts : ℕ
  pub last_ts : ℕ
  pub one : Option (Execution D)
  pub two : Option (Execution D)
  pub three : Option (Execution D)
  pub alerted : Bool

module _ {D : Type 0} where
  -- `Entry{}`
  abbrev pub fresh : Entry D
  fresh = record {
    first_ts = 0;
    last_ts = 0;
    one = none;
    two = none;
    three = none;
    alerted = false;
  }

  -- The `switch` on the feed.
  unfoldable pub store : Feed → Execution D → Entry D → Entry D
  store Feed.one exec ent = record ent { one = some exec }
  store Feed.two exec ent = record ent { two = some exec }
  store Feed.three exec ent = record ent { three = some exec }

  -- `==` on `double` is a parameter: it is no equality at NaN.
  module _ (price_eq : D → D → Bool) where
    unfoldable pub eq_exec : Execution D → Execution D → Bool
    eq_exec x y = x.id == y.id && x.size == y.size && price_eq x.price y.price

    unfoldable pub mismatch : Option (Execution D) → Option (Execution D) → Bool
    unfolding eq_exec
    mismatch (some a) (some b) = not (eq_exec a b)
    mismatch _ _ = false

    unfoldable pub any_mismatch :
        Option (Execution D) → Option (Execution D) → Option (Execution D) → Bool
    unfolding mismatch
    any_mismatch a b c = mismatch a b || mismatch a c || mismatch b c
