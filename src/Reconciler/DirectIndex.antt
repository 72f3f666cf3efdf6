-- ===== src/Reconciler/DirectIndex.antt =====
-- The entries that the two direct-index classes of extras/citadel_interview/main.cpp keep in a vector,
-- one for each id up to `max_id`.
pub mod View
pub mod Receive
use learn_cpp.Prelude.{
  ℕ, ◌≡◌, Bool, true, false, not, ◌&&◌, Option, none, some, List, if◌then◌else◌, ltb, add64,
}
use learn_cpp.Reconciler.Common.{Execution, Feed, any_mismatch}

pub record DirectEntry (D : Type 0) : Type 0 where
  pub active : Bool
  pub alerted : Bool
  pub first_ts : ℕ
  pub expire_at : ℕ
  pub one : Option (Execution D)
  pub two : Option (Execution D)
  pub three : Option (Execution D)

module _ {D : Type 0} where
  -- `Entry{}`
  abbrev pub blank : DirectEntry D
  blank = record {
    active = false;
    alerted = false;
    first_ts = 0;
    expire_at = 0;
    one = none;
    two = none;
    three = none;
  }

  -- What `if (!ent.active)` does to the entry.
  unfoldable pub activate : ℕ → ℕ → DirectEntry D → DirectEntry D
  activate window_width ts ent =
      if ent.active
      then ent
      else record ent { active = true; first_ts = ts; expire_at = add64 ts window_width }

  unfoldable pub store : Feed → Execution D → DirectEntry D → DirectEntry D
  store Feed.one exec ent = record ent { one = some exec }
  store Feed.two exec ent = record ent { two = some exec }
  store Feed.three exec ent = record ent { three = some exec }

  -- The entry after an execution has come in, and whether it raises an alert.
  unfoldable pub receive :
      (D → D → Bool) → ℕ → Feed → Execution D → DirectEntry D → DirectEntry D × Bool
  unfolding activate store any_mismatch
  receive price_eq window_width f exec ent =
      let e = store f exec (activate window_width exec.ts ent) in
      if not e.alerted && any_mismatch price_eq e.one e.two e.three && ltb exec.ts e.expire_at
      then (record e { alerted = true }, true)
      else (e, false)
