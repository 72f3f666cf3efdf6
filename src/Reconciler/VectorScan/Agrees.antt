-- ===== src/Reconciler/VectorScan/Agrees.antt =====
-- The sorted vector and the hash map hold the same entries after every call.
use learn_cpp.Prelude.{
  ℕ, ◌≡◌, refl, sym, ap, ◌∙◌, Bool, true, false, some, if◌then◌else◌, ◌==◌, leb, add64, get_elem?,
  arith, Bool-cases, inl, inr,
}
use learn_cpp.Reconciler.Common.{Execution, Feed, Entry}
use learn_cpp.Reconciler.IdMap
use learn_cpp.Reconciler.IdMap.{
  Unique, find, keep, find-set, set-Unique, find-erase_if, erase_if-Unique,
}
use learn_cpp.Reconciler.Interface.{Reconciler, Agreement}
use learn_cpp.Reconciler.UnorderedScan
use learn_cpp.Reconciler.UnorderedScan.{UnorderedScan, entry_of}
use learn_cpp.Reconciler.VectorScan
use learn_cpp.Reconciler.VectorScan.{VectorScan, get_or_create, write_entry, entry_at}
use learn_cpp.Reconciler.VectorScan.Items.{
  pairs, IsSorted, pairs-Unique, write_entry-upsert, entry_at-find, find-upsert, upsert-IsSorted,
  pairs-remove_if, remove_if-IsSorted,
}

module _ {D : Type 0} where
  pub record Same (v : VectorScan D) (u : UnorderedScan D) : Type 0 where
    pub window : v.window_width ≡ u.window_width
    pub timer : v.last_timer ≡ u.last_timer
    pub alerts : v.alerts ≡ u.alerts
    pub sorted : IsSorted v.by_id
    pub unique : Unique u.by_id
    pub entries : (id : ℕ) → find id (pairs v.by_id) ≡ find id u.by_id

  pub init-Same : (w : ℕ) → Same (VectorScan.init w) (UnorderedScan.init w)
  unfolding VectorScan.init UnorderedScan.init
  init-Same w = record {
    window = refl;
    timer = refl;
    alerts = refl;
    sorted = tt;
    unique = tt;
    entries = λ id. refl;
  }

  pub on_timer-Same :
      (now : ℕ) (v : VectorScan D) (u : UnorderedScan D)
      → Same v u
      → Same (VectorScan.on_timer now v) (UnorderedScan.on_timer now u)
  unfolding VectorScan.on_timer UnorderedScan.on_timer
  on_timer-Same now v u s =
      let gone : Entry D → Bool = λ e. leb (add64 e.first_ts v.window_width) now in
      record {
        window = s.window;
        timer = refl;
        alerts = s.alerts;
        sorted = remove_if-IsSorted gone v.by_id s.sorted;
        unique = erase_if-Unique _ u.by_id s.unique;
        entries = λ id.
            ap (find id) (pairs-remove_if gone v.by_id)
            ∙ find-erase_if gone id (pairs v.by_id) (pairs-Unique v.by_id s.sorted)
            ∙ ap (keep gone) (s.entries id)
            ∙ sym (find-erase_if gone id u.by_id s.unique)
            ∙ ap
                (λ (w : ℕ).
                  find id (IdMap.erase_if (λ (e : Entry D). leb (add64 e.first_ts w) now) u.by_id))
                s.window;
      }

  module _ (price_eq : D → D → Bool) where
    receive-Same :
        (w : ℕ) (f : Feed) (exec : Execution D) (ent : Entry D)
        → VectorScan.receive price_eq w f exec ent ≡ UnorderedScan.receive price_eq w f exec ent
    unfolding VectorScan.receive UnorderedScan.receive
    receive-Same w f exec ent =
        let touched : VectorScan.touch exec.ts ent ≡ UnorderedScan.touch exec.ts ent =
          ground arith in
        rw touched

    received :
        (f : Feed) (exec : Execution D) (v : VectorScan D) (u : UnorderedScan D)
        → Same v u
        → let (at, items) = get_or_create exec.id v.by_id in
          VectorScan.receive price_eq v.window_width f exec (entry_at (get_elem? items at))
          ≡ UnorderedScan.receive price_eq u.window_width f exec (entry_of (find exec.id u.by_id))
    received f exec v u s =
        receive-Same v.window_width f exec _
        ∙ ap (UnorderedScan.receive price_eq v.window_width f exec)
            (entry_at-find exec.id v.by_id s.sorted ∙ ap entry_of (s.entries exec.id))
        ∙ ap (λ w. UnorderedScan.receive price_eq w f exec (entry_of (find exec.id u.by_id)))
            s.window

    pub on_feed-Same :
        (f : Feed) (exec : Execution D) (v : VectorScan D) (u : UnorderedScan D)
        → Same v u
        → Same (VectorScan.on_feed price_eq f exec v) (UnorderedScan.on_feed price_eq f exec u)
    unfolding VectorScan.on_feed UnorderedScan.on_feed
    on_feed-Same f exec v u s =
        elim (Bool-cases (leb (add64 exec.ts v.window_width) v.last_timer)) [
          | inl late ↦
              let late' : leb (add64 exec.ts u.window_width) u.last_timer ≡ true =
                ground (arith, s.window, s.timer) in
              rw (late, late') s
          | inr early ↦
              let early' : leb (add64 exec.ts u.window_width) u.last_timer ≡ false =
                ground (arith, s.window, s.timer) in
              let e : Entry D × Bool =
                UnorderedScan.receive price_eq u.window_width f exec
                  (entry_of (find exec.id u.by_id)) in
              rw (early, early', received f exec v u s, write_entry-upsert exec.id e.0 v.by_id)
                (record {
                  window = s.window;
                  timer = s.timer;
                  alerts = ap (λ n. if e.1 then add64 n 1 else n) s.alerts;
                  sorted = upsert-IsSorted exec.id e.0 v.by_id s.sorted;
                  unique = set-Unique exec.id e.0 u.by_id s.unique;
                  entries = λ id.
                      find-upsert exec.id id e.0 v.by_id
                      ∙ ap (λ o. if exec.id == id then some e.0 else o) (s.entries id)
                      ∙ sym (find-set exec.id id e.0 u.by_id);
                })
        ]

    abbrev pub vector_scan : Reconciler D (VectorScan D)
    vector_scan = record {
      on_feed = VectorScan.on_feed price_eq;
      on_timer = VectorScan.on_timer;
      alerts = λ r. r.alerts;
    }

    abbrev pub unordered_scan : Reconciler D (UnorderedScan D)
    unordered_scan = record {
      on_feed = UnorderedScan.on_feed price_eq;
      on_timer = UnorderedScan.on_timer;
      alerts = λ r. r.alerts;
    }

    abbrev pub vector_scan-Agreement : Agreement vector_scan unordered_scan
    vector_scan-Agreement = record {
      Related = Same;
      Allowed = λ exec. Unit;
      feed = λ f exec v u a s. on_feed-Same f exec v u s;
      timer = on_timer-Same;
      same_alerts = λ v u s. s.alerts;
    }
