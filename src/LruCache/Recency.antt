-- ===== src/LruCache/Recency.antt =====
-- `LRUCache` and a list of keys and values in the order of their last use.
use learn_cpp.Prelude.{
  ℕ, suc, ◌+◌, ◌≤◌, ◌<◌, ◌≡◌, ◌≢◌, refl, sym, ◌∙◌, ap, ap₂, subst, inl, inr, Bool-cases,
  Option-cases, ==→eq, ==→ne, true, false, Option, none, some, List, [], ◌∷◌, if◌then◌else◌, ◌==◌,
  leb, length, arith,
}
use learn_cpp.LruCache.{
  Node, LruCache, find, erase, node_at, unlink, splice, assign, back, drop_last, get, make_room,
  put,
}
use learn_cpp.LruCache.Links.{
  entries, lookup, without, address_of, address_of-none, Distinct, Located, locate, Trimmed, trim,
  find-erase,
}

module _ {V : Type 0} where
  -- What `get` answers on such a list, and the list after it.
  unfoldable pub recall : ℕ → List (ℕ × V) → Option V × List (ℕ × V)
  recall key es = elim (lookup key es) [
    | none ↦ (none, es)
    | some v ↦ (some v, (key, v) ∷ without key es)
  ]

  -- The list after `put`.
  unfoldable pub record_use : ℕ → ℕ → V → List (ℕ × V) → List (ℕ × V)
  record_use cap key value es = elim (lookup key es) [
    | some v ↦ (key, value) ∷ without key es
    | none ↦ (key, value) ∷ (if leb cap (length es) then drop_last es else es)
  ]

  -- The map holds the address of each key's node, and no node has the next address.
  pub record Linked (c : LruCache V) : Type 0 where
    pub distinct : Distinct c.list
    pub index : (key : ℕ) → find key c.index ≡ address_of key c.list
    pub fresh : (a : ℕ) → c.fresh ≤ a → node_at a c.list ≡ none

  -- The node of a key, perhaps with another value, in front of the others.
  front-Linked :
      (key it : ℕ) (c : LruCache V) (n : Node V) (v : V)
      → address_of key c.list ≡ some it
      → Located key it c.list n
      → Linked c
      → Linked (record c { list = record n { value = v } ∷ unlink it c.list })
  front-Linked key it c n v e l linked = record {
    distinct = (
      subst (λ a. node_at a (unlink it c.list) ≡ none) (sym l.same_address) l.gone_address,
      subst (λ k. address_of k (unlink it c.list) ≡ none) (sym l.same_key) l.gone_key,
      l.distinct,
    );
    index = λ k. elim (Bool-cases (n.key == k)) [
      | inl t ↦
          let same : k ≡ key = sym (==→eq n.key k t) ∙ l.same_key in
          rw t
            (linked.index k ∙ ap (λ j. address_of j c.list) same ∙ e ∙ ap some (sym l.same_address))
      | inr f ↦
          let other : k ≢ key = λ same. ==→ne n.key k f (l.same_key ∙ sym same) in
          rw f (linked.index k ∙ sym (l.other_keys k other))
    ];
    fresh = λ a h. elim (Bool-cases (n.address == a)) [
      | inl t ↦
          let here : it ≡ a = sym l.same_address ∙ ==→eq n.address a t in
          let clash : none ≡ some n =
            sym (linked.fresh a h) ∙ ap (λ b. node_at b c.list) (sym here) ∙ l.here in
          ground (arith, clash)
      | inr f ↦ rw f (l.other_addresses a (linked.fresh a h))
    ];
  }

  splice-Located :
      (key it : ℕ) (ns : List (Node V)) (n : Node V)
      → Located key it ns n
      → splice it ns ≡ n ∷ unlink it ns
  unfolding splice
  splice-Located key it ns n l = rw (l.here, splice) refl

  splice-assign :
      (key it : ℕ) (ns : List (Node V)) (n : Node V) (v : V)
      → Located key it ns n
      → splice it (assign it v ns) ≡ record n { value = v } ∷ unlink it ns
  unfolding splice
  splice-assign key it ns n v l = rw (l.assigned v, l.kept v, splice) refl

  -- `get` answers and moves like `recall`.
  pub get-recall :
      (key : ℕ) (c : LruCache V)
      → Linked c
      → ((get key c).0 ≡ (recall key (entries c.list)).0)
        × (entries (get key c).1.list ≡ (recall key (entries c.list)).1)
        × Linked (get key c).1
  unfolding get recall
  get-recall key c linked = elim (Option-cases (address_of key c.list)) [
    | inl e ↦
        let missing = linked.index key ∙ e in
        let absent = address_of-none key c.list e in
        rw (missing, absent, get, recall) (refl, refl, linked)
    | inr (it, e) ↦
        let found = linked.index key ∙ e in
        let (n, l) = locate key it c.list e linked.distinct in
        let here : (n.address == it) ≡ true = let same = l.same_address in ground arith in
        let value = l.value in
        let moved = splice-Located key it c.list n l in
        rw (found, moved, value, get, recall)
          (
            rw here refl,
            ap₂ (λ k es. (k, n.value) ∷ es) l.same_key l.others,
            front-Linked key it c n n.value e l linked,
          )
  ]

  -- A new node in front, for a key that is not there.
  fresh-Linked :
      (key : ℕ) (v : V) (c : LruCache V)
      → Linked c
      → address_of key c.list ≡ none
      → Linked (record c {
        list = record { address = c.fresh; key = key; value = v } ∷ c.list;
        index = (key, c.fresh) ∷ c.index;
        fresh = c.fresh + 1;
      })
  fresh-Linked key v c linked e = record {
    distinct = (linked.fresh c.fresh (omega arith), e, linked.distinct);
    index = λ k. ap {B = Option ℕ} (λ o. if key == k then some c.fresh else o) (linked.index k);
    fresh =
        λ a h. let f : (c.fresh == a) ≡ false = ground arith in rw f (linked.fresh a (omega arith));
  }

  back-nil : (ns : List (Node V)) → back ns ≡ none → ns ≡ []
  back-nil [] e = refl
  back-nil (n ∷ []) e = ground arith
  back-nil (n ∷ m ∷ ns) e =
      let empty = ap {B = ℕ} length (back-nil (m ∷ ns) e) in absurd (omega (arith, empty))

  length-entries : (ns : List (Node V)) → length (entries ns) ≡ length ns
  length-entries [] = refl
  length-entries (n ∷ ns) = ap suc (length-entries ns)

  trim-Linked :
      (c : LruCache V) (n : Node V)
      → Trimmed n c.list
      → Linked c
      → Linked (record c { index = erase n.key c.index; list = drop_last c.list })
  trim-Linked c n t linked = record {
    distinct = t.distinct;
    index = λ k. find-erase k n.key c.index ∙ elim (Bool-cases (k == n.key)) [
      | inl e ↦
          rw e (sym (ap (λ j. address_of j (drop_last c.list)) (==→eq k n.key e) ∙ t.gone_key))
      | inr f ↦ rw f (linked.index k ∙ sym (t.other_keys k (==→ne k n.key f)))
    ];
    fresh = λ a h. t.absent_addresses a (linked.fresh a h);
  }

  -- With a positive capacity the list that is full has a back.
  make_room-Linked :
      (c : LruCache V)
      → Linked c
      → 0 < c.cap
      → (c' : LruCache V) × ((make_room c ≡ some c')
          × (c'.cap ≡ c.cap)
          × Linked c'
          × (entries c'.list ≡ (
              if leb c.cap (length (entries c.list))
              then drop_last (entries c.list)
              else entries c.list))
          × ((key : ℕ) → address_of key c.list ≡ none → address_of key c'.list ≡ none))
  unfolding make_room
  make_room-Linked c linked positive =
      let size = length-entries c.list in
      elim (Bool-cases (leb c.cap (length c.list))) [
        | inl full ↦ elim (Option-cases (back c.list)) [
          | inl e ↦
              let empty = ap {B = ℕ} length (back-nil c.list e) in
              absurd (ground (arith, full, empty, positive))
          | inr (n, e) ↦
              let t = trim n c.list e linked.distinct in
              let c' : LruCache V = record c {
                index = erase n.key c.index;
                list = drop_last c.list;
              } in
              rw (size, full, e, make_room)
                (c', (refl, refl, trim-Linked c n t linked, t.seen, t.absent_keys))
        ]
        | inr room ↦
            rw (size, room, make_room) (c, (refl, refl, linked, refl, λ key absent. absent))
      ]

  -- `put` is defined and moves like `record_use`.
  pub put-record_use :
      (key : ℕ) (v : V) (c : LruCache V)
      → Linked c
      → 0 < c.cap
      → (c' : LruCache V) × ((put key v c ≡ some c')
          × (c'.cap ≡ c.cap)
          × (entries c'.list ≡ record_use c.cap key v (entries c.list))
          × Linked c')
  unfolding put record_use
  put-record_use key v c linked positive = elim (Option-cases (address_of key c.list)) [
    | inl e ↦
        let missing = linked.index key ∙ e in
        let absent = address_of-none key c.list e in
        let (r, (made, cap, kept, seen, gone)) = make_room-Linked c linked positive in
        let c' : LruCache V = record r {
          list = record { address = r.fresh; key = key; value = v } ∷ r.list;
          index = (key, r.fresh) ∷ r.index;
          fresh = r.fresh + 1;
        } in
        rw (missing, absent, made, put, record_use)
          (c', (refl, cap, ap (λ es. (key, v) ∷ es) seen, fresh-Linked key v r kept (gone key e)))
    | inr (it, e) ↦
        let found = linked.index key ∙ e in
        let (n, l) = locate key it c.list e linked.distinct in
        let value = l.value in
        let moved = splice-assign key it c.list n v l in
        let c' : LruCache V = record c { list = record n { value = v } ∷ unlink it c.list } in
        rw (found, moved, value, put, record_use)
          (
            c',
            (
              refl,
              refl,
              ap₂ (λ k es. (k, v) ∷ es) l.same_key l.others,
              front-Linked key it c n v e l linked,
            ),
          )
  ]

  pub get-cap : (key : ℕ) (c : LruCache V) → (get key c).1.cap ≡ c.cap
  unfolding get
  get-cap key c = elim (Option-cases (find key c.index)) [
    | inl e ↦ rw (e, get) refl
    | inr (it, e) ↦ rw (e, get) refl
  ]
