-- ===== src/Reconciler/FlatHash/Capacity.antt =====
-- The table that the constructors make.
use native.Mathlib.Nat.{mul_assoc, pow-suc}
use learn_cpp.Prelude.{
  ℕ, zero, suc, ◌-◌, ◌*◌, ◌%◌, ◌^◌, ◌≤◌, ◌<◌, ◌≡◌, refl, sym, ap, ◌∙◌, true, false, none, some, ltb,
  length-replicate, get_or, replicate, count, arith, inl, inr, Bool-cases,
}
use learn_cpp.Reconciler.FlatHash.{Table, empty_table, init, probe, round_up}
use learn_cpp.Reconciler.FlatHash.Models.{Models}
use learn_cpp.Reconciler.FlatHash.Probe.{find_from-empty}
use learn_cpp.Reconciler.UnorderedHeap.{fresh}

pow-pos : (n : ℕ) → 0 < 2 ^ n
pow-pos zero = omega arith
pow-pos (suc n) = omega (arith, pow-suc 2 n, pow-pos n)

-- Doubling ends at the first power of two that is enough, before 2^64.
record Rounded (n want cap k c : ℕ) : Type 0 where
  returns : round_up (suc n) want cap ≡ some c
  power : c ≡ 2 ^ k
  enough : want ≤ c
  small : c ≤ 2 ^ 63

stop :
    (n k want cap : ℕ)
    → cap ≡ 2 ^ k
    → cap ≤ 2 ^ 63
    → ltb cap want ≡ false
    → (j : ℕ) × ((c : ℕ) × Rounded n want cap j c)
unfolding round_up
stop n k want cap power small done = (
  k,
  (
    cap,
    record { returns = rw done refl; power = power; enough = ground (arith, done); small = small },
  ),
)

step :
    (n want cap : ℕ)
    → ltb cap want ≡ true
    → round_up (suc n) want cap ≡ round_up n want (cap * 2 % 2 ^ 64)
unfolding round_up
step n want cap less = rw less refl

round_up_lem :
    (n k want cap : ℕ)
    → cap ≡ 2 ^ k
    → cap * 2 ^ n ≡ 2 ^ 63
    → want ≤ 2 ^ 63
    → (j : ℕ) × ((c : ℕ) × Rounded n want cap j c)
round_up_lem zero k want cap power whole le =
    stop zero k want cap power (omega arith) (ground (arith, whole, le))
round_up_lem (suc n) k want cap power whole le = elim (Bool-cases (ltb cap want)) [
  | inr done ↦ stop (suc n) k want cap power (grind (arith, whole, pow-pos n, pow-suc 2 n)) done
  | inl less ↦
      let twice : cap * 2 * 2 ^ n ≡ 2 ^ 63 =
        mul_assoc cap 2 (2 ^ n) ∙ ap (λ (t : ℕ). cap * t) (omega (arith, pow-suc 2 n)) ∙ whole in
      let lt : cap < want = ground (arith, less) in
      let fits : cap * 2 % 2 ^ 64 ≡ cap * 2 = omega (arith, lt, le) in
      let power' : cap * 2 ≡ 2 ^ suc k = omega (arith, power, pow-suc 2 k) in
      let (j, (c, r)) = round_up_lem n (suc k) want (cap * 2) power' twice le in
      (
        j,
        (
          c,
          record {
            returns = step (suc n) want cap less ∙ ap (round_up (suc n) want) fits ∙ r.returns;
            power = r.power;
            enough = r.enough;
            small = r.small;
          },
        ),
      )
]

get_or-replicate : {A : Type 0} (n s : ℕ) (a : A) → get_or (replicate n a) s a ≡ a
get_or-replicate zero s a = refl
get_or-replicate (suc n) zero a = refl
get_or-replicate (suc n) (suc s) a = get_or-replicate n s a

count-replicate : (n : ℕ) → count 0 (replicate n 0) ≡ n
count-replicate zero = refl
count-replicate (suc n) = omega (arith, count-replicate n)

module _ {D : Type 0} where
  -- A new table holds nothing and takes as many keys as it is said to expect, twice.
  pub record Made (expected_ids : ℕ) (tb : Table D) : Type 0 where
    pub returns : init expected_ids ≡ some tb
    pub takes : Models (expected_ids * 2 - 1) tb (λ id. none)

  init_eq :
      (expected_ids cap : ℕ)
      → round_up 64 (expected_ids * 2 % 2 ^ 64) 1 ≡ some cap
      → init {D = D} expected_ids ≡ some (empty_table cap)
  unfolding init
  init_eq expected_ids cap h = rw (init, h) refl

  pub init_lem : (expected_ids : ℕ) → expected_ids ≤ 2 ^ 62 → (tb : Table D) × Made expected_ids tb
  unfolding empty_table
  init_lem expected_ids small =
      let want : expected_ids * 2 % 2 ^ 64 ≡ expected_ids * 2 = omega arith in
      let (k, (cap, r)) = round_up_lem 63 0 (expected_ids * 2) 1 refl refl (omega arith) in
      let slots : suc (cap - 1) ≡ cap = omega (arith, r.power, pow-pos k) in
      (
        empty_table cap,
        record {
          returns = init_eq expected_ids cap (ap (λ w. round_up 64 w 1) want ∙ r.returns);
          takes = record {
            sized = record {
              power = k;
              slots = slots ∙ r.power;
              small = omega (arith, slots, r.small);
              len = length-replicate cap 0 ∙ sym slots;
            };
            entries_len = length-replicate cap fresh ∙ sym slots;
            used_len = length-replicate cap false ∙ sym slots;
            free = omega (arith, count-replicate cap, r.enough, slots);
            sound = λ s le two. absurd (omega (arith, two, get_or-replicate {A = ℕ} cap s 0));
            in_use = λ s le two. absurd (omega (arith, two, get_or-replicate {A = ℕ} cap s 0));
            agrees = λ id. (
              none,
              (
                find_from-empty (cap - 1) (cap - 1) id (replicate cap 0) (probe (cap - 1) id)
                    (get_or-replicate {A = ℕ} cap (probe (cap - 1) id) 0),
                refl,
              ),
            );
          };
        },
      )
