-- ===== src/Evpn/NextVni.antt =====
-- The loop of get_next_vni, netsim/modules/evpn.py
use netlab.Prelude.{
  ℕ, zero, suc, ◌+◌, ◌≤◌, ◌<◌, ◌≡◌, refl, subst, Bool, true, false, some, List, [], ◌∷◌, arith,
  Bool-cases, inl, inr, leb, eqb, eqb→eq, length, if◌then◌else◌,
}
use netlab.Data.{pos, negsuc, Value, null, bool, int, str, list, dict, is_in, value_eq}
use netlab.Evpn.Transit.{next_vni_from, get_next_vni}

-- The value is a number from `k` on; True counts as 1 and False as 0.
at_least : ℕ → Value → Bool
at_least k (int (pos n)) = leb k n
at_least k (bool true) = leb k 1
at_least k (bool false) = leb k 0
at_least k v = false

-- How many values are numbers from `k` on.
count_from : ℕ → List Value → ℕ
count_from k [] = 0
count_from k (v ∷ vs) = let rest = count_from k vs in if at_least k v then suc rest else rest

at_least-suc : (k : ℕ) (v : Value) → at_least (suc k) v ≡ true → at_least k v ≡ true
unfolding at_least
at_least-suc k (int (pos n)) h = ground arith
at_least-suc k (int (negsuc n)) h = cc h
at_least-suc k (bool true) h = ground arith
at_least-suc k (bool false) h = ground arith
at_least-suc k null h = cc h
at_least-suc k (str s) h = cc h
at_least-suc k (list xs) h = cc h
at_least-suc k (dict b) h = cc h

at_least_equal :
    (k : ℕ) (v : Value)
    → value_eq v (int (pos k)) ≡ true
    → (at_least k v ≡ true) × (at_least (suc k) v ≡ false)
unfolding at_least value_eq
at_least_equal k (int (pos n)) h = (ground arith, ground arith)
at_least_equal k (int (negsuc n)) h = absurd (cc h)
at_least_equal k (bool true) h = (ground arith, ground arith)
at_least_equal k (bool false) h = (ground arith, ground arith)
at_least_equal k null h = absurd (cc h)
at_least_equal k (str s) h = absurd (cc h)
at_least_equal k (list xs) h = absurd (cc h)
at_least_equal k (dict b) h = absurd (cc h)

count_from-suc : (k : ℕ) (vs : List Value) → count_from (suc k) vs ≤ count_from k vs
unfolding count_from
count_from-suc k [] = omega arith
count_from-suc k (v ∷ vs) = ground (arith, count_from-suc k vs, at_least-suc k v)

-- A number that is in the list is not counted from its successor on.
count_from_used :
    (k : ℕ) (vs : List Value)
    → is_in (int (pos k)) vs ≡ true
    → count_from (suc k) vs < count_from k vs
unfolding count_from is_in
count_from_used k [] h = absurd (cc h)
count_from_used k (v ∷ vs) h =
    ground (arith, count_from_used k vs, count_from-suc k vs, at_least-suc k v, at_least_equal k v)

count_from-length : (k : ℕ) (vs : List Value) → count_from k vs ≤ length vs
unfolding count_from
count_from-length k [] = omega arith
count_from-length k (v ∷ vs) = ground (arith, count_from-length k vs)

suc-one : (n : ℕ) → suc n ≡ n + 1
suc-one n = omega arith

-- A number above `start` is the next one or above that.
used_between :
    (start n : ℕ) (used : List Value)
    → is_in (int (pos (start + 1))) used ≡ true
    → ((k : ℕ) → start + 1 < k → k < n → is_in (int (pos k)) used ≡ true)
    → (k : ℕ) → start < k
    → k < n
    → is_in (int (pos k)) used ≡ true
used_between start n used taken rest k above below = elim (Bool-cases (eqb (start + 1) k)) [
  | inl h ↦ subst (λ j. is_in (int (pos j)) used ≡ true) (eqb→eq (start + 1) k h) taken
  | inr h ↦ rest k (ground (arith, above, h)) below
]

next_vni_from_finds :
    (fuel start : ℕ) (used : List Value)
    → count_from (start + 1) used < fuel
    → (n : ℕ) × (next_vni_from fuel start used ≡ some n)
      × (start < n)
      × (is_in (int (pos n)) used ≡ false)
      × ((k : ℕ) → start < k → k < n → is_in (int (pos k)) used ≡ true)
unfolding next_vni_from
next_vni_from_finds zero start used f = absurd (omega arith)
next_vni_from_finds (suc fuel) start used f =
    elim (Bool-cases (is_in (int (pos (start + 1))) used)) [
      | inl taken ↦
          let fewer =
            subst (λ j. count_from j used < count_from (start + 1) used) (suc-one (start + 1))
              (count_from_used (start + 1) used taken) in
          let (n, found, above, free, between) =
            next_vni_from_finds fuel (start + 1) used (omega (arith, fewer)) in
          (n, rw taken found, omega arith, free, used_between start n used taken between)
      | inr unused ↦ (
        start + 1,
        rw unused refl,
        omega arith,
        unused,
        λ k above below. absurd (omega (arith, above, below)),
      )
    ]

-- However many numbers are in use, the loop of get_next_vni ends within one round more than there are
-- numbers in the list, with the least number above the one that it starts from that is not in the list.
pub get_next_vni_free :
    (start : ℕ) (used : List Value)
    → (n : ℕ) × (get_next_vni start used ≡ some n)
      × (start < n)
      × (is_in (int (pos n)) used ≡ false)
      × ((k : ℕ) → start < k → k < n → is_in (int (pos k)) used ≡ true)
unfolding get_next_vni
get_next_vni_free start used =
    next_vni_from_finds (suc (length used)) start used
      (omega (arith, count_from-length (start + 1) used))
