-- ===== src/Ids/Counter.antt =====
-- get_next_id: the identifier is the least unused one from the counter on, within the maximum.
use netlab.Prelude.{
  ℕ, zero, suc, ◌+◌, ◌-◌, ◌≤◌, ◌<◌, ◌≡◌, true, false, some, List, arith, ltb, Bool-cases, subst,
  inl, inr, ◌≢◌,
}
use netlab.Data.{Value, pos, int, is_in}
use netlab.Ids.{search_from}

-- What the search found: unused, with every smaller candidate used.
pub record Least (used : List Value) (next max_value i : ℕ) : Type 0 where
  pub unused : is_in (int (pos i)) used ≡ false
  pub from_next : next ≤ i
  pub within_max : next ≤ max_value → i ≤ max_value
  pub smaller_used : (j : ℕ) → next ≤ j → j < i → is_in (int (pos j)) used ≡ true

now-Least :
    (used : List Value) (next max_value : ℕ)
    → is_in (int (pos next)) used ≡ false
    → Least used next max_value next
now-Least used next max_value free = record {
  unused = free;
  from_next = omega arith;
  within_max = λ h. h;
  smaller_used = λ j a b. absurd (omega arith);
}

later-Least :
    (used : List Value) (next max_value i : ℕ)
    → is_in (int (pos next)) used ≡ true
    → next + 1 ≤ max_value
    → Least used (next + 1) max_value i
    → Least used next max_value i
later-Least used next max_value i taken room found = record {
  unused = found.unused;
  from_next = omega (arith, found.from_next);
  within_max = λ h. found.within_max room;
  smaller_used = λ j a b. ground (arith, taken, found.smaller_used j);
}

pub search_from-Least :
    (fuel : ℕ) (used : List Value) (next max_value i : ℕ)
    → search_from fuel used next max_value ≡ some i
    → Least used next max_value i
unfolding search_from
search_from-Least zero used next max_value i h = cc
search_from-Least (suc fuel) used next max_value i h =
    elim (Bool-cases (is_in (int (pos next)) used)) [
      | inl taken ↦ elim (Bool-cases (ltb max_value (next + 1))) [
        | inl over ↦ absurd (ground arith)
        | inr room ↦
            later-Least used next max_value i taken (ground arith)
              (search_from-Least fuel used (next + 1) max_value i (ground arith))
      ]
      | inr free ↦
          subst (λ k. Least used next max_value k) (let e : next ≡ i = ground arith in e)
            (now-Least used next max_value free)
    ]

-- With a free identifier at `j` and fuel for the way there, the search does not fail.
pub search_from_finds :
    (fuel : ℕ) (used : List Value) (next max_value j : ℕ)
    → is_in (int (pos j)) used ≡ false
    → next ≤ j
    → j ≤ max_value
    → j - next < fuel
    → (i : ℕ) × (search_from fuel used next max_value ≡ some i)
unfolding search_from
search_from_finds zero used next max_value j free a b f = absurd (omega arith)
search_from_finds (suc fuel) used next max_value j free a b f =
    elim (Bool-cases (is_in (int (pos next)) used)) [
      | inl taken ↦
          let ne : next ≢ j = ground (arith, taken, free) in
          let (i, e) =
            search_from_finds fuel used (next + 1) max_value j free (omega arith) b (omega arith) in
          (i, ground arith)
      | inr unused ↦ (next, ground arith)
    ]
