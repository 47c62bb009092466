-- ===== src/Vrf/SearchLaws.antt =====
-- get_next_vrf_id: its loop ends, and what it returns was not in use.
use netlab.Prelude.{
  ℕ, zero, suc, ◌-◌, ◌≤◌, ◌<◌, ◌≡◌, ◌≢◌, refl, sym, ap, ◌∙◌, subst, String, true, false, Option,
  none, some, List, eq_refl, arith, Bool-cases, inl, inr,
}
use netlab.Data.{Value, pos, int, str, is_in, value_eq}
use netlab.Data.Appending.{append_new}
use netlab.Data.ListLaws.{is_in-append_new}
use netlab.Ids.{Vars, IdVar, ids_of, update, get_next_id, get_id_set}
use netlab.Ids.Counter.{Least}
use netlab.Ids.Drawing.{counter, get_next_id-Least, is_in-append_new_old, is_in-append_new_self}
use netlab.Vrf.Search.{
  Search, found, no_id_left, out_of_fuel, rd_round, search_rd, vrf_rounds, distance, add_found,
  get_next_vrf_id,
}

abbrev Ended : Search → Type 0
Ended out_of_fuel = ⊥
Ended s = Unit

-- What one call of get_next_id on a counter below its maximum gives.
module _ (vars : Vars) (used : List Value) (n m : ℕ) (h : vars "vrf_id" ≡ counter used n m)
    (room : n ≤ m) (i : ℕ) (vars' : Vars) (e : get_next_id "vrf_id" vars ≡ some (i, vars')) where
  drawn_facts :
      Least used n m i
      × (vars' ≡ update vars "vrf_id" (counter (append_new used (int (pos i))) i m))
  drawn_facts = get_next_id-Least "vrf_id" vars used n m i vars' h e

  drawn_counter : vars' "vrf_id" ≡ counter (append_new used (int (pos i))) i m
  drawn_counter = ap (λ (v : Vars). v "vrf_id") drawn_facts.1

  drawn_unused : is_in (int (pos i)) used ≡ false
  drawn_unused = drawn_facts.0.unused

  drawn_range : (n ≤ i) × (i ≤ m)
  drawn_range = (drawn_facts.0.from_next, drawn_facts.0.within_max room)

module _ (rd_text : Value → Value → String) (asn : Value) (rd_set : List Value) where
  Ended-rd_round :
      (rest : Vars → Search) (o : Option (ℕ × Vars))
      → ((i : ℕ) (vars' : Vars) → o ≡ some (i, vars') → Ended (rest vars'))
      → Ended (rd_round rd_text rest asn rd_set o)
  Ended-rd_round rest none h = tt
  Ended-rd_round rest (some (i, vars')) h =
      elim (Bool-cases (is_in (str (rd_text asn (int (pos i)))) rd_set)) [
        | inl taken ↦ rw taken (h i vars' refl)
        | inr free ↦ rw free tt
      ]

  -- A counter whose value is used goes up in each round.
  search_rd_ends_used :
      (fuel : ℕ) (vars : Vars) (used : List Value) (n m : ℕ)
      → vars "vrf_id" ≡ counter used n m
      → is_in (int (pos n)) used ≡ true
      → n ≤ m
      → m - n < fuel
      → Ended (search_rd rd_text fuel asn rd_set vars)
  unfolding search_rd
  search_rd_ends_used zero vars used n m h u a f = absurd (omega arith)
  search_rd_ends_used (suc fuel) vars used n m h u a f =
      Ended-rd_round (λ v. search_rd rd_text fuel asn rd_set v) (get_next_id "vrf_id" vars)
        (λ i vars' e.
          let range = drawn_range vars used n m h a i vars' e in
          let other : n ≢ i = ground (arith, u, drawn_unused vars used n m h a i vars' e) in
          search_rd_ends_used fuel vars' (append_new used (int (pos i))) i m
            (drawn_counter vars used n m h a i vars' e) (is_in-append_new_self i used) range.1
            (omega (arith, range.0, other)))

  search_rd_ends :
      (fuel : ℕ) (vars : Vars) (used : List Value) (n m : ℕ)
      → vars "vrf_id" ≡ counter used n m
      → n ≤ m
      → m - n < fuel
      → Ended (search_rd rd_text (suc fuel) asn rd_set vars)
  unfolding search_rd
  search_rd_ends fuel vars used n m h a f =
      Ended-rd_round (λ v. search_rd rd_text fuel asn rd_set v) (get_next_id "vrf_id" vars)
        (λ i vars' e.
          let range = drawn_range vars used n m h a i vars' e in
          search_rd_ends_used fuel vars' (append_new used (int (pos i))) i m
            (drawn_counter vars used n m h a i vars' e) (is_in-append_new_self i used) range.1
            (omega (arith, range.0)))

  -- An identifier that is not in `used`, whose route distinguisher is not in the set, and which the
  -- counter's set has afterwards.
  abbrev Fresh : List Value → Search → Type 0
  Fresh used (found i vars) =
      (is_in (str (rd_text asn (int (pos i)))) rd_set ≡ false)
      × (is_in (int (pos i)) used ≡ false)
      × (is_in (int (pos i)) (ids_of (vars "vrf_id").value) ≡ true)
  Fresh used s = Unit

  Fresh-old :
      (used : List Value) (x : Value) (s : Search) → Fresh (append_new used x) s → Fresh used s
  Fresh-old used x no_id_left h = tt
  Fresh-old used x out_of_fuel h = tt
  Fresh-old used x (found i vars) (free, unused, stored) =
      (free, is_in-append_new_old (int (pos i)) x used unused, stored)

  Fresh-rd_round :
      (used : List Value) (rest : Vars → Search) (o : Option (ℕ × Vars))
      → ((i : ℕ) (vars' : Vars)
          → o ≡ some (i, vars')
          → Fresh used (rest vars')
            × (is_in (int (pos i)) used ≡ false)
            × (is_in (int (pos i)) (ids_of (vars' "vrf_id").value) ≡ true))
      → Fresh used (rd_round rd_text rest asn rd_set o)
  Fresh-rd_round used rest none h = tt
  Fresh-rd_round used rest (some (i, vars')) h =
      elim (Bool-cases (is_in (str (rd_text asn (int (pos i)))) rd_set)) [
        | inl taken ↦ rw taken (h i vars' refl).0
        | inr free ↦ rw free (free, (h i vars' refl).1, (h i vars' refl).2)
      ]

  search_rd-Fresh :
      (fuel : ℕ) (vars : Vars) (used : List Value) (n m : ℕ)
      → vars "vrf_id" ≡ counter used n m
      → n ≤ m
      → Fresh used (search_rd rd_text fuel asn rd_set vars)
  unfolding search_rd
  search_rd-Fresh zero vars used n m h a = tt
  search_rd-Fresh (suc fuel) vars used n m h a =
      Fresh-rd_round used (λ v. search_rd rd_text fuel asn rd_set v) (get_next_id "vrf_id" vars)
        (λ i vars' e.
          let used' = append_new used (int (pos i)) in
          let set_up = drawn_counter vars used n m h a i vars' e in
          (
            Fresh-old used (int (pos i)) (search_rd rd_text fuel asn rd_set vars') (
                search_rd-Fresh fuel vars' used' i m set_up
                  (drawn_range vars used n m h a i vars' e).1),
            drawn_unused vars used n m h a i vars' e,
            ap (λ v. is_in (int (pos i)) (ids_of v.value)) set_up ∙ is_in-append_new_self i used,
          ))

abbrev pub vrf_rds : Vars → List Value
vrf_rds vars = ids_of (vars "vrf_rd").value

abbrev pub vrf_ids : Vars → List Value
vrf_ids vars = ids_of (vars "vrf_id").value

module _ (rd_text : Value → Value → String) (asn : Value) where
  -- A new identifier and a new route distinguisher, both in use afterwards.
  abbrev Returned : List Value → List Value → Search → Type 0
  Returned rd_set used (found i vars) =
      (is_in (str (rd_text asn (int (pos i)))) rd_set ≡ false)
      × (is_in (str (rd_text asn (int (pos i)))) (vrf_rds vars) ≡ true)
      × (is_in (int (pos i)) used ≡ false)
      × (is_in (int (pos i)) (vrf_ids vars) ≡ true)
  Returned rd_set used s = Unit

  added_twice :
      (s : String) (x : Value) (xs : List Value)
      → is_in (str s) (append_new (append_new xs (str s)) x) ≡ true
  unfolding value_eq
  added_twice s x xs = ground (
    arith,
    is_in-append_new s (append_new xs (str s)) x,
    is_in-append_new s xs (str s),
    eq_refl s,
  )

  Returned-add_found :
      (rd_set used : List Value) (s : Search)
      → Fresh rd_text asn rd_set used s
      → Returned rd_set used (add_found rd_text asn s)
  Returned-add_found rd_set used no_id_left h = tt
  Returned-add_found rd_set used out_of_fuel h = tt
  Returned-add_found rd_set used (found i vars) (free, unused, stored) =
      (free, added_twice (rd_text asn (int (pos i))) (int (pos i)) (vrf_rds vars), unused, stored)

  Ended-add_found : (s : Search) → Ended s → add_found rd_text asn s ≢ out_of_fuel
  Ended-add_found no_id_left e h = absurd (cc h)
  Ended-add_found out_of_fuel e h = e
  Ended-add_found (found i vars) e h = absurd (cc h)

  module _ (vars : Vars) (used : List Value) (n m : ℕ) (set_up : vars "vrf_id" ≡ counter used n m)
      (room : n ≤ m) where
    vrf_rounds-counter : vrf_rounds rd_text (get_id_set "vrf_rd" vars).1 ≡ suc (suc (m - n))
    unfolding get_id_set
    vrf_rounds-counter = ap (λ (v : IdVar). distance rd_text v.next v.max) set_up

    counter_kept : (get_id_set "vrf_rd" vars).1 "vrf_id" ≡ counter used n m
    unfolding get_id_set
    counter_kept = set_up

    -- Where the counter of VRF identifiers is set up and not above its maximum, the loop of
    -- get_next_vrf_id ends within its rounds.
    pub get_next_vrf_id_ends : get_next_vrf_id rd_text asn vars ≢ out_of_fuel
    unfolding get_next_vrf_id
    get_next_vrf_id_ends =
        let r = get_id_set "vrf_rd" vars in
        Ended-add_found (search_rd rd_text (vrf_rounds rd_text r.1) asn r.0 r.1) (
          subst (λ k. Ended (search_rd rd_text k asn r.0 r.1)) (sym vrf_rounds-counter)
            (search_rd_ends rd_text asn r.0 (suc (m - n)) r.1 used n m counter_kept room
              (omega arith)))

    -- Where the counter of VRF identifiers is set up and not above its maximum, get_next_vrf_id
    -- returns an identifier that was not in use and is afterwards, with a route distinguisher that
    -- was not in the set of route distinguishers and is afterwards.
    pub get_next_vrf_id_fresh :
        (i : ℕ) (vars' : Vars)
        → get_next_vrf_id rd_text asn vars ≡ found i vars'
        → (is_in (str (rd_text asn (int (pos i)))) (vrf_rds vars) ≡ false)
          × (is_in (str (rd_text asn (int (pos i)))) (vrf_rds vars') ≡ true)
          × (is_in (int (pos i)) used ≡ false)
          × (is_in (int (pos i)) (vrf_ids vars') ≡ true)
    unfolding get_next_vrf_id get_id_set
    get_next_vrf_id_fresh i vars' h =
        let r = get_id_set "vrf_rd" vars in
        subst (Returned r.0 used) h (
          Returned-add_found r.0 used (search_rd rd_text (vrf_rounds rd_text r.1) asn r.0 r.1) (
            search_rd-Fresh rd_text asn r.0 (vrf_rounds rd_text r.1) r.1 used n m counter_kept
              room))
