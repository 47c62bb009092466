-- ===== src/Ids/Drawing.antt =====
-- get_next_id, and the identifiers that a run of calls hands out.
use netlab.Prelude.{
  sym, ◌∙◌, some_inj, ℕ, zero, suc, ◌-◌, ◌≤◌, ◌≡◌, ◌≢◌, refl, subst, ap, String, true, false,
  Option, none, some, List, [], ◌∷◌, arith, eqb_refl, eq_refl,
}
use netlab.Data.{Value, pos, int, is_in, value_eq}
use netlab.Data.Appending.{append_new}
use netlab.Data.ListLaws.{is_in-append}
use netlab.Ids.{IdVar, Vars, get_next_id, next_from, drawn, search_from, update}
use netlab.Ids.Counter.{Least, search_from-Least, search_from_finds}

-- A counter that set_id_counter has set up, with the set of used identifiers.
abbrev pub counter : List Value → ℕ → ℕ → IdVar
counter used next max_value = record { value = some used; next = some next; max = some max_value }

update_self : (vars : Vars) (name : String) (v : IdVar) → update vars name v name ≡ v
update_self vars name v = rw (eq_refl name)

module _ (name : String) (vars : Vars) (used : List Value) (n m : ℕ) where
  get_next_id-counter :
      vars name ≡ counter used n m
      → get_next_id name vars ≡ drawn name vars used m (search_from (suc (m - n)) used n m)
  unfolding get_next_id next_from
  get_next_id-counter h = ap (λ (v : IdVar). next_from name vars v.next v.value v.max) h

  drawn_cases :
      (o : Option ℕ) (i : ℕ) (vars' : Vars)
      → drawn name vars used m o ≡ some (i, vars')
      → (o ≡ some i) × (vars' ≡ update vars name (counter (append_new used (int (pos i))) i m))
  drawn_cases none i vars' e = absurd (cc e)
  drawn_cases (some k) i vars' e =
      let p = some_inj e in
      let same_id : k ≡ i = ap (λ (r : ℕ × Vars). r.0) p in
      let same_vars : update vars name (counter (append_new used (int (pos k))) k m) ≡ vars' =
        ap (λ (r : ℕ × Vars). r.1) p in
      (
        ap some same_id,
        sym same_vars
            ∙ ap (λ x. update vars name (counter (append_new used (int (pos x))) x m)) same_id,
      )

  -- On a counter that is set up, get_next_id returns the least unused identifier from the counter
  -- on, within the maximum if the counter is; it adds it to the set, moves the counter to it, and
  -- leaves every other variable alone.
  pub get_next_id-Least :
      (i : ℕ) (vars' : Vars)
      → vars name ≡ counter used n m
      → get_next_id name vars ≡ some (i, vars')
      → Least used n m i × (vars' ≡ update vars name (counter (append_new used (int (pos i))) i m))
  get_next_id-Least i vars' h e =
      let (found, stored) = drawn_cases _ i vars' (sym (get_next_id-counter h) ∙ e) in
      (search_from-Least (suc (m - n)) used n m i found, stored)

  -- While an identifier between the counter and the maximum is free, get_next_id does not fail.
  pub get_next_id_available :
      (j : ℕ)
      → vars name ≡ counter used n m
      → is_in (int (pos j)) used ≡ false
      → n ≤ j
      → j ≤ m
      → (i : ℕ) × (vars' : Vars) × (get_next_id name vars ≡ some (i, vars'))
  get_next_id_available j h free a b =
      let (i, found) = search_from_finds (suc (m - n)) used n m j free a b (omega arith) in
      (
        i,
        update vars name (counter (append_new used (int (pos i))) i m),
        get_next_id-counter h ∙ ap (drawn name vars used m) found,
      )

abbrev prepend : ℕ → Option (List ℕ × Vars) → Option (List ℕ × Vars)
prepend i none = none
prepend i (some (is, vars)) = some (i ∷ is, vars)

abbrev and_draw : Option (ℕ × Vars) → (Vars → Option (List ℕ × Vars)) → Option (List ℕ × Vars)
and_draw none rest = none
and_draw (some (i, vars)) rest = prepend i (rest vars)

-- Repeated calls for identifiers of one name.
unfoldable pub draw : ℕ → String → Vars → Option (List ℕ × Vars)
draw zero name vars = some ([], vars)
draw (suc k) name vars = and_draw (get_next_id name vars) (λ vars'. draw k name vars')

prepend_inv :
    (i : ℕ) (o : Option (List ℕ × Vars)) (is : List ℕ) (last : Vars)
    → prepend i o ≡ some (is, last)
    → (js : List ℕ) × (is ≡ i ∷ js) × (o ≡ some (js, last))
prepend_inv i none is last h = absurd (cc h)
prepend_inv i (some (js, vars)) is last h =
    let p = some_inj h in
    (
      js,
      sym (ap (λ (r : List ℕ × Vars). r.0) p),
      ap (λ x. some (js, x)) (ap (λ (r : List ℕ × Vars). r.1) p),
    )

and_draw_inv :
    (o : Option (ℕ × Vars)) (rest : Vars → Option (List ℕ × Vars)) (is : List ℕ) (last : Vars)
    → and_draw o rest ≡ some (is, last)
    → (i : ℕ) × (vars' : Vars) × (js : List ℕ) × (o ≡ some (i, vars'))
      × (is ≡ i ∷ js)
      × (rest vars' ≡ some (js, last))
and_draw_inv none rest is last h = absurd (cc h)
and_draw_inv (some (i, vars')) rest is last h =
    let (js, shape, more) = prepend_inv i (rest vars') is last h in
    (i, vars', js, refl, shape, more)

-- Each number is in no set of used identifiers, and is above the one before it.
abbrev pub Rising : ℕ → List ℕ → Type 0
Rising low [] = Unit
Rising low (i ∷ is) = (low ≤ i) × Rising (suc i) is

abbrev pub AllUnused : List Value → List ℕ → Type 0
AllUnused used [] = Unit
AllUnused used (i ∷ is) = (is_in (int (pos i)) used ≡ false) × AllUnused used is

Rising-suc :
    (i : ℕ) (used : List Value) (js : List ℕ)
    → is_in (int (pos i)) used ≡ true
    → AllUnused used js
    → Rising i js
    → Rising (suc i) js
Rising-suc i used [] h u r = tt
Rising-suc i used (j ∷ js) h u r =
    let ne : i ≢ j = ground (arith, h, u.0) in (omega (arith, r.0), r.1)

pub is_in-append_new_old :
    (v x : Value) (used : List Value) → is_in v (append_new used x) ≡ false → is_in v used ≡ false
unfolding append_new
is_in-append_new_old v x used h = ground (arith, is_in-append v used (x ∷ []))

pub is_in-append_new_self :
    (i : ℕ) (used : List Value) → is_in (int (pos i)) (append_new used (int (pos i))) ≡ true
unfolding append_new is_in value_eq
is_in-append_new_self i used =
    ground (arith, is_in-append (int (pos i)) used (int (pos i) ∷ []), eqb_refl i)

AllUnused-append_new :
    (x : Value) (used : List Value) (js : List ℕ)
    → AllUnused (append_new used x) js
    → AllUnused used js
AllUnused-append_new x used [] u = tt
AllUnused-append_new x used (j ∷ js) u =
    (is_in-append_new_old (int (pos j)) x used u.0, AllUnused-append_new x used js u.1)

-- However many identifiers are drawn from a counter that is set up, they rise strictly from the
-- counter's value on, so no two are equal, and none of them was used before the first call.
pub draw_fresh :
    (k : ℕ) (name : String) (vars : Vars) (used : List Value) (n m : ℕ) (is : List ℕ) (last : Vars)
    → vars name ≡ counter used n m
    → draw k name vars ≡ some (is, last)
    → Rising n is × AllUnused used is
unfolding draw
draw_fresh zero name vars used n m is last h e =
    subst (λ l. Rising n l × AllUnused used l) (ap (λ (r : List ℕ × Vars). r.0) (some_inj e))
      (tt, tt)
draw_fresh (suc k) name vars used n m is last h e =
    let (i, vars', js, got, shape, more) =
      and_draw_inv (get_next_id name vars) (λ v. draw k name v) is last e in
    let (found, stored) = get_next_id-Least name vars used n m i vars' h got in
    let used' = append_new used (int (pos i)) in
    let set_up : vars' name ≡ counter used' i m =
      ap (λ (v : Vars). v name) stored ∙ update_self vars name (counter used' i m) in
    let (rise, free) = draw_fresh k name vars' used' i m js last set_up more in
    subst (λ l. Rising n l × AllUnused used l) (sym shape)
      (
        (found.from_next, Rising-suc i used' js (is_in-append_new_self i used) free rise),
        (found.unused, AllUnused-append_new (int (pos i)) used js free),
      )
