-- ===== src/Vxlan/VniLaws.antt =====
-- assign_vni: no two VLANs of an object get the same VNI.
use netlab.Prelude.{
  ℕ, ◌≡◌, refl, sym, ap, ◌∙◌, subst, String, Bool, true, false, not, Option, none, some, List, [],
  ◌∷◌, ◌++◌, ◌&&◌, ◌==◌, eq_iff, Bool-cases, Option-cases, inl, inr, if◌then◌else◌,
}
use netlab.Data.{
  ℤ, pos, Value, null, bool, int, str, list, dict, Fields, get, put, has, is_in, get-put, truthy,
}
use netlab.Data.Appending.{append_new}
use netlab.Ids.{Vars, IdVar, get_next_id, get_id_set, ids_of}
use netlab.Ids.Drawing.{counter, get_next_id-Least}
use netlab.Modules.Attributes.{inner_box, text_list}
use netlab.Vxlan.Vni.{
  Scope, Vlans, with_vni, used_vnis, add_vni, next_vni, take_vni, assign_vlan, assign_vlans,
  assign_vni, default_vni, add_id, checked_vni, vni_wanted, and_then, with_vlans, scope_of,
  start_of, report_all, redefined,
}
use netlab.Log.{Reports}
use netlab.Types.Framework.{Outcome, done, raised, value_or_none}
use netlab.Vxlan.NoClash.{vni_at, NoClash, fresh-NoClash, same-NoClash, vni_at-put, vni_at-with_vni}
use netlab.Vxlan.VniTests.{Leaves, execute_test-Leaves}

-- The loop's state: a counter that is set up, and VLANs whose VNIs do not clash.
pub record Sound (s : Vlans) : Type 0 where
  pub used : List Value
  pub next : ℕ
  pub max : ℕ
  pub set_up : s.vars "vni" ≡ counter used next max
  pub clean : NoClash (vni_at s.vlans) used

abbrev KeptBy : Option Vlans → Type 0
KeptBy none = Unit
KeptBy (some s) = Sound s

KeptBy-if : (b : Bool) (x y : Option Vlans) → KeptBy x → KeptBy y → KeptBy (if b then x else y)
KeptBy-if true x y u v = u
KeptBy-if false x y u v = v

module _ (s : Vlans) (sound : Sound s) where
  fresh-Sound :
      (vname : String) (b : Fields) (i : ℤ) (n m : ℕ) (vars : Vars)
      → is_in (int i) sound.used ≡ false
      → vars "vni" ≡ counter (append_new sound.used (int i)) n m
      → Sound (with_vni vname b i vars s)
  fresh-Sound vname b i n m vars free ready = record {
    used = append_new sound.used (int i);
    next = n;
    max = m;
    set_up = ready;
    clean =
        fresh-NoClash (vni_at s.vlans) _ sound.used vname i
          (λ c. vni_at-with_vni s.vlans b vname c i) free sound.clean;
  }

  used_vnis-Sound : used_vnis s.vars ≡ sound.used
  used_vnis-Sound = ap (λ (v : IdVar). ids_of v.value) sound.set_up

  next_vni-KeptBy :
      (vname : String) (b : Fields) → KeptBy (next_vni vname b s (get_next_id "vni" s.vars))
  next_vni-KeptBy vname b = elim (Option-cases (get_next_id "vni" s.vars)) [
    | inl e ↦ rw e tt
    | inr ((i, vars'), e) ↦ rw e (
        let (found, stored) =
          get_next_id-Least "vni" s.vars sound.used sound.next sound.max i vars' sound.set_up e in
        fresh-Sound vname b (pos i) i sound.max vars' found.unused
          (ap (λ (v : Vars). v "vni") stored))
  ]

  take_vni-KeptBy : (vname : String) (b : Fields) (i : ℤ) → KeptBy (take_vni vname b i s)
  take_vni-KeptBy vname b i = elim (Bool-cases (is_in (int i) (used_vnis s.vars))) [
    | inl taken ↦ rw taken (next_vni-KeptBy vname b)
    | inr free ↦ rw free (
        fresh-Sound vname b i sound.next sound.max (add_vni i s.vars)
          (sym (ap (is_in (int i)) used_vnis-Sound) ∙ free)
          (ap (λ (v : IdVar). record v { value = some (append_new (ids_of v.value) (int i)) })
            sound.set_up))
  ]

  default_vni-KeptBy :
      (scope : Scope) (vname : String) (b : Fields) (o : Option ℤ)
      → KeptBy (default_vni scope vname b s o)
  default_vni-KeptBy scope vname b none = tt
  default_vni-KeptBy scope vname b (some i) = take_vni-KeptBy vname b (add_id scope.start_vni i)

  errors-Sound : (errors : Reports) → Sound (record s { errors = errors })
  errors-Sound errors = record {
    used = sound.used;
    next = sound.next;
    max = sound.max;
    set_up = sound.set_up;
    clean = sound.clean;
  }

  -- A VLAN that must_be_int leaves as it is.
  stored-Sound :
      (vname : String) (errors : Reports)
      → Sound (record {
        vlans = put s.vlans vname (dict (inner_box (get s.vlans vname)));
        vars = s.vars;
        errors = errors;
      })
  stored-Sound vname errors = record {
    used = sound.used;
    next = sound.next;
    max = sound.max;
    set_up = sound.set_up;
    clean = same-NoClash (vni_at s.vlans) _ sound.used same sound.clean;
  }
    where
      same :
          (c : String)
          → vni_at (put s.vlans vname (dict (inner_box (get s.vlans vname)))) c ≡ vni_at s.vlans c
      same c =
          vni_at-put s.vlans (inner_box (get s.vlans vname)) vname c
          ∙ elim (Bool-cases (vname == c)) [
            | inl e ↦ rw e (ap (vni_at s.vlans) ((eq_iff vname c).0 e))
            | inr e ↦ rw e refl
          ]

module _ (s : Vlans) (sound : Sound s) (vname : String) where
  checked_vni-KeptBy :
      (o : Outcome) → Leaves (inner_box (get s.vlans vname)) o → KeptBy (checked_vni vname s o)
  checked_vni-KeptBy (raised errors) h = tt
  checked_vni-KeptBy (done parent v errors) h =
      subst
        (λ x. Sound (record {
          vlans = put s.vlans vname (dict x);
          vars = s.vars;
          errors = s.errors ++ errors;
        }))
        (sym h) (stored-Sound s sound vname (s.errors ++ errors))

  vni_wanted-KeptBy :
      (int_of : String → Option ℤ) (scope : Scope) (o : Option Value)
      → vni_at s.vlans vname ≡ o
      → KeptBy (vni_wanted int_of scope vname (inner_box (get s.vlans vname)) s o)
  vni_wanted-KeptBy int_of scope none h = default_vni-KeptBy s sound scope vname _ _
  vni_wanted-KeptBy int_of scope (some (bool false)) h = sound
  vni_wanted-KeptBy int_of scope (some (bool true)) h = default_vni-KeptBy s sound scope vname _ _
  vni_wanted-KeptBy int_of scope (some (str t)) h = absurd (sound.clean.no_text vname t h)
  vni_wanted-KeptBy int_of scope (some null) h =
      checked_vni-KeptBy _ (execute_test-Leaves int_of _ null refl h)
  vni_wanted-KeptBy int_of scope (some (int n)) h =
      checked_vni-KeptBy _ (execute_test-Leaves int_of _ (int n) refl h)
  vni_wanted-KeptBy int_of scope (some (list xs)) h =
      checked_vni-KeptBy _ (execute_test-Leaves int_of _ (list xs) refl h)
  vni_wanted-KeptBy int_of scope (some (dict b)) h =
      checked_vni-KeptBy _ (execute_test-Leaves int_of _ (dict b) refl h)

  assign_vlan-KeptBy :
      (int_of : String → Option ℤ) (scope : Scope) → KeptBy (assign_vlan int_of scope vname s)
  unfolding assign_vlan
  assign_vlan-KeptBy int_of scope = KeptBy-if (not (has s.vlans vname)) (some s) _ sound (
      KeptBy-if (has scope.global_vlans vname && not scope.is_topology)
        (some (report_all s (redefined scope vname (inner_box (get s.vlans vname))))) _
        (errors-Sound s sound _) (vni_wanted-KeptBy int_of scope (vni_at s.vlans vname) refl))

KeptBy-and_then :
    (o : Option Vlans) (f : Vlans → Option Vlans)
    → KeptBy o
    → ((s : Vlans) → Sound s → KeptBy (f s))
    → KeptBy (and_then o f)
KeptBy-and_then none f h next = tt
KeptBy-and_then (some s) f h next = next s h

assign_vlans-KeptBy :
    (int_of : String → Option ℤ) (scope : Scope) (names : List String) (s : Vlans)
    → Sound s
    → KeptBy (assign_vlans int_of scope names s)
unfolding assign_vlans
assign_vlans-KeptBy int_of scope [] s sound = sound
assign_vlans-KeptBy int_of scope (v ∷ vs) s sound =
    KeptBy-and_then (assign_vlan int_of scope v s) (λ s'. assign_vlans int_of scope vs s')
      (assign_vlan-KeptBy s sound v int_of scope)
      (λ s' sound'. assign_vlans-KeptBy int_of scope vs s' sound')

-- The VLANs of an object, with the identifiers and the errors.
abbrev pub vlans_of : Fields × Vars × Reports → Vlans
vlans_of (toponode, vars, errors) = record {
  vlans = inner_box (get toponode "vlans");
  vars = vars;
  errors = errors;
}

abbrev ObjectKept : Option (Fields × Vars × Reports) → Type 0
ObjectKept none = Unit
ObjectKept (some r) = Sound (vlans_of r)

ObjectKept-if :
    (b : Bool) (x y : Option (Fields × Vars × Reports))
    → ObjectKept x
    → ObjectKept y
    → ObjectKept (if b then x else y)
ObjectKept-if true x y u v = u
ObjectKept-if false x y u v = v

ObjectKept-with_vlans :
    (toponode : Fields) (o : Option Vlans)
    → has toponode "vlans" ≡ true
    → KeptBy o
    → ObjectKept (with_vlans toponode o)
ObjectKept-with_vlans toponode none there h = tt
ObjectKept-with_vlans toponode (some s) there h = rw there (
    subst (λ o. Sound (record { vlans = inner_box o; vars = s.vars; errors = s.errors }))
      (sym (get-put toponode "vlans" "vlans" (dict s.vlans))) h)

start_of-Sound :
    (toponode : Fields) (vars : Vars)
    → Sound (vlans_of (toponode, vars, []))
    → Sound (start_of toponode vars)
unfolding get_id_set
start_of-Sound toponode vars sound = record {
  used = sound.used;
  next = sound.next;
  max = sound.max;
  set_up = ap (λ (v : IdVar). record v { value = some (ids_of v.value) }) sound.set_up;
  clean = sound.clean;
}

-- Where a counter of VNIs is set up, the integer VNIs of an object's VLANs are registered, no two of
-- the VLANs share one, and none is a text, all of that holds after assign_vni, of the VLANs and the
-- set that it leaves: the VNIs that it assigns clash with no other.
pub assign_vni_no_clash :
    (int_of : String → Option ℤ) (start_vni : ℕ) (toponode topology : Fields) (vars : Vars)
    (r : Fields × Vars × Reports)
    → has toponode "vlans" ≡ true
    → Sound (vlans_of (toponode, vars, []))
    → assign_vni int_of start_vni toponode topology vars ≡ some r
    → Sound (vlans_of r)
unfolding assign_vni
assign_vni_no_clash int_of start_vni toponode topology vars r there sound h =
    let vxlan_vlans = get (inner_box (get toponode "vxlan")) "vlans" in
    let assigned =
      assign_vlans int_of (scope_of start_vni toponode topology) (text_list vxlan_vlans)
        (start_of toponode vars) in
    subst ObjectKept h (
      ObjectKept-if (not (truthy (value_or_none vxlan_vlans))) (some (toponode, vars, []))
        (with_vlans toponode assigned) sound
        (ObjectKept-with_vlans toponode assigned there (
          assign_vlans-KeptBy int_of (scope_of start_vni toponode topology) (text_list vxlan_vlans)
            (start_of toponode vars) (start_of-Sound toponode vars sound))))
