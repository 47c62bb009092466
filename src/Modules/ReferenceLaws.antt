-- ===== src/Modules/ReferenceLaws.antt =====
-- Reference lists that pass the check
use netlab.Prelude.{
  String, ◌≡◌, refl, sym, subst, Bool, true, false, not, ◌||◌, Option, none, some, List, [], ◌∷◌,
  ◌++◌, ◌==◌, eq_iff, if◌then◌else◌, is_some, Bool-cases, inl, inr, some_inj,
}
use netlab.Prelude.Texts.{contains}
use netlab.Log.{report, incorrect_value}
use netlab.Data.{Value}
use netlab.Modules.References.{
  RefScope, RefCheck, known_in, reference_errors, checked_list, unchecked, default_list,
  created_list, given_list, no_errors, validate_object_reference_list, merged_refs, filtered_keys,
  objects_of,
}

reference_errors-none :
    (parent topology : RefScope) (m r : String) (l : List String)
    → no_errors (reference_errors parent topology m l) ≡ true
    → contains r l ≡ true
    → known_in parent topology r ≡ true
unfolding reference_errors contains
reference_errors-none parent topology m r [] e h = absurd (cc h)
reference_errors-none parent topology m r (k ∷ l) e h =
    split (known_in parent topology k) refl
      (λ rest c. reference_errors-none parent topology m r l rest c) e
  where
    split :
        (b : Bool)
        → known_in parent topology k ≡ b
        → (no_errors (reference_errors parent topology m l) ≡ true
            → contains r l ≡ true
            → known_in parent topology r ≡ true)
        → no_errors (
            (if b then [] else report incorrect_value m ∷ [])
            ++ reference_errors parent topology m l)
          ≡ true
        → known_in parent topology r ≡ true
    split false known later none_there = absurd (cc none_there)
    split true known later none_there = elim (Bool-cases (k == r)) [
      | inl same ↦ subst (λ x. known_in parent topology x ≡ true) ((eq_iff k r).0 same) known
      | inr other ↦ later none_there (rw other at h)
    ]

abbrev Sound : RefScope → RefScope → RefCheck → Type 0
Sound parent topology c =
    (l : List String) (r : String)
    → c.ok ≡ true
    → c.refs ≡ some l
    → contains r l ≡ true
    → known_in parent topology r ≡ true

checked_list-Sound :
    (parent topology : RefScope) (m : String) (l : List String)
    → Sound parent topology (checked_list parent topology m l)
unfolding checked_list
checked_list-Sound parent topology m l l' r ok same h =
    reference_errors-none parent topology m r l ok
      (subst (λ x. contains r x ≡ true) (sym (some_inj same)) h)

abbrev Nothing : Option (List String) → Type 0
Nothing none = Unit
Nothing (some []) = Unit
Nothing (some (r ∷ rs)) = ⊥

unchecked-Sound :
    (parent topology : RefScope) → Nothing parent.refs → Sound parent topology (unchecked parent)
unfolding contains
unchecked-Sound parent topology empty l r ok same h = nothing_in l (subst Nothing same empty) h
  where
    nothing_in :
        (l : List String)
        → Nothing (some l)
        → contains r l ≡ true
        → known_in parent topology r ≡ true
    nothing_in [] e c = absurd (cc c)
    nothing_in (x ∷ xs) e c = absurd e

default_list-Sound :
    (parent topology : RefScope) (m : String) (l : List String)
    → Nothing parent.refs
    → Sound parent topology (default_list parent topology m l)
default_list-Sound parent topology m [] empty = unchecked-Sound parent topology empty
default_list-Sound parent topology m (r ∷ rs) empty = checked_list-Sound parent topology m (r ∷ rs)

either_Sound :
    (b : Bool) (parent topology : RefScope) (c d : RefCheck)
    → Sound parent topology c
    → Sound parent topology d
    → Sound parent topology (if b then c else d)
either_Sound true parent topology c d hc hd = hc
either_Sound false parent topology c d hc hd = hd

given_list-Sound :
    (parent topology : RefScope) (otherwise : RefCheck) (m : String) (o : Option (List String))
    → (Nothing o → Sound parent topology otherwise)
    → Sound parent topology (given_list parent topology otherwise m o)
given_list-Sound parent topology otherwise m none h = h tt
given_list-Sound parent topology otherwise m (some []) h = h tt
given_list-Sound parent topology otherwise m (some (r ∷ rs)) h =
    checked_list-Sound parent topology m (r ∷ rs)

-- If validate_object_reference_list succeeds, every name in the list that it leaves with the parent,
-- given or created by default, is an object of the parent or of the topology.
pub validate_object_reference_list_sound :
    (parent topology : RefScope) (create_default : Bool) (default_filter : Value → Bool)
    (merge_topology : Bool) (m : String) (l : List String) (r : String)
    → (validate_object_reference_list parent topology create_default default_filter merge_topology
        m).ok
      ≡ true
    → (validate_object_reference_list parent topology create_default default_filter merge_topology
        m).refs
      ≡ some l
    → contains r l ≡ true
    → known_in parent topology r ≡ true
unfolding validate_object_reference_list
validate_object_reference_list_sound parent topology create_default default_filter merge_topology
      m =
    given_list-Sound parent topology
      (created_list parent topology create_default default_filter merge_topology m) m parent.refs
      (λ empty.
        either_Sound (not (is_some parent.objects) || not create_default) parent topology
          (unchecked parent) (default_list parent topology m default)
          (unchecked-Sound parent topology empty)
          (default_list-Sound parent topology m default empty))
  where
    default : List String
    default =
        merged_refs merge_topology topology.refs (filtered_keys default_filter (objects_of parent))
