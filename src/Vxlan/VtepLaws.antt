-- ===== src/Vxlan/VtepLaws.antt =====
-- build_vtep_list: which endpoints are in the flood list of a VLAN, and how often.
use netlab.Prelude.{
  ◌≡◌, refl, String, Bool, true, false, not, ◌&&◌, ◌||◌, List, [], ◌∷◌, ◌++◌, ◌==◌, any, arith,
  eq_refl, Bool-cases, inl, inr, if◌then◌else◌,
}
use netlab.Data.{Value, null, str, Fields, get, has, values, is_in, value_eq}
use netlab.Data.ListLaws.{value_eq-str, is_in-append, IsUnique, UniqueAfter-append_one}
use netlab.Modules.Attributes.{inner_box}
use netlab.Vxlan.Vtep.{
  vtep_of, is_vtep, same_vni, with_remote, remote_step, remote_vteps, build_vtep_list,
  local_vtep_of, value_or_box,
}

-- Another node `n` has VLANs, one of them with the VNI, and its VTEP is `s`.
abbrev pub floods_to : String → Value → Fields → String → String → Bool
floods_to node vni nodes s n =
    let ndata = inner_box (get nodes n) in
    not (n == node)
    && (has ndata "vlans"
        && (value_eq (vtep_of ndata) (str s)
            && any (same_vni vni) (values (inner_box (get ndata "vlans")))))

module _ (local_vtep vni : Value) (ndata : Fields) (s : String) where
  is_in_self : is_in (str s) (str s ∷ []) ≡ true
  unfolding is_in value_eq
  is_in_self = ground (arith, eq_refl s)

  is_in-with_remote_same :
      (vteps : List Value)
      → is_in (str s) (with_remote local_vtep vni ndata (str s) vteps) ≡ (
          is_in (str s) vteps
          || (not (value_eq (str s) local_vtep)
              && any (same_vni vni) (values (inner_box (get ndata "vlans")))))
  is_in-with_remote_same vteps = ground (arith, is_in-append (str s) vteps (str s ∷ []), is_in_self)

  is_in-with_remote_other :
      (v : Value) (vteps : List Value)
      → value_eq v (str s) ≡ false
      → is_in (str s) (with_remote local_vtep vni ndata v vteps) ≡ is_in (str s) vteps
  unfolding is_in
  is_in-with_remote_other v vteps other = ground (arith, is_in-append (str s) vteps (v ∷ []))

  null_no_text : value_eq null (str s) ≡ false
  unfolding value_eq
  null_no_text = refl

  is_in-with_remote :
      (v : Value) (vteps : List Value)
      → is_in (str s) (with_remote local_vtep vni ndata v vteps) ≡ (
          is_in (str s) vteps
          || (not (value_eq (str s) local_vtep)
              && (value_eq v (str s)
                  && any (same_vni vni) (values (inner_box (get ndata "vlans"))))))
  unfolding value_eq
  is_in-with_remote v vteps = elim (Bool-cases (value_eq v (str s))) [
    | inl same ↦ rw (value_eq-str v s same, eq_refl s) (is_in-with_remote_same vteps)
    | inr other ↦ rw (is_in-with_remote_other v vteps other, other) (ground arith)
  ]

module _ (node : String) (local_vtep vni : Value) (nodes : Fields) (s : String) where
  is_in-remote_step :
      (n : String) (vteps : List Value)
      → is_in (str s) (remote_step node local_vtep vni nodes n vteps) ≡ (
          is_in (str s) vteps
          || (not (value_eq (str s) local_vtep) && floods_to node vni nodes s n))
  is_in-remote_step n vteps = ground (
    arith,
    is_in-with_remote local_vtep vni (inner_box (get nodes n)) s (vtep_of (inner_box (get nodes n)))
        vteps,
  )

  is_in-remote_vteps :
      (ns : List String) (vteps : List Value)
      → is_in (str s) (remote_vteps node local_vtep vni nodes ns vteps) ≡ (
          is_in (str s) vteps
          || (not (value_eq (str s) local_vtep) && any (floods_to node vni nodes s) ns))
  unfolding remote_vteps any
  is_in-remote_vteps [] vteps = ground arith
  is_in-remote_vteps (n ∷ ns) vteps = ground (
    arith,
    is_in-remote_vteps ns (remote_step node local_vtep vni nodes n vteps),
    is_in-remote_step n vteps,
  )

either_IsUnique :
    (b : Bool) (xs ys : List Value) → IsUnique xs → IsUnique ys → IsUnique (if b then xs else ys)
either_IsUnique true xs ys u v = u
either_IsUnique false xs ys u v = v

module _ (node : String) (local_vtep vni : Value) (nodes : Fields) where
  with_remote-IsUnique :
      (ndata : Fields) (v : Value) (vteps : List Value)
      → IsUnique vteps
      → IsUnique (with_remote local_vtep vni ndata v vteps)
  with_remote-IsUnique ndata v vteps u = elim (Bool-cases (is_in v vteps)) [
    | inl old ↦
        rw old (either_IsUnique _ vteps _ u (either_IsUnique (value_eq v local_vtep) vteps _ u u))
    | inr new ↦ rw new (
        either_IsUnique (not (is_vtep v)) vteps _ u (
          either_IsUnique (value_eq v local_vtep) vteps _ u (
            either_IsUnique (any (same_vni vni) (values (inner_box (get ndata "vlans"))))
              (vteps ++ v ∷ []) vteps (UniqueAfter-append_one [] vteps v u new) u)))
  ]

  remote_step-IsUnique :
      (n : String) (vteps : List Value)
      → IsUnique vteps
      → IsUnique (remote_step node local_vtep vni nodes n vteps)
  remote_step-IsUnique n vteps u =
      let ndata = inner_box (get nodes n) in
      either_IsUnique (n == node) vteps _ u (
        either_IsUnique (not (has ndata "vlans")) vteps _ u
          (with_remote-IsUnique ndata (vtep_of ndata) vteps u))

  remote_vteps-IsUnique :
      (ns : List String) (vteps : List Value)
      → IsUnique vteps
      → IsUnique (remote_vteps node local_vtep vni nodes ns vteps)
  unfolding remote_vteps
  remote_vteps-IsUnique [] vteps u = u
  remote_vteps-IsUnique (n ∷ ns) vteps u =
      remote_vteps-IsUnique ns (remote_step node local_vtep vni nodes n vteps)
        (remote_step-IsUnique n vteps u)

-- A text is in the flood list of a VLAN exactly when it is not the VTEP of the node itself and is the
-- VTEP of another node of the domain that has a VLAN with the same VNI, in whatever order the nodes
-- are listed; and the list has no VTEP twice.
pub build_vtep_list_members :
    (vlan : Fields) (node : String) (domain : List String) (nodes : Fields) (s : String)
    → (is_in (str s) (build_vtep_list vlan node domain nodes).1 ≡ (
        not (value_eq (str s) (local_vtep_of node nodes))
        && any (floods_to node (value_or_box (get vlan "vni")) nodes s) domain))
      × IsUnique (build_vtep_list vlan node domain nodes).1
unfolding build_vtep_list is_in
build_vtep_list_members vlan node domain nodes s = (
  is_in-remote_vteps node (local_vtep_of node nodes) (value_or_box (get vlan "vni")) nodes s domain
      [],
  remote_vteps-IsUnique node (local_vtep_of node nodes) (value_or_box (get vlan "vni")) nodes domain
      [] tt,
)
