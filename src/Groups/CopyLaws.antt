-- ===== src/Groups/CopyLaws.antt =====
-- copy_group_device_module: a device that a node has stays.
use netlab.Prelude.{
  String, ◌≡◌, refl, Bool, not, ◌&&◌, Option, none, some, List, [], ◌∷◌, ◌==◌, Bool-cases,
  Option-cases, inl, inr, subst,
}
use netlab.Log.{Reports}
use netlab.Groups.Defs.{Group, Node, Topology, find}
use netlab.Groups.Members.{group_members}
use netlab.Groups.Topsort.{reverse_topsort}
use netlab.Groups.Copying.{
  update_node, update_nodes, set_device, add_modules, copy_to_members, copy_device, copy_modules,
  for_groups, with_reports, then_modules, copy_group_device_module, no_members,
}

-- node.device
abbrev device_in : Option Node → Option String
device_in none = none
device_in (some n) = n.device

abbrev pub device_at : List (String × Node) → String → Option String
device_at nodes name = device_in (find name nodes)

abbrev KeepsDevice : (Node → Node) → Type 0
KeepsDevice f = (n : Node) (d : String) → n.device ≡ some d → (f n).device ≡ some d

set_device-KeepsDevice : (e : String) → KeepsDevice (set_device e)
unfolding set_device
set_device-KeepsDevice e n d h = rw h refl

add_modules-KeepsDevice : (ms : List String) → KeepsDevice (add_modules ms)
unfolding add_modules
add_modules-KeepsDevice ms n d h = h

update_node-device :
    (f : Node → Node) (name m d : String) (nodes : List (String × Node))
    → KeepsDevice f
    → device_at nodes name ≡ some d
    → device_at (update_node f m nodes) name ≡ some d
unfolding update_node
update_node-device f name m d [] keeps h = h
update_node-device f name m d ((j, n) ∷ nodes) keeps h = elim (Bool-cases (j == m)) [
  | inl same ↦ rw same (elim (Bool-cases (j == name)) [
    | inl here ↦ rw here (keeps n d (rw here at h))
    | inr there ↦ rw there (rw there at h)
  ])
  | inr other ↦ rw other (elim (Bool-cases (j == name)) [
    | inl here ↦ rw here (rw here at h)
    | inr there ↦ rw there (update_node-device f name m d nodes keeps (rw there at h))
  ])
]

update_nodes-device :
    (f : Node → Node) (name d : String) (ms : List String) (nodes : List (String × Node))
    → KeepsDevice f
    → device_at nodes name ≡ some d
    → device_at (update_nodes f ms nodes) name ≡ some d
unfolding update_nodes
update_nodes-device f name d [] nodes keeps h = h
update_nodes-device f name d (m ∷ ms) nodes keeps h =
    update_nodes-device f name d ms (update_node f m nodes) keeps
      (update_node-device f name m d nodes keeps h)

-- The result, if there is one, keeps the device of the node.
abbrev StillAt : String → String → Option (Topology × Reports) → Type 0
StillAt name d none = Unit
StillAt name d (some (t, errors)) = device_at t.nodes name ≡ some d

copy_to_members-device :
    (default_group : Bool) (f : Node → Node) (ms : Option (List String)) (t : Topology)
    (name d : String)
    → KeepsDevice f
    → device_at t.nodes name ≡ some d
    → StillAt name d (copy_to_members default_group f ms t)
copy_to_members-device default_group f none t name d keeps h = tt
copy_to_members-device default_group f (some ms) t name d keeps h =
    elim (Bool-cases (no_members ms && not default_group)) [
      | inl empty ↦ rw empty h
      | inr some_members ↦ rw some_members (update_nodes-device f name d ms t.nodes keeps h)
    ]

abbrev Keeping : (String → Topology → Option Group → Option (Topology × Reports)) → Type 0
Keeping step =
    (g : String) (t : Topology) (o : Option Group) (name d : String)
    → device_at t.nodes name ≡ some d
    → StillAt name d (step g t o)

copy_device-Keeping : Keeping copy_device
copy_device-Keeping g t none name d h = h
copy_device-Keeping g t (some o) name d h = elim (Option-cases o.device) [
  | inl e ↦ rw e h
  | inr (v, e) ↦ rw e (
      copy_to_members-device o.default_group (set_device v) (group_members t g "node").0 t name d
        (set_device-KeepsDevice v) h)
]

copy_modules-Keeping : Keeping copy_modules
copy_modules-Keeping g t none name d h = h
copy_modules-Keeping g t (some o) name d h = elim (Option-cases o.modules) [
  | inl e ↦ rw e h
  | inr (ms, e) ↦ rw e (
      copy_to_members-device o.default_group (add_modules ms) (group_members t g "node").0 t name d
        (add_modules-KeepsDevice ms) h)
]

with_reports-StillAt :
    (errors : Reports) (r : Option (Topology × Reports)) (name d : String)
    → StillAt name d r
    → StillAt name d (with_reports errors r)
with_reports-StillAt errors none name d h = h
with_reports-StillAt errors (some (t, more)) name d h = h

rest_StillAt :
    (rest : Topology → Option (Topology × Reports)) (r : Option (Topology × Reports))
    (name d : String)
    → StillAt name d r
    → ((t : Topology) → device_at t.nodes name ≡ some d → StillAt name d (rest t))
    → StillAt name d (elim r [ none ↦ none | some (t', errors) ↦ with_reports errors (rest t') ])
rest_StillAt rest none name d h k = tt
rest_StillAt rest (some (t', errors)) name d h k =
    with_reports-StillAt errors (rest t') name d (k t' h)

for_groups-StillAt :
    (step : String → Topology → Option Group → Option (Topology × Reports)) (gs : List String)
    (t : Topology) (name d : String)
    → Keeping step
    → device_at t.nodes name ≡ some d
    → StillAt name d (for_groups step gs t)
unfolding for_groups
for_groups-StillAt step [] t name d keeps h = h
for_groups-StillAt step (g ∷ gs) t name d keeps h =
    rest_StillAt (for_groups step gs) (step g t (find g t.groups)) name d
      (keeps g t (find g t.groups) name d h) (λ t' k. for_groups-StillAt step gs t' name d keeps k)

then_modules-StillAt :
    (gs : List String) (r : Option (Topology × Reports)) (name d : String)
    → StillAt name d r
    → StillAt name d (then_modules gs r)
then_modules-StillAt gs none name d h = tt
then_modules-StillAt gs (some (t, errors)) name d h =
    with_reports-StillAt errors (for_groups copy_modules gs t) name d
      (for_groups-StillAt copy_modules gs t name d copy_modules-Keeping h)

copy-StillAt :
    (t : Topology) (name d : String)
    → device_at t.nodes name ≡ some d
    → StillAt name d (copy_group_device_module t)
unfolding copy_group_device_module
copy-StillAt t name d h = elim (Option-cases (reverse_topsort t)) [
  | inl e ↦ rw (e, StillAt) tt
  | inr (gs, e) ↦
      rw (e, StillAt)
        (then_modules-StillAt gs (for_groups copy_device gs t) name d
          (for_groups-StillAt copy_device gs t name d copy_device-Keeping h))
]

-- A node that has a device before copy_group_device_module has the same device after it, whatever
-- groups it is in.
pub copy_group_device_module_device :
    (t t' : Topology) (errors : Reports) (name d : String)
    → device_at t.nodes name ≡ some d
    → copy_group_device_module t ≡ some (t', errors)
    → device_at t'.nodes name ≡ some d
copy_group_device_module_device t t' errors name d h r =
    subst (StillAt name d) r (copy-StillAt t name d h)
