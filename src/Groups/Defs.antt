-- ===== src/Groups/Defs.antt =====
-- Groups, nodes and the parts of the topology that the group code uses.
use Prim.Native.Char.{code}
use netlab.Prelude.{
  String, Bool, false, Option, none, some, List, [], ◌∷◌, ◌==◌, eqb, is_some, if◌then◌else◌,
}

-- A missing type is the type 'node'.
pub record Group : Type 0 where
  pub kind : String
  pub members : Option (List String)
  pub device : Option String
  pub modules : Option (List String)
  pub config : Option (List String)
  pub auto_create : Bool
  pub default_group : Bool

pub record Node : Type 0 where
  pub device : Option String
  pub modules : Option (List String)
  pub config : Option (List String)
  pub groups : Option (List String)

pub record Topology : Type 0 where
  pub groups : List (String × Group)
  pub nodes : List (String × Node)
  pub vlans : List String
  pub vrfs : List String
  pub devices : List String
  pub default_groups : List String

-- gname.startswith('_')
abbrev pub is_setting : String → Bool
is_setting String.[] = false
is_setting (String.◌∷◌ c s) = eqb (code c) b'_'

abbrev pub find {ℓ} : {A : Type ℓ} → String → List (String × A) → Option A
find k [] = none
find k ((j, a) ∷ l) = if j == k then some a else find k l

abbrev pub has_key {ℓ} : {A : Type ℓ} → String → List (String × A) → Bool
has_key k l = is_some (find k l)

abbrev pub names {ℓ} : {A : Type ℓ} → List (String × A) → List String
names [] = []
names ((j, a) ∷ l) = j ∷ names l

-- d[k] = a
abbrev pub put_entry {ℓ} : {A : Type ℓ} → String → A → List (String × A) → List (String × A)
put_entry k a [] = (k, a) ∷ []
put_entry k a ((j, b) ∷ l) = if j == k then (j, a) ∷ l else (j, b) ∷ put_entry k a l

-- The names in topology[grp_type + 's'].
abbrev pub namespace : Topology → String → List String
namespace t kind =
    if kind == "node"
    then names t.nodes
    else if kind == "vlan"
    then t.vlans
    else if kind == "vrf"
    then t.vrfs
    else []
