-- ===== src/Nodes.antt =====
-- netsim/augment/nodes.py: check_duplicate_mgmt_addr. A node is its name and its `mgmt` Box.
use netlab.Prelude.{
  String, ◌≡◌, refl, Bool, true, false, Option, none, some, List, [], ◌∷◌, ◌++◌, any, if◌then◌else◌,
  or_left, or_right,
}
use netlab.Log.{report, incorrect_value, Reports}
use netlab.Data.{Value, null, Fields, get, is_in, value_eq}

-- The address of a family, unless it is missing or None.
abbrev known_value : Option Value → Option Value
known_value none = none
known_value (some null) = none
known_value (some v) = some v

abbrev with_address : Option Value → List Value → List Value
with_address none vs = vs
with_address (some v) vs = v ∷ vs

unfoldable pub mgmt_addresses : String → List (String × Fields) → List Value
unfolding get
mgmt_addresses af [] = []
mgmt_addresses af ((name, mgmt) ∷ nodes) =
    with_address (known_value (get mgmt af)) (mgmt_addresses af nodes)

-- One address family: `used_addr` has the addresses of the nodes before.
unfoldable pub duplicates : List Value → List Value → Reports
unfolding is_in
duplicates used_addr [] = []
duplicates used_addr (a ∷ rest) =
    (if is_in a used_addr then report incorrect_value "nodes" ∷ [] else [])
    ++ duplicates (if is_in a used_addr then used_addr else (a ∷ used_addr)) rest

unfoldable pub check_duplicate_mgmt_addr : List (String × Fields) → Reports
unfolding duplicates mgmt_addresses
check_duplicate_mgmt_addr nodes =
    duplicates [] (mgmt_addresses "ipv4" nodes)
    ++ (duplicates [] (mgmt_addresses "ipv6" nodes) ++ duplicates [] (mgmt_addresses "mac" nodes))

-- No value equals a later one.
abbrev pub NoRepeat : List Value → Type 0
NoRepeat [] = Unit
NoRepeat (a ∷ rest) = (any (value_eq a) rest ≡ false) × NoRepeat rest

reports_empty : (xs ys : Reports) → (xs ++ ys) ≡ [] → (xs ≡ []) × (ys ≡ [])
reports_empty [] ys h = (refl, h)
reports_empty (x ∷ xs) ys h = absurd (cc h)

not_used : (b : Bool) → (if b then report incorrect_value "nodes" ∷ [] else []) ≡ [] → b ≡ false
not_used true h = absurd (cc h)
not_used false h = refl

duplicates-head :
    (used : List Value) (a : Value) (rest : List Value)
    → duplicates used (a ∷ rest) ≡ []
    → (is_in a used ≡ false) × (duplicates (a ∷ used) rest ≡ [])
unfolding duplicates
duplicates-head used a rest h =
    let both = reports_empty _ (duplicates (if is_in a used then used else (a ∷ used)) rest) h in
    let fresh = not_used (is_in a used) both.0 in (fresh, rw fresh at both.1)

apart_from_used :
    (before : List Value) (u : Value) (used rest : List Value)
    → duplicates (before ++ (u ∷ used)) rest ≡ []
    → any (value_eq u) rest ≡ false
unfolding any is_in
apart_from_used before u used [] h = refl
apart_from_used before u used (a ∷ rest) h =
    let d = duplicates-head (before ++ (u ∷ used)) a rest h in
    rw (not_in before d.0) (apart_from_used (a ∷ before) u used rest d.1)
  where
    not_in : (xs : List Value) → is_in a (xs ++ (u ∷ used)) ≡ false → value_eq u a ≡ false
    not_in [] k = or_left (value_eq u a) (is_in a used) k
    not_in (x ∷ xs) k = not_in xs (or_right (value_eq x a) (is_in a (xs ++ (u ∷ used))) k)

duplicates-NoRepeat : (used rest : List Value) → duplicates used rest ≡ [] → NoRepeat rest
duplicates-NoRepeat used [] h = tt
duplicates-NoRepeat used (a ∷ rest) h =
    let d = duplicates-head used a rest h in
    (apart_from_used [] a used rest d.1, duplicates-NoRepeat (a ∷ used) rest d.1)

-- Where check_duplicate_mgmt_addr reports nothing, no two nodes have the same management IPv4, IPv6 or
-- MAC address.
pub check_duplicate_mgmt_addr_unique :
    (nodes : List (String × Fields))
    → check_duplicate_mgmt_addr nodes ≡ []
    → NoRepeat (mgmt_addresses "ipv4" nodes)
      × (NoRepeat (mgmt_addresses "ipv6" nodes) × NoRepeat (mgmt_addresses "mac" nodes))
unfolding check_duplicate_mgmt_addr
check_duplicate_mgmt_addr_unique nodes h =
    let first = reports_empty (duplicates [] (mgmt_addresses "ipv4" nodes)) _ h in
    let others = reports_empty (duplicates [] (mgmt_addresses "ipv6" nodes)) _ first.1 in
    (
      duplicates-NoRepeat [] (mgmt_addresses "ipv4" nodes) first.0,
      (
        duplicates-NoRepeat [] (mgmt_addresses "ipv6" nodes) others.0,
        duplicates-NoRepeat [] (mgmt_addresses "mac" nodes) others.1,
      ),
    )
