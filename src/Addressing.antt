-- ===== src/Addressing.antt =====
-- netsim/augment/addressing.py: address pools and the prefixes that are allocated from them.
-- Networks are those of Python's ipaddress, as numbers: a first address and a prefix length in a
-- family of `bits` address bits. Text forms of addresses are not modelled.
pub mod Networks
pub mod Disjoint
pub mod Allocation
use netlab.Prelude.{
  ℕ, zero, suc, ◌+◌, ◌-◌, String, Bool, true, false, ◌&&◌, ◌||◌, Option, none, some, List, [], ◌∷◌,
  ◌++◌, ◌==◌, length, get_elem?, eqb, leb, if◌then◌else◌,
}
use netlab.Log.{incorrect_value, missing_value, report, Reports}
use netlab.Data.{Value, Fields, get}
use Networks.{Net, Subnets, subnets_of, Next, yields, stops, raises, next_subnet, host_of}

-- An attribute of a pool definition: `ipv4_pfx` and `ipv6_pfx` hold networks.
pub data PoolAttr : Type 0 where
  network : Net → PoolAttr
  number : ℕ → PoolAttr
  plain : Value → PoolAttr

-- What create_pool_generators leaves in a pool. The list `cache_<af>` that get_pool_prefix makes
-- stands beside the generator `<af>` that fills it.
pub data PoolEntry : Type 0 where
  generator : Subnets → List Net → PoolEntry
  attribute : PoolAttr → PoolEntry

abbrev pub find {ℓ} : {A : Type ℓ} → String → List (String × A) → Option A
find k [] = none
find k ((j, a) ∷ l) = if j == k then some a else find k l

-- key.replace('_pfx','') of a key that has '_pfx' in it
abbrev pub family_of : String → Option String
family_of key =
    if key == "ipv4_pfx" then some "ipv4" else if key == "ipv6_pfx" then some "ipv6" else none

abbrev number_of : Option PoolAttr → Option ℕ
number_of (some (number n)) = some n
number_of _ = none

-- pfx['prefix'] if af == 'ipv4' else pfx.get('prefix6',64)
abbrev pub subnet_length : String → List (String × PoolAttr) → Option ℕ
subnet_length af pfx =
    if af == "ipv4"
    then number_of (find "prefix" pfx)
    else elim (find "prefix6" pfx) [ none ↦ some 64 | some a ↦ number_of (some a) ]

-- whether the first subnet is thrown away
abbrev pub skips_first : String → String → ℕ → Bool
skips_first pool af plen =
    (af == "ipv4" && eqb plen 32) || (af == "ipv6" && leb 127 plen) || pool == "loopback"

-- `none` where an exception ends the program: nothing handles one of the first `next`
abbrev skip_if : Bool → Subnets → Option PoolEntry
skip_if false g = some (generator g [])
skip_if true g = elim (next_subnet g) [ yields n g' ↦ some (generator g' []) | _ ↦ none ]

abbrev pub pool_generator : String → String → Option ℕ → PoolAttr → Option PoolEntry
pool_generator pool af (some plen) (network n) =
    skip_if (skips_first pool af plen) (subnets_of n plen)
pool_generator pool af _ _ = none

abbrev contains_key : String → List String → Bool
contains_key k [] = false
contains_key k (j ∷ js) = j == k || contains_key k js

abbrev with_entry :
    String
    → Option PoolEntry
    → Option (List (String × PoolEntry))
    → Option (List (String × PoolEntry))
with_entry k (some e) (some es) = some ((k, e) ∷ es)
with_entry k _ _ = none

-- The inner loop, over the attributes that are left; `pfx` is the whole definition.
pool_entries :
    String
    → List String
    → List (String × PoolAttr)
    → List (String × PoolAttr)
    → Option (List (String × PoolEntry))
unfolding next_subnet subnets_of
pool_entries pool no_copy_list pfx [] = some []
pool_entries pool no_copy_list pfx ((key, value) ∷ rest) =
    let more = pool_entries pool no_copy_list pfx rest in
    elim (family_of key) [
      | some af ↦ with_entry af (pool_generator pool af (subnet_length af pfx) value) more
      | none ↦
          if contains_key key no_copy_list
          then more
          else with_entry key (some (attribute value)) more
    ]

abbrev with_pool :
    String
    → Option (List (String × PoolEntry))
    → Option (List (String × List (String × PoolEntry)))
    → Option (List (String × List (String × PoolEntry)))
with_pool p (some es) (some ps) = some ((p, es) ∷ ps)
with_pool p _ _ = none

unfoldable pub create_pool_generators :
    List (String × List (String × PoolAttr))
    → List String
    → Option (List (String × List (String × PoolEntry)))
unfolding pool_entries
create_pool_generators [] no_copy_list = some []
create_pool_generators ((pool, pfx) ∷ addrs) no_copy_list =
    with_pool pool (pool_entries pool no_copy_list pfx pfx)
      (create_pool_generators addrs no_copy_list)

abbrev pub is_pool {ℓ} : {A : Type ℓ} → String → List (String × A) → Bool
is_pool p pools = elim (find p pools) [ none ↦ false | some _ ↦ true ]

-- The first pool of the list that exists, or an error.
unfoldable pub get_pool {ℓ} :
    {A : Type ℓ} → List (String × A) → List String → Option String × Reports
get_pool pools [] = (none, report missing_value "addressing" ∷ [])
get_pool pools (p ∷ pool_list) =
    let rest = get_pool pools pool_list in
    elim (is_pool p pools) [ true ↦ (some p, []) | false ↦ rest ]

-- The `while` loop of get_nth_subnet with the rounds that are left: whether it ended without
-- StopIteration, and the generator and the cache as they are then. What was cached before a
-- StopIteration stays cached. `none` is a ValueError, which nothing handles.
unfoldable pub fill : ℕ → Subnets → List Net → Option (Bool × Subnets × List Net)
unfolding next_subnet
fill zero subnet cache_list = some (true, subnet, cache_list)
fill (suc k) subnet cache_list = elim (next_subnet subnet) [
  | yields n subnet' ↦ fill k subnet' (cache_list ++ (n ∷ []))
  | stops ↦ some (false, subnet, cache_list)
  | raises ↦ none
]

-- A subnet or StopIteration, with the generator and its cache after the call.
abbrev pub Draw : Type 0
Draw = Option (Option Net × Subnets × List Net)

abbrev pub pick : ℕ → Option (Bool × Subnets × List Net) → Draw
pick n none = none
pick n (some (true, subnet, cache)) = some (get_elem? cache (n - 1), subnet, cache)
pick n (some (false, subnet, cache)) = some (none, subnet, cache)

-- The caller passes a positive n.
unfoldable pub get_nth_subnet : ℕ → Subnets → List Net → Draw
unfolding fill
get_nth_subnet n subnet cache_list = pick n (fill (n - length cache_list) subnet cache_list)

-- A prefix in the result, or an attribute copied from the pool.
pub data Allocated : Type 0 where
  prefix : Net → Allocated
  copied : PoolAttr → Allocated

abbrev pub allocated : String → Option Net → List (String × Allocated)
allocated af none = []
allocated af (some n) = (af, prefix n) ∷ []

abbrev pub ran_out : Option Net → Option ℕ → Reports
ran_out (some n) _ = []
ran_out none (some (suc n)) = report incorrect_value "addressing" ∷ []
ran_out none _ = report missing_value "addressing" ∷ []

abbrev pub drawn_next : Next → Subnets → List Net → Draw
drawn_next (yields n g') g cache = some (some n, g', cache)
drawn_next stops g cache = some (none, g, cache)
drawn_next raises g cache = none

-- One generator: the n-th subnet, or the next one when n is missing or zero.
unfoldable pub allocate : Option ℕ → Subnets → List Net → Draw
unfolding get_nth_subnet
allocate (some (suc n)) g cache = get_nth_subnet (suc n) g cache
allocate _ g cache = drawn_next (next_subnet g) g cache

-- The prefixes, the pool after the call and the errors; `none` where an exception ends the program.
abbrev pub PrefixResult : Type 0
PrefixResult = Option (List (String × Allocated) × List (String × PoolEntry) × Reports)

abbrev pub with_attribute : String → PoolAttr → PrefixResult → PrefixResult
with_attribute key a none = none
with_attribute key a (some (prefixes, pool, errors)) =
    some ((key, copied a) ∷ prefixes, (key, attribute a) ∷ pool, errors)

abbrev pub with_draw : String → Option ℕ → Draw → PrefixResult → PrefixResult
with_draw af n (some (found, g, cache)) (some (prefixes, pool, errors)) =
    some (allocated af found ++ prefixes, (af, generator g cache) ∷ pool, ran_out found n ++ errors)
with_draw af n _ _ = none

unfoldable pub get_pool_prefix : List (String × PoolEntry) → Option ℕ → PrefixResult
unfolding allocate
get_pool_prefix [] n = some ([], [], [])
get_pool_prefix ((key, attribute a) ∷ pool) n = with_attribute key a (get_pool_prefix pool n)
get_pool_prefix ((af, generator g cache) ∷ pool) n =
    with_draw af n (allocate n g cache) (get_pool_prefix pool n)

-- pools[p] = pool
abbrev pub set_pool {ℓ} : {A : Type ℓ} → String → A → List (String × A) → List (String × A)
set_pool p a [] = []
set_pool p a ((q, b) ∷ l) = if q == p then (q, a) ∷ l else (q, b) ∷ set_pool p a l

abbrev pub Pools : Type 0
Pools = List (String × List (String × PoolEntry))

abbrev pub put_back :
    Pools → String → Reports → PrefixResult → Option (List (String × Allocated) × Pools × Reports)
put_back pools p errors none = none
put_back pools p errors (some (prefixes, pool, more)) =
    some (prefixes, set_pool p pool pools, errors ++ more)

abbrev pub prefix_from :
    Pools
    → Option String
    → Reports
    → Option ℕ
    → Option (List (String × Allocated) × Pools × Reports)
prefix_from pools none errors n = some ([], pools, errors)
prefix_from pools (some p) errors n = elim (find p pools) [
  | none ↦ some ([], pools, errors)
  | some pool ↦ put_back pools p errors (get_pool_prefix pool n)
]

abbrev or_lan : List String → List String
or_lan [] = "lan" ∷ []
or_lan (p ∷ ps) = p ∷ ps

-- addressing.get
unfoldable pub get_prefix :
    Pools → List String → Option ℕ → Option (List (String × Allocated) × Pools × Reports)
unfolding get_pool get_pool_prefix
get_prefix pools pool_list n =
    let (p, errors) = get_pool pools (or_lan pool_list) in prefix_from pools p errors n

-- net[host] with the length of the prefix; `none` is IndexError
unfoldable pub get_nth_ip_from_prefix : Net → ℕ → Option (ℕ × ℕ)
unfolding host_of
get_nth_ip_from_prefix pfx host = host_of pfx host
