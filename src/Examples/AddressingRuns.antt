-- ===== src/Examples/AddressingRuns.antt =====
-- Address pools: 10.1.0.0/16 with /30 subnets, a loopback pool, and 192.168.0.0/24 in /26 subnets.
use netlab.Prelude.{ℕ, ◌≡◌, refl, List, [], ◌∷◌, ◌++◌, none, some, String}
use netlab.Log.{missing_value, report}
use netlab.Addressing.{
  PoolAttr, network, number, generator, create_pool_generators, get_prefix, allocate,
}
use netlab.Addressing.Networks.{Net, Subnets, nth}
use netlab.Addressing.Disjoint.{Inside}
use netlab.Addressing.Allocation.{
  DisjointFromAll, allocated_nets, allocate_next_fresh, allocate_nth_stable,
}

abbrev lan : Net
lan = record { bits = 32; address = 3232235520; prefixlen = 24 }

abbrev after : ℕ → Subnets
after n = record { base = lan; plen = 26; yielded = n }

abbrev lan_pool : List (String × PoolAttr)
lan_pool = ("ipv4_pfx", network lan) ∷ ("prefix", number 26) ∷ []

generators_run :
    create_pool_generators (("lan", lan_pool) ∷ ("loopback", lan_pool) ∷ []) ("prefix" ∷ [])
    ≡ some (
        ("lan", ("ipv4", generator (after 0) []) ∷ [])
        ∷ ("loopback", ("ipv4", generator (after 1) []) ∷ [])
        ∷ [])
unfolding create_pool_generators
generators_run = refl

exhausted :
    get_prefix (("lan", ("ipv4", generator (after 4) []) ∷ []) ∷ []) ("p2p" ∷ "lan" ∷ []) none
    ≡ some (
      [],
      ("lan", ("ipv4", generator (after 4) []) ∷ []) ∷ [],
      report missing_value "addressing" ∷ [],
    )
unfolding get_prefix
exhausted = refl

third :
    allocate (some 3) (after 0) []
    ≡ some
        (some (nth (after 0) 2), after 3, nth (after 0) 0 ∷ nth (after 0) 1 ∷ nth (after 0) 2 ∷ [])
unfolding allocate
third = refl

then_next :
    allocate none (after 3) (nth (after 0) 0 ∷ nth (after 0) 1 ∷ nth (after 0) 2 ∷ [])
    ≡ some
        (some (nth (after 0) 3), after 4, nth (after 0) 0 ∷ nth (after 0) 1 ∷ nth (after 0) 2 ∷ [])
unfolding allocate
then_next = refl

-- The first prefix of the pool.
first_prefix : allocate none (after 0) [] ≡ some (some (nth (after 0) 0), after 1, [])
unfolding allocate
first_prefix = refl

allocate_next_fresh_example :
    Inside (nth (after 0) 3) lan
    × ((nth (after 0) 3).prefixlen ≡ 26)
    × DisjointFromAll (nth (after 0) 3) (allocated_nets (after 3))
    × (allocated_nets (after 4) ≡ allocated_nets (after 3) ++ (nth (after 0) 3 ∷ []))
    × (◌≡◌ {A = List Net}
        (nth (after 0) 0 ∷ nth (after 0) 1 ∷ nth (after 0) 2 ∷ [])
        (nth (after 0) 0 ∷ nth (after 0) 1 ∷ nth (after 0) 2 ∷ []))
allocate_next_fresh_example =
    allocate_next_fresh (after 3) (after 4)
      (nth (after 0) 0 ∷ nth (after 0) 1 ∷ nth (after 0) 2 ∷ [])
      (nth (after 0) 0 ∷ nth (after 0) 1 ∷ nth (after 0) 2 ∷ []) (nth (after 0) 3) then_next

allocate_nth_stable_example :
    allocate (some 3) (after 4) (nth (after 0) 0 ∷ nth (after 0) 1 ∷ nth (after 0) 2 ∷ [])
    ≡ some
        (some (nth (after 0) 2), after 4, nth (after 0) 0 ∷ nth (after 0) 1 ∷ nth (after 0) 2 ∷ [])
allocate_nth_stable_example =
    allocate_nth_stable 2 none (after 0) (after 3) (after 4) []
      (nth (after 0) 0 ∷ nth (after 0) 1 ∷ nth (after 0) 2 ∷ [])
      (nth (after 0) 0 ∷ nth (after 0) 1 ∷ nth (after 0) 2 ∷ []) (nth (after 0) 2)
      (some (nth (after 0) 3)) third then_next
