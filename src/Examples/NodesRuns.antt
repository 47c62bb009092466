-- ===== src/Examples/NodesRuns.antt =====
-- Two nodes with management addresses
use netlab.Prelude.{refl, String, List, [], ◌∷◌}
use netlab.Data.{str, Fields, end, entry, get, value_eq}
use netlab.Nodes.{
  NoRepeat, mgmt_addresses, check_duplicate_mgmt_addr, check_duplicate_mgmt_addr_unique,
}

abbrev managed : List (String × Fields)
managed =
    ("r1", entry "ipv4" (str "192.168.121.101") end)
    ∷ ("r2", entry "ipv4" (str "192.168.121.102") end)
    ∷ []

unique_mgmt_example :
    NoRepeat (mgmt_addresses "ipv4" managed)
    × (NoRepeat (mgmt_addresses "ipv6" managed) × NoRepeat (mgmt_addresses "mac" managed))
unfolding check_duplicate_mgmt_addr get value_eq
unique_mgmt_example = check_duplicate_mgmt_addr_unique managed refl
