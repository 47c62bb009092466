-- ===== src/Data/Merging.antt =====
-- merge_with_removed_attributes
use netlab.Prelude.{Bool, false, not, Option, none, some, List, String, if◌then◌else◌}
use netlab.Prelude.Texts.{contains}
use netlab.Data.Box.{Value, dict, Fields, end, entry, get, put}
use netlab.Data.Walks.{is_removed, name_in}

abbrev pub out_of_scope : Option (List String) → String → Bool
out_of_scope none k = false
out_of_scope (some scope) k = not (contains k scope)

-- The last two branches: a new key, and a key that both have.
abbrev pub write_key : Fields → String → Value → (Value → Value) → Option Value → Fields
write_key d_to k v merge none = put d_to k v
write_key d_to k v merge (some old) = put d_to k (merge old)

-- One round of the loop; `merge` is the recursive call on the value that `d_to` has.
unfoldable pub merge_key : Fields → String → Value → (Value → Value) → Option (List String) → Fields
merge_key d_to k v merge m_scope =
    if is_removed d_to k
    then d_to
    else if out_of_scope m_scope k
    then d_to
    else write_key d_to k v merge (get d_to k)

unfoldable mutual
  -- what stays under a key that both have
  pub merge_values : Value → Value → Value
  merge_values (dict with_fields) (dict old) = dict (merge_fields with_fields old none)
  merge_values v old = old

  pub merge_fields : Fields → Fields → Option (List String) → Fields
  merge_fields end d_to m_scope = d_to
  merge_fields (entry k v d_with) d_to m_scope =
      merge_fields d_with (merge_key d_to k v (λ old. merge_values v old) m_scope) m_scope

unfoldable pub merge_with_removed_attributes : Fields → Fields → Option (List String) → Fields
unfolding merge_fields merge_key is_removed name_in
merge_with_removed_attributes d_to d_with m_scope = merge_fields d_with d_to m_scope
