-- ===== src/Types/Names.antt =====
-- Tests of names against the topology: devices, nodes, groups, prefixes, pools and protocols. The names
-- that the topology and the defaults have are arguments.
use netlab.Prelude.{String, Bool, ◌&&◌, ◌||◌, List, if◌then◌else◌}
use netlab.Prelude.Texts.{contains}
use netlab.Data.{Value, str}
use netlab.Types.Framework.{Status, valid, wrong_type, wrong_value}

unfoldable pub device_status : List String → List String → Bool → Value → Status
unfolding contains
device_status list_of_devices template_devices include_templates (str s) =
    if contains s list_of_devices || (include_templates && contains s template_devices)
    then valid
    else wrong_value
device_status list_of_devices template_devices include_templates v = wrong_type

-- A status with both _type and _value counts as one with _value.
unfoldable pub node_id_status : List String → Value → Status
unfolding contains
node_id_status nodes (str s) = if contains s nodes then valid else wrong_value
node_id_status nodes v = wrong_type

unfoldable pub group_id_status : List String → Value → Status
unfolding contains
group_id_status groups (str s) = if contains s groups then valid else wrong_value
group_id_status groups v = wrong_type

unfoldable pub node_or_group_status : List String → List String → Value → Status
unfolding contains
node_or_group_status nodes groups (str s) =
    if contains s nodes || contains s groups then valid else wrong_value
node_or_group_status nodes groups v = wrong_type

unfoldable pub r_proto_status : List String → Value → Status
unfolding contains
r_proto_status rp_list (str s) = if contains s rp_list then valid else wrong_type
r_proto_status rp_list v = wrong_type

unfoldable pub named_pfx_status : List String → Value → Status
unfolding contains
named_pfx_status prefixes (str s) = if contains s prefixes then valid else wrong_value
named_pfx_status prefixes v = wrong_type

unfoldable pub addr_pool_status : List String → List String → Value → Status
unfolding contains
addr_pool_status pools default_pools (str s) =
    if contains s pools || contains s default_pools then valid else wrong_value
addr_pool_status pools default_pools v = wrong_type
