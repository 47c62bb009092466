-- ===== src/Data/Keywords.antt =====
-- kw_lookup and kw_list_transform: the translation of netlab keywords to device keywords.
use netlab.Prelude.{true, false, Option, none, some, List, [], ◌∷◌, String}
use netlab.Data.Box.{Value, null, bool, str, list, Fields, get, elems}
use netlab.Data.Appending.{append_each}

abbrev translated : String → Option Value → List Value
translated kw none = []
translated kw (some null) = str kw ∷ []
translated kw (some (bool true)) = str kw ∷ []
translated kw (some (bool false)) = []
translated kw (some (list vs)) = elems vs
translated kw (some v) = v ∷ []

unfoldable pub kw_lookup : Fields → String → List Value
unfolding get elems
kw_lookup lookup_table kw = translated kw (get lookup_table kw)

-- The outer loop, with the list built so far.
unfoldable pub transform_from : Fields → List Value → List String → List Value
unfolding append_each kw_lookup
transform_from lookup_table xf_list [] = xf_list
transform_from lookup_table xf_list (kw ∷ kws) =
    transform_from lookup_table (append_each xf_list (kw_lookup lookup_table kw)) kws

unfoldable pub kw_list_transform : Fields → List String → List Value
unfolding transform_from
kw_list_transform lookup_table kw_list = transform_from lookup_table [] kw_list
