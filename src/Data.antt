-- ===== src/Data.antt =====
-- netsim/data/__init__.py: the values that a topology file holds, and the Box (a dictionary with
-- text keys, in insertion order). Keys are plain: a dotted path is the work of the Box library.
mod Box
pub mod Walks
pub mod Appending
pub mod Keywords
pub mod NullRemoval
pub mod Merging
pub mod MergeLaws
pub mod ListLaws
pub use Box.{
  ℤ, pos, negsuc, Value, null, bool, int, str, list, dict, Items, nil, cons, Fields, end, entry,
  get-put, contains-keys, get-pop,
}
unfoldable pub use Box.{get, has, put, pop, keys, elems, items, values, value_eq, is_in, truthy}
