-- ===== src/Types.antt =====
-- netsim/data/types.py: the framework of type tests and the tests. A status with `_transform` is kept
-- with the value that the transformation gives.
pub mod Dotted
pub mod Framework
pub mod Scalars
pub mod Numbers
pub mod Addresses
pub mod Names
pub mod FrameworkLaws
pub mod NumberLaws
pub mod ScalarLaws
