-- ===== src/Modules.antt =====
-- netsim/modules/__init__.py, with the device lookups of netsim/augment/devices.py: the lists of
-- configuration modules, what they require, and the attributes that objects inherit.
pub mod Attributes
pub mod Usage
pub mod AttributeLaws
pub mod Collect
pub mod OrderLaws
pub mod CollectLaws
pub mod UsageLaws
pub mod References
pub mod ReferenceLaws
pub mod ReferenceLists
