-- ===== src/Examples.antt =====
-- The theorems at small inputs, and runs of the definitions that can be followed in the source.
mod DataRuns
mod IdsRuns
mod SortRuns
mod AddressingRuns
mod GroupsRuns
mod BgpRuns
mod ModulesRuns
mod RoutingRuns
mod NodesRuns
mod TypesRuns
mod VxlanRuns
mod VrfRuns
mod EvpnRuns
