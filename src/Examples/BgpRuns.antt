-- ===== src/Examples/BgpRuns.antt =====
-- Three routers of AS 65000, one of them a route reflector, and a neighbor in AS 65100.
use netlab.Prelude.{◌≡◌, refl, String, true, false, List, [], ◌∷◌, none, some, ◌&&◌}
use netlab.Prelude.Texts.{contains}
use netlab.Data.{Value, int, pos, str, bool, dict, Fields, end, entry, get, value_eq, truthy}
use netlab.Bgp.{BgpNode, Sessions, bgp_as}
use netlab.Bgp.Ebgp.{BgpFeatures, ebgp_session}
use netlab.Bgp.Ibgp.{build_ibgp_sessions}
use netlab.Bgp.IbgpLaws.{session_with, reachable, ibgp_sessions_symmetric}
use netlab.Bgp.AsNumbers.{PeersAs, ShownAs, SessionKind}
use netlab.Bgp.SessionLaws.{ebgp_session_facts}

abbrev router : String → Fields → BgpNode
router name bgp = record {
  name = name;
  bgp = some (dict bgp);
  loopback = some (entry "ipv4" (str "10.0.0.1") end);
  daemon = false;
  role = none;
  interfaces = [];
  modules = [];
  vrfs = end;
}

abbrev as_entry : Fields
as_entry = entry "as" (int (pos 65000)) end

abbrev reflector : BgpNode
reflector = router "rr" (entry "rr" (bool true) as_entry)

abbrev client : BgpNode
client = router "pe" as_entry

abbrev routers : List BgpNode
routers = reflector ∷ client ∷ router "ce" (entry "as" (int (pos 65100)) end) ∷ []

abbrev all_sessions : Sessions
all_sessions = record { ipv4 = "ibgp" ∷ "ebgp" ∷ []; ipv6 = "ibgp" ∷ "ebgp" ∷ [] }

abbrev same_text : Value → Value
same_text v = v

ibgp_symmetric_example :
    session_with "pe"
      (build_ibgp_sessions same_text (str "external") reflector all_sessions routers true []).0
    ≡ session_with "rr"
        (build_ibgp_sessions same_text (str "external") client all_sessions routers true []).0
unfolding contains get reachable
ibgp_symmetric_example =
    ibgp_sessions_symmetric same_text (str "external") reflector client all_sessions all_sessions
      routers true [] 65000 (refl, (refl, (refl, tt))) refl refl refl refl refl refl refl

has_session :
    session_with "pe"
      (build_ibgp_sessions same_text (str "external") reflector all_sessions routers true []).0
    ≡ true
unfolding session_with build_ibgp_sessions truthy
has_session = refl

abbrev all_features : BgpFeatures
all_features = record {
  local_as = true;
  vrf_local_as = true;
  ipv6_lla = true;
  rfc8950 = true;
  local_as_ibgp = true;
}

abbrev link : Fields
link = entry "ifindex" (int (pos 1)) (entry "ipv4" (str "10.1.0.1") end)

abbrev far_end : Fields
far_end = entry "node" (str "ce") (entry "ipv4" (str "10.1.0.2") end)

abbrev left : Fields → Fields → Fields
left b c = b

abbrev ce : BgpNode
ce = router "ce" (entry "as" (int (pos 65100)) end)

abbrev session_data : Fields
session_data = entry "ifindex" (int (pos 1)) (
    entry "name" (str "ce") (
      entry "as" (int (pos 65100)) (entry "type" (str "ebgp") (entry "ipv4" (str "10.1.0.2") end))))

ebgp_session_example :
    (own : Value) × (shown : Value) × (other : Value) × (kind : String) × PeersAs client link
      (bgp_as client)
      own
    × ShownAs ce own shown
    × PeersAs ce far_end shown other
    × SessionKind client own other kind
    × (get session_data "as" ≡ some other)
    × (get session_data "type" ≡ some (str kind))
    × (truthy other ≡ true)
    × ((value_eq (bgp_as client) shown && value_eq own other) ≡ false)
unfolding ebgp_session
ebgp_session_example =
    ebgp_session_facts left same_text all_features client all_sessions link ce far_end session_data
      refl
