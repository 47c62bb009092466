-- ===== src/Bgp/IbgpLaws.antt =====
-- build_ibgp_sessions: the sessions, seen from both ends
use netlab.Prelude.{
  ℕ, String, ◌≡◌, refl, sym, ap, ◌∙◌, Bool, true, false, not, ◌&&◌, ◌||◌, Option, none, some, List,
  [], ◌∷◌, ◌==◌, any, is_some, keep, if◌then◌else◌,
}
use netlab.Prelude.Distinct.{IsDistinct}
use netlab.Data.{Value, int, pos, bool, str, dict, Fields, get, has, put, get-put}
use netlab.Bgp.Nodes.{
  BgpNode, Sessions, node_at, bgp_as, bgp_attr, attr_set, bgp_neighbor, af_used, get_neighbor_rr,
  get_remote_ibgp_endpoint, is_rr,
}
use netlab.Bgp.Ibgp.{
  ibgp_neighbors, ibgp_ngb_list, ibgp_data, add_neighbor, build_ibgp_sessions, with_source,
  with_nhs, with_client,
}
use netlab.Bgp.Symmetry.{
  named, in_list, node_names, ibgp_ngb_list-keep, named-keep, named-keep_cons, keep-keep,
  in_list_symmetric,
}
use netlab.Bgp.SessionLaws.{bgp_neighbor-name}

abbrev name_is : String → Option Value → Bool
name_is s (some (str t)) = t == s
name_is s _ = false

-- Is there a session with the node of this name?
unfoldable pub session_with : String → List Fields → Bool
unfolding any get
session_with s ngbs = any (λ ngb. name_is s (get ngb "name")) ngbs

ibgp_data-name : (node : BgpNode) (ngb : Fields) → get (ibgp_data node ngb) "name" ≡ get ngb "name"
unfolding ibgp_data
ibgp_data-name node ngb =
    client (is_rr node) (with_nhs nhs (with_source node.loopback ngb))
    ∙ next_hop nhs (with_source node.loopback ngb)
    ∙ source node.loopback ngb
  where
    nhs : Bool
    nhs = attr_set (bgp_attr node "next_hop_self")

    source : (o : Option Fields) (b : Fields) → get (with_source o b) "name" ≡ get b "name"
    source none b = refl
    source (some l) b = get-put b "_source_intf" "name" (dict l)

    next_hop : (c : Bool) (b : Fields) → get (with_nhs c b) "name" ≡ get b "name"
    next_hop true b = get-put b "next_hop_self" "name" (str "ebgp")
    next_hop false b = refl

    when_set :
        (c : Bool) (b : Fields)
        → get (if c then put b "rr_client" (bool true) else b) "name" ≡ get b "name"
    when_set true b = get-put b "rr_client" "name" (bool true)
    when_set false b = refl

    client : (c : Bool) (b : Fields) → get (with_client c b) "name" ≡ get b "name"
    client c b = when_set (c && not (has b "rr")) b

module _ (intf_address : Value → Value) (ebgp_role : Value) where
  -- The remote end has an address in an address family with IBGP sessions.
  unfoldable pub reachable : Sessions → BgpNode → Bool
  unfolding get_remote_ibgp_endpoint get
  reachable sessions n =
      let intf = get_remote_ibgp_endpoint ebgp_role n in
      af_used intf_address sessions.ipv4 "ibgp" (get intf "ipv4")
      || af_used intf_address sessions.ipv6 "ibgp" (get intf "ipv6")

  is_some-neighbor :
      (sessions : Sessions) (n : BgpNode)
      → is_some (
          bgp_neighbor intf_address n
            (get_remote_ibgp_endpoint ebgp_role n)
            "ibgp"
            sessions
            (get_neighbor_rr n))
        ≡ reachable sessions n
  unfolding bgp_neighbor reachable
  is_some-neighbor sessions n = is_some_if _ _
    where
      is_some_if : (c : Bool) (b : Fields) → is_some (if c then some b else none) ≡ c
      is_some_if true b = refl
      is_some_if false b = refl

  session_with-one :
      (s : String) (node : BgpNode) (sessions : Sessions) (n : BgpNode) (rest : List Fields)
      (o : Option Fields)
      → bgp_neighbor intf_address n
          (get_remote_ibgp_endpoint ebgp_role n)
          "ibgp"
          sessions
          (get_neighbor_rr n)
        ≡ o
      → session_with s (add_neighbor intf_address ebgp_role node o rest)
        ≡ (reachable sessions n && (n.name == s) || session_with s rest)
  unfolding session_with any reachable bgp_neighbor
  session_with-one s node sessions n rest none h = sym (
      ap (λ r. r && (n.name == s) || session_with s rest)
        (sym (is_some-neighbor sessions n) ∙ ap is_some h))
  session_with-one s node sessions n rest (some ngb) h =
      ap (λ c. c || session_with s rest)
        (ap (name_is s) (
          ibgp_data-name node ngb
          ∙ bgp_neighbor-name intf_address n (get_remote_ibgp_endpoint ebgp_role n) "ibgp" sessions
              (get_neighbor_rr n) ngb h))
      ∙ sym (
          ap (λ r. r && (n.name == s) || session_with s rest)
            (sym (is_some-neighbor sessions n) ∙ ap is_some h))

  session_with-neighbors :
      (s : String) (node : BgpNode) (sessions : Sessions) (ns : List BgpNode)
      → session_with s (ibgp_neighbors intf_address ebgp_role node sessions ns)
        ≡ named s (keep (reachable sessions) ns)
  unfolding ibgp_neighbors session_with keep named any
  session_with-neighbors s node sessions [] = refl
  session_with-neighbors s node sessions (n ∷ ns) =
      session_with-one s node sessions n (ibgp_neighbors intf_address ebgp_role node sessions ns) _
        refl
      ∙ ap (λ b. reachable sessions n && (n.name == s) || b)
          (session_with-neighbors s node sessions ns)
      ∙ sym (named-keep_cons (reachable sessions) s n ns)

  -- The sessions of a node are with the nodes of its list whose end of the session has an address in
  -- an address family with IBGP sessions.
  session_with-listed :
      (x y : BgpNode) (sessions : Sessions) (nodes : List BgpNode) (warn : Bool)
      (igps : List String)
      → IsDistinct (node_names nodes)
      → node_at y.name nodes ≡ some y
      → session_with y.name
          (build_ibgp_sessions intf_address ebgp_role x sessions nodes warn igps).0
        ≡ (in_list x nodes y && reachable sessions y)
  unfolding build_ibgp_sessions
  session_with-listed x y sessions nodes warn igps d at_y =
      session_with-neighbors y.name x sessions (ibgp_ngb_list x nodes)
      ∙ ap (λ l. named y.name (keep (reachable sessions) l)) (ibgp_ngb_list-keep x nodes)
      ∙ ap (named y.name) (keep-keep (in_list x nodes) (reachable sessions) nodes)
      ∙ named-keep (λ n. in_list x nodes n && reachable sessions n) y.name y nodes d at_y

  -- Take two nodes of one AS, of different names, each reachable in an address family for which the
  -- other has IBGP sessions. The first has an IBGP session with the second exactly when the second
  -- has one with the first, whichever of them are route reflectors, inside their mesh or outside it.
  pub ibgp_sessions_symmetric :
      (x y : BgpNode) (sx sy : Sessions) (nodes : List BgpNode) (warn : Bool) (igps : List String)
      (a : ℕ)
      → IsDistinct (node_names nodes)
      → node_at x.name nodes ≡ some x
      → node_at y.name nodes ≡ some y
      → (x.name == y.name) ≡ false
      → bgp_as x ≡ int (pos a)
      → bgp_as y ≡ int (pos a)
      → reachable sx y ≡ true
      → reachable sy x ≡ true
      → session_with y.name (build_ibgp_sessions intf_address ebgp_role x sx nodes warn igps).0
        ≡ session_with x.name (build_ibgp_sessions intf_address ebgp_role y sy nodes warn igps).0
  ibgp_sessions_symmetric x y sx sy nodes warn igps a d at_x at_y other hx hy rx ry =
      session_with-listed x y sx nodes warn igps d at_y
      ∙ (rw (rx, ry) (ap (λ b. b && true) (in_list_symmetric x y nodes a other hx hy)))
      ∙ sym (session_with-listed y x sy nodes warn igps d at_x)
