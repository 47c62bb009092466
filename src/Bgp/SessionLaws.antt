-- ===== src/Bgp/SessionLaws.antt =====
-- What a neighbor's data says about the session: its name, type and AS
use netlab.Prelude.{
  String, ◌≡◌, refl, sym, ap, ◌∙◌, Bool, true, false, not, ◌&&◌, ◌||◌, Option, none, some, List,
  ◌==◌, if◌then◌else◌, Bool-cases, inl, inr, some_inj,
}
use netlab.Prelude.Texts.{contains}
use netlab.Data.{Value, bool, str, Fields, get, put, value_eq, truthy, get-put}
use netlab.Bgp.Nodes.{address_value, BgpNode, Sessions, bgp_as, bgp_neighbor, with_af, af_used}
use netlab.Bgp.Ebgp.{
  BgpFeatures, Peering, get_interface_as, neighbor_real_as, neighbor_local_as, session_type,
  session_settings, checked_session, ebgp_session, established, refused, no_session, with_ipv6,
  ipv4_unnum, ipv6_num, both_lla, lla_session, is_true, extra_data, has_address,
}
use netlab.Bgp.AsNumbers.{
  PeersAs, ShownAs, SessionKind, get_interface_as-PeersAs, neighbor_local_as-PeersAs,
  neighbor_real_as-ShownAs, session_type-SessionKind,
}

with_af-other :
    (intf_address : Value → Value) (af ctype k : String) (enabled : List String) (a : Option Value)
    (ngb : Fields)
    → (af == k) ≡ false
    → get (with_af intf_address af enabled ctype a ngb) k ≡ get ngb k
with_af-other intf_address af ctype k enabled none ngb h = refl
with_af-other intf_address af ctype k enabled (some a) ngb h =
    elim (Bool-cases (contains ctype enabled)) [
      | inl used ↦ rw used (get-put ngb af k (address_value intf_address a) ∙ rw h refl)
      | inr unused ↦ rw unused refl
    ]

-- The neighbor data that bgp_neighbor returns, where it does.
pub bgp_neighbor-get :
    (intf_address : Value → Value) (n : BgpNode) (intf : Fields) (ctype : String)
    (sessions : Sessions) (extra ngb : Fields) (k : String)
    → ("ipv4" == k) ≡ false
    → ("ipv6" == k) ≡ false
    → bgp_neighbor intf_address n intf ctype sessions extra ≡ some ngb
    → get ngb k
      ≡ get (put (put (put extra "name" (str n.name)) "as" (bgp_as n)) "type" (str ctype)) k
unfolding bgp_neighbor
bgp_neighbor-get intf_address n intf ctype sessions extra ngb k h4 h6 h =
    built
      (af_used intf_address sessions.ipv4 ctype (get intf "ipv4")
        || af_used intf_address sessions.ipv6 ctype (get intf "ipv6"))
      h
  where
    base : Fields
    base = put (put (put extra "name" (str n.name)) "as" (bgp_as n)) "type" (str ctype)

    full : Fields
    full =
        with_af intf_address "ipv6" sessions.ipv6 ctype (get intf "ipv6")
          (with_af intf_address "ipv4" sessions.ipv4 ctype (get intf "ipv4") base)

    built : (c : Bool) → (if c then some full else none) ≡ some ngb → get ngb k ≡ get base k
    built false e = absurd (cc e)
    built true e =
        ap (λ b. get b k) (sym (some_inj e))
        ∙ with_af-other intf_address "ipv6" ctype k sessions.ipv6 (get intf "ipv6")
            (with_af intf_address "ipv4" sessions.ipv4 ctype (get intf "ipv4") base) h6
        ∙ with_af-other intf_address "ipv4" ctype k sessions.ipv4 (get intf "ipv4") base h4

pub bgp_neighbor-type :
    (intf_address : Value → Value) (n : BgpNode) (intf : Fields) (ctype : String)
    (sessions : Sessions) (extra ngb : Fields)
    → bgp_neighbor intf_address n intf ctype sessions extra ≡ some ngb
    → get ngb "type" ≡ some (str ctype)
bgp_neighbor-type intf_address n intf ctype sessions extra ngb h =
    bgp_neighbor-get intf_address n intf ctype sessions extra ngb "type" refl refl h
    ∙ get-put (put (put extra "name" (str n.name)) "as" (bgp_as n)) "type" "type" (str ctype)

pub bgp_neighbor-name :
    (intf_address : Value → Value) (n : BgpNode) (intf : Fields) (ctype : String)
    (sessions : Sessions) (extra ngb : Fields)
    → bgp_neighbor intf_address n intf ctype sessions extra ≡ some ngb
    → get ngb "name" ≡ some (str n.name)
bgp_neighbor-name intf_address n intf ctype sessions extra ngb h =
    bgp_neighbor-get intf_address n intf ctype sessions extra ngb "name" refl refl h
    ∙ get-put (put (put extra "name" (str n.name)) "as" (bgp_as n)) "type" "name" (str ctype)
    ∙ get-put (put extra "name" (str n.name)) "as" "name" (bgp_as n)
    ∙ get-put extra "name" "name" (str n.name)

session_settings-as :
    (kind : String) (a : Value) (ngb : Fields) → get (session_settings kind a ngb) "as" ≡ some a
unfolding session_settings
session_settings-as kind a ngb = elim (Bool-cases (kind == "localas_ibgp")) [
  | inl c ↦ rw c (
      get-put (put (put ngb "as" a) "rr_client" (bool true)) "next_hop_self" "as" (str "all")
      ∙ get-put (put ngb "as" a) "rr_client" "as" (bool true)
      ∙ get-put ngb "as" "as" a)
  | inr c ↦ rw c (elim (Bool-cases (kind == "confed_ebgp")) [
    | inl d ↦
        rw d (get-put (put ngb "as" a) "next_hop_self" "as" (str "all") ∙ get-put ngb "as" "as" a)
    | inr d ↦ rw d (get-put ngb "as" "as" a)
  ])
]

session_settings-type :
    (kind : String) (a : Value) (ngb : Fields)
    → get (session_settings kind a ngb) "type" ≡ get ngb "type"
unfolding session_settings
session_settings-type kind a ngb = elim (Bool-cases (kind == "localas_ibgp")) [
  | inl c ↦ rw c (
      get-put (put (put ngb "as" a) "rr_client" (bool true)) "next_hop_self" "type" (str "all")
      ∙ get-put (put ngb "as" a) "rr_client" "type" (bool true)
      ∙ get-put ngb "as" "type" a)
  | inr c ↦ rw c (elim (Bool-cases (kind == "confed_ebgp")) [
    | inl d ↦
        rw d
          (get-put (put ngb "as" a) "next_hop_self" "type" (str "all") ∙ get-put ngb "as" "type" a)
    | inr d ↦ rw d (get-put ngb "as" "type" a)
  ])
]

-- A guard that gives no session was not taken where there is one.
passed :
    (c : Bool) (a b : Peering) (s : Fields)
    → a.session ≡ none
    → (if c then a else b).session ≡ some s
    → (c ≡ false) × (b.session ≡ some s)
passed true a b s none_a h = absurd (cc (none_a, h))
passed false a b s none_a h = (refl, h)

module _ (merge : Fields → Fields → Fields) (intf_address : Value → Value) where
  established-session :
      (l s : Fields) (kind : String) (a : Value) (o : Option Fields)
      → (established l kind a o).session ≡ some s
      → (ngb : Fields) × ((o ≡ some ngb) × (session_settings kind a ngb ≡ s))
  established-session l s kind a none h = absurd (cc h)
  established-session l s kind a (some ngb) h = (ngb, (refl, some_inj h))

  checked_session-facts :
      (features : BgpFeatures) (node : BgpNode) (sessions : Sessions) (l : Fields)
      (neighbor : BgpNode) (ngb : Fields) (node_as ngb_as : Value) (s : Fields)
      → (checked_session merge intf_address features node sessions l neighbor ngb node_as
          ngb_as).session
        ≡ some s
      → (get s "as" ≡ some ngb_as) × (get s "type" ≡ some (str (session_type node node_as ngb_as)))
  unfolding checked_session
  checked_session-facts features node sessions l neighbor ngb node_as ngb_as s h =
      let h1 = passed c1 (refused l) p2 s refl h in
      let h2 = passed c2 (refused l) p3 s refl h1.1 in
      let h3 = passed c3 (refused l') p4 s refl h2.1 in
      let h4 = passed c4 (refused l') p5 s refl h3.1 in
      let h5 = passed c5 (refused l') p6 s refl h4.1 in
      let e = established-session l' s kind ngb_as found h5.1 in
      (
        ap (λ b. get b "as") (sym e.1.1) ∙ session_settings-as kind ngb_as e.0,
        ap (λ b. get b "type") (sym e.1.1)
            ∙ session_settings-type kind ngb_as e.0
            ∙ bgp_neighbor-type intf_address neighbor ngb kind sessions
                (extra_data merge intf_address node l ngb) e.0 e.1.0,
      )
    where
      kind : String
      kind = session_type node node_as ngb_as

      l' : Fields
      l' = with_ipv6 l ngb

      found : Option Fields
      found =
          bgp_neighbor intf_address neighbor ngb kind sessions
            (extra_data merge intf_address node l ngb)

      c1 : Bool
      c1 = is_true (get l "ipv4") && not (ipv4_unnum l ngb)

      c2 : Bool
      c2 = is_true (get l "ipv6") && not (both_lla l ngb)

      c3 : Bool
      c3 = lla_session l ngb && not features.ipv6_lla

      c4 : Bool
      c4 = (ipv4_unnum l ngb && ipv6_num l ngb) && not features.rfc8950

      c5 : Bool
      c5 = kind == "localas_ibgp" && not features.local_as_ibgp

      p6 : Peering
      p6 = established l' kind ngb_as found

      p5 : Peering
      p5 = if c5 then refused l' else p6

      p4 : Peering
      p4 = if c4 then refused l' else p5

      p3 : Peering
      p3 = if c3 then refused l' else p4

      p2 : Peering
      p2 = if c2 then refused l else p3

  pub ebgp_session_facts :
      (features : BgpFeatures) (node : BgpNode) (sessions : Sessions) (l : Fields)
      (neighbor : BgpNode) (ngb s : Fields)
      → (ebgp_session merge intf_address features node sessions l neighbor ngb).session ≡ some s
      → (own : Value) × (shown : Value) × (other : Value) × (kind : String) × PeersAs node l
          (bgp_as node)
          own
        × ShownAs neighbor own shown
        × PeersAs neighbor ngb shown other
        × SessionKind node own other kind
        × (get s "as" ≡ some other)
        × (get s "type" ≡ some (str kind))
        × (truthy other ≡ true)
        × ((value_eq (bgp_as node) shown && value_eq own other) ≡ false)
  unfolding ebgp_session
  ebgp_session_facts features node sessions l neighbor ngb s h =
      let h1 = passed (not (has_address ngb)) (no_session l) p2 s refl h in
      let h2 = passed (not (truthy ngb_as)) (no_session l) p3 s refl h1.1 in
      let h3 = passed same (no_session l) p4 s refl h2.1 in
      let facts =
        checked_session-facts features node sessions l neighbor ngb node_as ngb_as s h3.1 in
      (
        node_as,
        real_as,
        ngb_as,
        session_type node node_as ngb_as,
        get_interface_as-PeersAs node l,
        neighbor_real_as-ShownAs neighbor node_as,
        neighbor_local_as-PeersAs neighbor ngb real_as,
        session_type-SessionKind node node_as ngb_as,
        facts.0,
        facts.1,
        not_false (truthy ngb_as) h2.0,
        h3.0,
      )
    where
      node_as : Value
      node_as = get_interface_as node l

      real_as : Value
      real_as = neighbor_real_as neighbor node_as

      ngb_as : Value
      ngb_as = neighbor_local_as neighbor ngb real_as

      same : Bool
      same = value_eq (bgp_as node) real_as && value_eq node_as ngb_as

      p4 : Peering
      p4 = checked_session merge intf_address features node sessions l neighbor ngb node_as ngb_as

      p3 : Peering
      p3 = if same then no_session l else p4

      p2 : Peering
      p2 = if not (truthy ngb_as) then no_session l else p3

      not_false : (b : Bool) → not b ≡ false → b ≡ true
      not_false true e = refl
      not_false false e = sym e
