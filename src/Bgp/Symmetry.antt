-- ===== src/Bgp/Symmetry.antt =====
-- IBGP sessions from both ends: who is in the list of whom
use netlab.Prelude.{
  ℕ, String, ◌≡◌, refl, sym, ◌∙◌, ap, Bool, true, false, not, ◌&&◌, ◌||◌, some, List, [], ◌∷◌,
  arith, ◌==◌, eq_iff, any, keep, if◌then◌else◌, Bool-cases, Option-cases, inl, inr, some_inj,
  is_some, eqb_refl, subst,
}
use netlab.Prelude.Texts.{contains}
use netlab.Prelude.Distinct.{IsDistinct}
use netlab.Data.{Value, int, pos, value_eq}
use netlab.Bgp.Nodes.{BgpNode, node_at, bgp_as, is_rr, find_bgp_rr}
use netlab.Bgp.Ibgp.{ibgp_ngb_list, as_nodes, rr_mesh, no_nodes}

-- Is there a node of this name in the list?
unfoldable pub named : String → List BgpNode → Bool
unfolding any
named s nodes = any (λ n. n.name == s) nodes

abbrev pub node_names : List BgpNode → List String
node_names [] = []
node_names (n ∷ nodes) = n.name ∷ node_names nodes

named-keep-false :
    (p : BgpNode → Bool) (s : String) (nodes : List BgpNode)
    → contains s (node_names nodes) ≡ false
    → named s (keep p nodes) ≡ false
unfolding named any keep contains
named-keep-false p s [] h = refl
named-keep-false p s (n ∷ nodes) h = ground (arith, named-keep-false p s nodes)

pub named-keep_cons :
    (p : BgpNode → Bool) (s : String) (n : BgpNode) (nodes : List BgpNode)
    → named s (keep p (n ∷ nodes)) ≡ (p n && (n.name == s) || named s (keep p nodes))
unfolding named any keep
named-keep_cons p s n nodes = ground arith

-- With distinct names, a filter keeps the node of a name where that node passes the test.
pub named-keep :
    (p : BgpNode → Bool) (s : String) (n : BgpNode) (nodes : List BgpNode)
    → IsDistinct (node_names nodes)
    → node_at s nodes ≡ some n
    → named s (keep p nodes) ≡ p n
unfolding named keep
named-keep p s n [] d h = absurd (cc h)
named-keep p s n (m ∷ nodes) d h = named-keep_cons p s m nodes ∙ elim (Bool-cases (m.name == s)) [
  | inl same ↦ first same (some_inj (rw same at h)) (
      named-keep-false p s nodes
        (subst (λ x. contains x (node_names nodes) ≡ false) ((eq_iff m.name s).0 same) d.0))
  | inr other ↦
      rw other
        (one_kept (p m) (named s (keep p nodes)) ∙ named-keep p s n nodes d.1 (rw other at h))
]
  where
    one_kept : (a b : Bool) → (a && false || b) ≡ b
    one_kept true b = refl
    one_kept false b = refl

    both : (a b : Bool) → b ≡ false → (a && true || b) ≡ a
    both a b h = ground arith

    first :
        (m.name == s) ≡ true
        → m ≡ n
        → named s (keep p nodes) ≡ false
        → (p m && (m.name == s) || named s (keep p nodes)) ≡ p n
    first same e none_left = rw same (both (p m) (named s (keep p nodes)) none_left) ∙ ap p e

pub keep-keep :
    (p q : BgpNode → Bool) (xs : List BgpNode) → keep q (keep p xs) ≡ keep (λ n. p n && q n) xs
unfolding keep
keep-keep p q [] = refl
keep-keep p q (x ∷ xs) = elim (Bool-cases (p x)) [
  | inl a ↦ rw a (elim (Bool-cases (q x)) [
    | inl b ↦ rw b (ap (λ l. x ∷ l) (keep-keep p q xs))
    | inr b ↦ rw b (keep-keep p q xs)
  ])
  | inr a ↦ rw a (keep-keep p q xs)
]

keep_ext :
    (p q : BgpNode → Bool) (xs : List BgpNode) → ((n : BgpNode) → p n ≡ q n) → keep p xs ≡ keep q xs
unfolding keep
keep_ext p q [] e = refl
keep_ext p q (x ∷ xs) e = elim (Bool-cases (p x)) [
  | inl a ↦ rw (a, sym (e x) ∙ a) (ap (λ l. x ∷ l) (keep_ext p q xs e))
  | inr a ↦ rw (a, sym (e x) ∙ a) (keep_ext p q xs e)
]

-- Is the second node in the AS-wide list of the first, and is it a route reflector of the AS?
abbrev other_of : BgpNode → BgpNode → Bool
other_of x n = not (n.name == x.name) && value_eq (bgp_as n) (bgp_as x)

abbrev reflects_for : BgpNode → BgpNode → Bool
reflects_for x n = (is_some n.bgp && value_eq (bgp_as n) (bgp_as x)) && is_rr n

abbrev meshed : BgpNode → BgpNode → Bool
meshed x n = not (is_rr x && not (rr_mesh x)) || (not (is_rr n) || rr_mesh n)

-- No route reflector in the AS: IBGP is a full mesh.
abbrev no_reflectors : BgpNode → List BgpNode → Bool
no_reflectors x nodes = no_nodes (find_bgp_rr (bgp_as x) nodes)

abbrev pub in_list : BgpNode → List BgpNode → BgpNode → Bool
in_list x nodes n =
    if is_rr x || no_reflectors x nodes then other_of x n && meshed x n else reflects_for x n

as_nodes-keep :
    (x : BgpNode) (nodes : List BgpNode)
    → as_nodes x nodes ≡ keep (λ n. other_of x n && meshed x n) nodes
unfolding as_nodes
as_nodes-keep x nodes = elim (Bool-cases (is_rr x && not (rr_mesh x))) [
  | inl outside ↦ rw outside (keep-keep (other_of x) (λ n. not (is_rr n) || rr_mesh n) nodes)
  | inr inside ↦
      rw inside
        (keep_ext (other_of x) (λ n. other_of x n && true) nodes (λ n. and_true (other_of x n)))
]
  where
    and_true : (a : Bool) → a ≡ (a && true)
    and_true true = refl
    and_true false = refl

list_if :
    (rr : Bool) (found others : List BgpNode)
    → (if rr || no_nodes (if rr then [] else found) then others else (if rr then [] else found))
      ≡ (if rr || no_nodes found then others else found)
list_if true found others = refl
list_if false found others = refl

if-keep :
    (c : Bool) (p q : BgpNode → Bool) (nodes : List BgpNode)
    → (if c then keep p nodes else keep q nodes) ≡ keep (λ n. if c then p n else q n) nodes
if-keep true p q nodes = refl
if-keep false p q nodes = refl

pub ibgp_ngb_list-keep :
    (x : BgpNode) (nodes : List BgpNode) → ibgp_ngb_list x nodes ≡ keep (in_list x nodes) nodes
unfolding ibgp_ngb_list find_bgp_rr
ibgp_ngb_list-keep x nodes =
    list_if (is_rr x) (find_bgp_rr (bgp_as x) nodes) (as_nodes x nodes)
    ∙ ap (λ l. if is_rr x || no_reflectors x nodes then l else keep (reflects_for x) nodes)
        (as_nodes-keep x nodes)
    ∙ if-keep (is_rr x || no_reflectors x nodes) (λ n. other_of x n && meshed x n) (reflects_for x)
        nodes

-- The tests on a pair of nodes agree from both ends.
formula :
    (rx ry mx my e : Bool)
    → (if rx || e then not (rx && not mx) || (not ry || my) else ry)
      ≡ (if ry || e then not (ry && not my) || (not rx || mx) else rx)
formula rx ry mx my e = ground arith

shape :
    (c n v m b r : Bool)
    → n ≡ false
    → v ≡ true
    → (r ≡ true → b ≡ true)
    → (if c then (not n && v) && m else (b && v) && r) ≡ (if c then m else r)
shape c n v m b r hn hv hr = ground arith

is_rr-bgp : (y : BgpNode) → is_rr y ≡ true → is_some y.bgp ≡ true
is_rr-bgp y h = elim (Option-cases y.bgp) [
  | inl e ↦ absurd (cc (rw e at h))
  | inr (v, e) ↦ rw e refl
]

in_list-formula :
    (x y : BgpNode) (nodes : List BgpNode)
    → (y.name == x.name) ≡ false
    → value_eq (bgp_as y) (bgp_as x) ≡ true
    → in_list x nodes y ≡ (if is_rr x || no_reflectors x nodes then meshed x y else is_rr y)
in_list-formula x y nodes d h =
    shape (is_rr x || no_reflectors x nodes) (y.name == x.name) (value_eq (bgp_as y) (bgp_as x))
      (meshed x y) (is_some y.bgp) (is_rr y) d h (is_rr-bgp y)

pub in_list_symmetric :
    (x y : BgpNode) (nodes : List BgpNode) (a : ℕ)
    → (x.name == y.name) ≡ false
    → bgp_as x ≡ int (pos a)
    → bgp_as y ≡ int (pos a)
    → in_list x nodes y ≡ in_list y nodes x
unfolding value_eq
in_list_symmetric x y nodes a d hx hy =
    in_list-formula x y nodes (apart x.name y.name d) (same_as hy hx)
    ∙ formula (is_rr x) (is_rr y) (rr_mesh x) (rr_mesh y) (no_reflectors x nodes)
    ∙ ap (λ v. if is_rr y || no_nodes (find_bgp_rr v nodes) then meshed y x else is_rr x)
        (hx ∙ sym hy)
    ∙ sym (in_list-formula y x nodes d (same_as hx hy))
  where
    apart : (s t : String) → (s == t) ≡ false → (t == s) ≡ false
    apart s t h = ground (arith, eq_iff s t, eq_iff t s)

    same_as : {v w : Value} → v ≡ int (pos a) → w ≡ int (pos a) → value_eq v w ≡ true
    same_as {v} {w} hv hw =
        ap (λ u. value_eq u w) hv ∙ ap (λ u. value_eq (int (pos a)) u) hw ∙ eqb_refl a

-- The node of a name is in the list of another node of its AS exactly when that one is in its list.
pub ibgp_ngb_list_symmetric :
    (x y : BgpNode) (nodes : List BgpNode) (a : ℕ)
    → IsDistinct (node_names nodes)
    → node_at x.name nodes ≡ some x
    → node_at y.name nodes ≡ some y
    → (x.name == y.name) ≡ false
    → bgp_as x ≡ int (pos a)
    → bgp_as y ≡ int (pos a)
    → named y.name (ibgp_ngb_list x nodes) ≡ named x.name (ibgp_ngb_list y nodes)
ibgp_ngb_list_symmetric x y nodes a d at_x at_y other hx hy =
    listed x y at_y ∙ in_list_symmetric x y nodes a other hx hy ∙ sym (listed y x at_x)
  where
    listed :
        (u v : BgpNode)
        → node_at v.name nodes ≡ some v
        → named v.name (ibgp_ngb_list u nodes) ≡ in_list u nodes v
    listed u v at_v =
        ap (named v.name) (ibgp_ngb_list-keep u nodes)
        ∙ named-keep (in_list u nodes) v.name v nodes d at_v
