-- ===== src/Vxlan/NoClash.antt =====
-- VLANs whose VNIs do not clash, and what a new VNI does to them.
use netlab.Prelude.{
  ◌≡◌, ◌≢◌, refl, sym, ap, ◌∙◌, subst, String, true, false, Option, some, List, [], ◌∷◌, ◌==◌, ◌⊎◌,
  eq_iff, eqb_refl, some_inj, arith, Bool-cases, inl, inr, if◌then◌else◌,
}
use netlab.Data.{ℤ, pos, negsuc, Value, int, str, dict, Fields, get, put, is_in, value_eq, get-put}
use netlab.Data.Appending.{append_new}
use netlab.Data.ListLaws.{is_in-append}
use netlab.Modules.Attributes.{inner_box}

-- The `vni` of a VLAN.
abbrev pub vni_at : Fields → String → Option Value
vni_at vlans a = get (inner_box (get vlans a)) "vni"

-- The integer VNIs of VLANs are in the set of used ones, no two VLANs have the same one, and no VNI
-- is a text.
pub record NoClash (vni : String → Option Value) (used : List Value) : Type 0 where
  pub registered : (a : String) (i : ℤ) → vni a ≡ some (int i) → is_in (int i) used ≡ true
  pub distinct : (a b : String) (i : ℤ) → vni a ≡ some (int i) → vni b ≡ some (int i) → a ≡ b
  pub no_text : (a s : String) → vni a ≢ some (str s)

value_eq-int : (i : ℤ) → value_eq (int i) (int i) ≡ true
unfolding value_eq
value_eq-int (pos n) = eqb_refl n
value_eq-int (negsuc n) = eqb_refl n

is_in-new : (i : ℤ) (used : List Value) → is_in (int i) (append_new used (int i)) ≡ true
unfolding append_new is_in
is_in-new i used = ground (arith, is_in-append (int i) used (int i ∷ []), value_eq-int i)

is_in-old :
    (v x : Value) (used : List Value) → is_in v used ≡ true → is_in v (append_new used x) ≡ true
unfolding append_new
is_in-old v x used h = ground (arith, is_in-append v used (x ∷ []))

-- A VLAN gets a VNI that is not in use.
module _ (vni vni' : String → Option Value) (used : List Value) (a : String) (i : ℤ)
    (changed : (c : String) → vni' c ≡ (if a == c then some (int i) else vni c))
    (free : is_in (int i) used ≡ false) (clean : NoClash vni used) where
  vni_source :
      (c : String) (v : Value) → vni' c ≡ some v → ((a ≡ c) × (int i ≡ v)) ⊎ (vni c ≡ some v)
  vni_source c v h = elim (Bool-cases (a == c)) [
    | inl same ↦ inl ((eq_iff a c).0 same, some_inj (sym (changed c ∙ rw same refl) ∙ h))
    | inr other ↦ inr (sym (changed c ∙ rw other refl) ∙ h)
  ]

  new_is_unused : (c : String) (j : ℤ) → int i ≡ int j → vni c ≡ some (int j) → ⊥
  new_is_unused c j same h =
      let used_j : is_in (int i) used ≡ true = rw same (clean.registered c j h) in
      absurd (cc (used_j, free))

  fresh-distinct : (c d : String) (j : ℤ) → vni' c ≡ some (int j) → vni' d ≡ some (int j) → c ≡ d
  fresh-distinct c d j h k = elim (vni_source c (int j) h) [
    | inl (e, p) ↦ elim (vni_source d (int j) k) [
      | inl (e', p') ↦ sym e ∙ e'
      | inr k' ↦ absurd (new_is_unused d j p k')
    ]
    | inr h' ↦ elim (vni_source d (int j) k) [
      | inl (e', p') ↦ absurd (new_is_unused c j p' h')
      | inr k' ↦ clean.distinct c d j h' k'
    ]
  ]

  pub fresh-NoClash : NoClash vni' (append_new used (int i))
  fresh-NoClash = record {
    registered = λ c j h. elim (vni_source c (int j) h) [
      | inl (e, p) ↦ subst (λ x. is_in x (append_new used (int i)) ≡ true) p (is_in-new i used)
      | inr h' ↦ is_in-old (int j) (int i) used (clean.registered c j h')
    ];
    distinct = fresh-distinct;
    no_text = λ c s h. elim (vni_source c (str s) h) [
      | inl (e, p) ↦ absurd (cc p)
      | inr h' ↦ clean.no_text c s h'
    ];
  }

pub same-NoClash :
    (vni vni' : String → Option Value) (used : List Value)
    → ((c : String) → vni' c ≡ vni c)
    → NoClash vni used
    → NoClash vni' used
same-NoClash vni vni' used same clean = record {
  registered = λ c j h. clean.registered c j (sym (same c) ∙ h);
  distinct = λ c d j h k. clean.distinct c d j (sym (same c) ∙ h) (sym (same d) ∙ k);
  no_text = λ c s h. clean.no_text c s (sym (same c) ∙ h);
}

pub vni_at-put :
    (vlans b : Fields) (a c : String)
    → vni_at (put vlans a (dict b)) c ≡ (if a == c then get b "vni" else vni_at vlans c)
vni_at-put vlans b a c = elim (Bool-cases (a == c)) [
  | inl same ↦ ap (λ o. get (inner_box o) "vni") (get-put vlans a c (dict b)) ∙ rw same refl
  | inr other ↦ ap (λ o. get (inner_box o) "vni") (get-put vlans a c (dict b)) ∙ rw other refl
]

pub vni_at-with_vni :
    (vlans b : Fields) (a c : String) (i : ℤ)
    → vni_at (put vlans a (dict (put b "vni" (int i)))) c
      ≡ (if a == c then some (int i) else vni_at vlans c)
vni_at-with_vni vlans b a c i =
    vni_at-put vlans (put b "vni" (int i)) a c
    ∙ ap (λ o. if a == c then o else vni_at vlans c) (get-put b "vni" "vni" (int i))
