-- ===== src/Groups/ExpansionLaws.antt =====
-- expand_group_members: what stands in the expanded list.
use netlab.Prelude.{
  String, ◌≡◌, Bool, true, not, ◌||◌, Option, List, [], ◌∷◌, ◌++◌, arith, eq_iff, keep, Bool-cases,
  Option-cases, inl, inr,
}
use netlab.Prelude.Texts.{contains, contains-append}
use netlab.Data.{Value, null, bool, int, str, list, dict}
use netlab.Groups.Expansion.{
  expand_group_members, expand_from, expand_member, add_matches, group_re_match, is_wildcard,
  is_regex, matched, regex_matched, rest_of,
}

-- Every name of the list is an object or a further name.
abbrev Known : List String → List String → List String → Type 0
Known objects further ms =
    (s : String) → contains s ms ≡ true → (contains s objects || contains s further) ≡ true

contains-keep_of :
    (p : String → Bool) (xs : List String) (s : String)
    → contains s (keep p xs) ≡ true
    → contains s xs ≡ true
unfolding keep contains
contains-keep_of p [] s h = h
contains-keep_of p (x ∷ xs) s h = ground (arith, contains-keep_of p xs s)

add_matches-Known :
    (objects further ms found : List String)
    → Known objects further ms
    → ((s : String) → contains s found ≡ true → contains s objects ≡ true)
    → Known objects further (add_matches ms found)
unfolding add_matches
add_matches-Known objects further ms found known within s h = ground (
  arith,
  known s,
  within s,
  contains-append s ms (keep (λ m. not (contains m ms)) found),
  contains-keep_of (λ m. not (contains m ms)) found s,
)

matched-Known :
    (objects further ms found : List String)
    → Known objects further ms
    → ((s : String) → contains s found ≡ true → contains s objects ≡ true)
    → Known objects further (matched ms found).0
matched-Known objects further ms [] known within = known
matched-Known objects further ms (m ∷ found) known within =
    add_matches-Known objects further ms (m ∷ found) known within

append_one-Known :
    (objects further ms : List String) (m : String)
    → Known objects further ms
    → (contains m objects || contains m further) ≡ true
    → Known objects further (ms ++ (m ∷ []))
unfolding contains
append_one-Known objects further ms m known in_one s h =
    ground (arith, known s, contains-append s ms (m ∷ []), eq_iff m s)

module _ (fullmatch : String → Option (String → Bool)) (fnmatch : String → String → Bool) where
  regex_matched-Known :
      (objects further ms : List String) (expr : String)
      → Known objects further ms
      → Known objects further
          (regex_matched fullmatch fnmatch ms (group_re_match fullmatch fnmatch expr objects)).0
  unfolding group_re_match
  regex_matched-Known objects further ms expr known =
      elim (Option-cases (fullmatch (rest_of expr))) [
        | inl e ↦ rw (e, regex_matched) known
        | inr (test, e) ↦
            rw (e, regex_matched)
              (matched-Known objects further ms (keep test objects) known
                (contains-keep_of test objects))
      ]

  expand_member-Known :
      (objects further : List String) (prune : Bool) (ms : List String) (m : Value)
      → Known objects further ms
      → Known objects further (expand_member fullmatch fnmatch objects further prune ms m).0
  unfolding expand_member
  expand_member-Known objects further prune ms null known = known
  expand_member-Known objects further prune ms (bool b) known = known
  expand_member-Known objects further prune ms (int i) known = known
  expand_member-Known objects further prune ms (list l) known = known
  expand_member-Known objects further prune ms (dict b) known = known
  expand_member-Known objects further prune ms (str m) known =
      elim (Bool-cases (contains m objects || contains m further)) [
        | inl named ↦ rw named (elim (Bool-cases (contains m ms)) [
          | inl old ↦ rw old known
          | inr new ↦ rw new (append_one-Known objects further ms m known named)
        ])
        | inr other ↦ rw other (elim (Bool-cases (is_regex m)) [
          | inl regex ↦ rw regex (regex_matched-Known objects further ms m known)
          | inr no_regex ↦ rw no_regex (elim (Bool-cases (is_wildcard m)) [
            | inl wild ↦ rw wild (
                matched-Known objects further ms (keep (fnmatch m) objects) known
                  (contains-keep_of (fnmatch m) objects))
            | inr plain ↦
                rw plain (elim (Bool-cases prune) [ inl p ↦ rw p known | inr p ↦ rw p known ])
          ])
        ])
      ]

  expand_from-Known :
      (objects further : List String) (prune : Bool) (ms : List String) (given : List Value)
      → Known objects further ms
      → Known objects further (expand_from fullmatch fnmatch objects further prune ms given).0
  unfolding expand_from
  expand_from-Known objects further prune ms [] known = known
  expand_from-Known objects further prune ms (m ∷ given) known =
      expand_from-Known objects further prune
        (expand_member fullmatch fnmatch objects further prune ms m).0 given
        (expand_member-Known objects further prune ms m known)

  -- Whatever the member list holds and however the patterns match, every name in the expanded list
  -- is one of the objects or one of the further names.
  pub expand_group_members_known :
      (members : List Value) (objects further : List String) (prune : Bool) (s : String)
      → contains s (expand_group_members fullmatch fnmatch members objects further prune).0 ≡ true
      → (contains s objects || contains s further) ≡ true
  unfolding expand_group_members contains
  expand_group_members_known members objects further prune =
      expand_from-Known objects further prune [] members (λ s h. absurd (nothing s h))
    where
      nothing : (s : String) → contains s [] ≡ true → ⊥
      nothing s h = cc h
