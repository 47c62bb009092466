-- ===== src/Groups/Expansion.antt =====
-- expand_group_members. Python's `re` and `fnmatch` are arguments: `fullmatch` compiles a regular
-- expression (`none` where that fails) and `fnmatch` matches a name with a wildcard.
use Prim.Native.Char.{code}
use netlab.Prelude.{
  String, Bool, false, ◌||◌, not, Option, none, some, List, [], ◌∷◌, ◌++◌, eqb, keep, if◌then◌else◌,
}
use netlab.Prelude.Texts.{contains}
use netlab.Log.{incorrect_type, incorrect_value, report, Reports}
use netlab.Data.{Value, str}

-- m_id.startswith('~')
abbrev pub is_regex : String → Bool
is_regex String.[] = false
is_regex (String.◌∷◌ c s) = eqb (code c) b'~'

-- m_expr[1:]
abbrev pub rest_of : String → String
rest_of String.[] = String.[]
rest_of (String.◌∷◌ c s) = s

-- re.search('[\\[\\].*?!]',m_id)
unfoldable pub is_wildcard : String → Bool
is_wildcard String.[] = false
is_wildcard (String.◌∷◌ c s) =
    eqb (code c) b'['
    || eqb (code c) b']'
    || eqb (code c) b'.'
    || eqb (code c) b'*'
    || eqb (code c) b'?'
    || eqb (code c) b'!'
    || is_wildcard s

-- members += [ m for m in g_match if m not in members ]
unfoldable pub add_matches : List String → List String → List String
unfolding keep contains
add_matches members g_match = members ++ keep (λ m. not (contains m members)) g_match

-- after a match: nothing found is an error
abbrev pub matched : List String → List String → List String × Reports
matched members [] = (members, report incorrect_type "groups" ∷ [])
matched members (m ∷ ms) = (add_matches members (m ∷ ms), [])

module _ (fullmatch : String → Option (String → Bool)) (fnmatch : String → String → Bool) where
  unfoldable pub group_re_match : String → List String → Option (List String)
  unfolding keep
  group_re_match m_expr names = elim (fullmatch (rest_of m_expr)) [
    | none ↦ none
    | some test ↦ some (keep test names)
  ]

  abbrev pub regex_matched : List String → Option (List String) → List String × Reports
  regex_matched members none = (members, report incorrect_value "groups" ∷ [])
  regex_matched members (some g_match) = matched members g_match

  -- One round of the loop over g_members.
  unfoldable pub expand_member :
      List String → List String → Bool → List String → Value → List String × Reports
  unfolding add_matches group_re_match is_wildcard contains keep
  expand_member g_objects g_list g_prune members (str m_id) =
      if contains m_id g_objects || contains m_id g_list
      then (if contains m_id members then (members, []) else (members ++ (m_id ∷ []), []))
      else if is_regex m_id
      then regex_matched members (group_re_match m_id g_objects)
      else if is_wildcard m_id
      then matched members (keep (fnmatch m_id) g_objects)
      else if g_prune
      then (members, [])
      else (members, report incorrect_value "groups" ∷ [])
  expand_member g_objects g_list g_prune members other =
      (members, report incorrect_type "groups" ∷ [])

  unfoldable pub expand_from :
      List String → List String → Bool → List String → List Value → List String × Reports
  unfolding expand_member
  expand_from g_objects g_list g_prune members [] = (members, [])
  expand_from g_objects g_list g_prune members (m ∷ ms) =
      let (members', errors) = expand_member g_objects g_list g_prune members m in
      let (final, more) = expand_from g_objects g_list g_prune members' ms in
      (final, errors ++ more)

  unfoldable pub expand_group_members :
      List Value → List String → List String → Bool → List String × Reports
  unfolding expand_from
  expand_group_members g_members g_objects g_list g_prune =
      expand_from g_objects g_list g_prune [] g_members
