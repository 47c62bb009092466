-- ===== src/Types/Addresses.antt =====
-- common_addr_parse and the tests of addresses. Python's ipaddress and netaddr are arguments.
use Prim.Native.Char.{code}
use netlab.Prelude.{
  ℕ, zero, suc, ◌+◌, ◌/◌, ◌%◌, String, Bool, true, false, not, ◌&&◌, ◌||◌, Option, none, some, List,
  [], ◌∷◌, any, length, leb, ltb, eqb, ◌==◌, if◌then◌else◌,
}
use netlab.Prelude.Texts.{contains, text_le}
use netlab.Data.{ℤ, pos, negsuc, Value, bool, int, str, dict, end, entry}
use netlab.Data.Walks.{split_path}
use netlab.Types.Framework.{Status, valid, replaced, wrong_type, wrong_value, TypeTest}
use netlab.Types.Scalars.{id_validator}

pub data Use : Type 0 where
  address prefix host_prefix prefix_or_host interface subnet_prefix id_value : Use

pub data Family : Type 0 where
  ipv4 ipv6 : Family

abbrev takes_bool : Use → Bool
takes_bool interface = true
takes_bool subnet_prefix = true
takes_bool u = false

abbrev in_32_bits : ℤ → Bool
in_32_bits (pos n) = ltb n 4294967296
in_32_bits (negsuc n) = false

-- '/' in value
unfoldable pub has_slash : String → Bool
has_slash String.[] = false
has_slash (String.◌∷◌ c s) = eqb (code c) b'/' || has_slash s

-- use in ['id','address'], or an interface or a prefix-or-host with no '/'
abbrev pub plain_address : Use → Bool → Bool
plain_address id_value slash = true
plain_address address slash = true
plain_address interface slash = not slash
plain_address prefix_or_host slash = not slash
plain_address u slash = false

-- host bits may be set
abbrev not_strict : Use → Bool
not_strict interface = true
not_strict host_prefix = true
not_strict u = false

abbrev checks_reserved : Use → Bool
checks_reserved prefix = false
checks_reserved prefix_or_host = false
checks_reserved id_value = false
checks_reserved u = true

abbrev reserved_prefixes : Family → List String
reserved_prefixes ipv4 = "0.0.0.0/8" ∷ "127.0.0.0/8" ∷ "224.0.0.0/4" ∷ "240.0.0.0/4" ∷ []
reserved_prefixes ipv6 = "::1/128" ∷ "ff00::/8" ∷ []

-- `Net` is a network; `net_parse` takes its `strict` argument, and `subnet_of` compares two networks.
-- `int_to_text` prints the address with a number, and `named_prefix` has the value for a named prefix
-- that can be used.
module _ {Net : Type 0} (addr_parse : Family → String → Bool)
    (net_parse : Family → Bool → String → Option Net) (subnet_of : Net → Net → Bool)
    (int_to_text : ℤ → String) (named_prefix : String → Option Value) where
  abbrev within_range : Net → Option Net → Bool
  within_range p none = false
  within_range p (some range) = subnet_of p range

  unfoldable pub check_reserved_range : Family → Net → Bool
  unfolding any
  check_reserved_range af p =
      any (λ range. within_range p (net_parse af true range)) (reserved_prefixes af)

  abbrev with_network : Use → Family → Option Net → Status
  with_network u af none = wrong_value
  with_network u af (some p) =
      if checks_reserved u && check_reserved_range af p then wrong_value else valid

  abbrev text_address : Use → Family → String → Status
  text_address u af s =
      if plain_address u (has_slash s)
      then (if addr_parse af s then valid else wrong_value)
      else with_network u af (net_parse af (not (not_strict u)) s)

  abbrev int_address : Use → Family → ℤ → Status
  int_address id_value ipv4 n = if in_32_bits n then replaced (str (int_to_text n)) else wrong_value
  int_address interface af n = if in_32_bits n then valid else wrong_value
  int_address u af n = wrong_value

  abbrev with_named : Status → Option Value → Status
  with_named otherwise none = otherwise
  with_named otherwise (some v) = replaced v

  abbrev named_text : Bool → Family → String → Option Value
  named_text true ipv4 s = named_prefix s
  named_text named af s = none

  unfoldable pub common_addr_parse : Use → Bool → Family → Value → Status
  unfolding has_slash check_reserved_range
  common_addr_parse u named af (bool b) = if takes_bool u then valid else wrong_value
  common_addr_parse u named af (int n) = int_address u af n
  common_addr_parse u named af (str s) = with_named (text_address u af s) (named_text named af s)
  common_addr_parse u named af v = wrong_type

  abbrev pub must_be_ipv4 : Use → Bool → TypeTest
  must_be_ipv4 u named = record {
    false_value = some (bool false);
    empty_value = none;
    test = common_addr_parse u named ipv4;
  }

  abbrev pub must_be_ipv6 : Use → TypeTest
  must_be_ipv6 u = record {
    false_value = some (bool false);
    empty_value = none;
    test = common_addr_parse u false ipv6;
  }

  -- ':' in value
  unfoldable pub has_colon : String → Bool
  has_colon String.[] = false
  has_colon (String.◌∷◌ c s) = eqb (code c) b':' || has_colon s

  abbrev namespaces : List String
  namespaces = "prefix" ∷ "vlan" ∷ "link" ∷ "role" ∷ "pool" ∷ []

  abbrev id_in_namespace : String → Status
  id_in_namespace s = elim (id_validator 16 (str s)) [ valid ↦ valid | other ↦ wrong_value ]

  abbrev in_namespace : List String → Status
  in_namespace (p_value ∷ []) = id_in_namespace p_value
  in_namespace (p_type ∷ p_value ∷ []) =
      if contains p_type namespaces then id_in_namespace p_value else wrong_value
  in_namespace parts = wrong_value

  -- A named prefix, or one in a namespace, has one dot at most, no colon, and no digit at the start.
  unfoldable pub prefixset_status : Use → Value → Status
  unfolding split_path has_colon text_le common_addr_parse contains id_validator
  prefixset_status u (str s) =
      if (leb (length (split_path s)) 2 && not (text_le s "9")) && not (has_colon s)
      then in_namespace (split_path s)
      else if has_colon s
      then common_addr_parse u false ipv6 (str s)
      else common_addr_parse u false ipv4 (str s)
  prefixset_status u v = wrong_type

  abbrev prefix_or_name : Option Net → Option Net → String → Status
  prefix_or_name (some p) o s = replaced (dict (entry "ipv4" (str s) end))
  prefix_or_name none (some p) s = replaced (dict (entry "ipv6" (str s) end))
  prefix_or_name none none s = with_named wrong_value (named_prefix s)

  unfoldable pub prefix_str_status : Value → Status
  prefix_str_status (str s) = prefix_or_name (net_parse ipv4 true s) (net_parse ipv6 true s) s
  prefix_str_status v = wrong_type

-- `eui` is netaddr.EUI, as a number: the multicast bit is the lowest one of the first byte.
abbrev unicast : Option ℕ → Status
unicast none = wrong_value
unicast (some n) = if eqb (n / 1099511627776 % 2) 1 then wrong_value else valid

unfoldable pub mac_status : (String → Option ℕ) → Value → Status
mac_status eui (str s) = unicast (eui s)
mac_status eui v = wrong_type

abbrev is_digit : ℕ → Bool
is_digit c = leb b'0' c && leb c b'9'

abbrev is_hex : ℕ → Bool
is_hex c = is_digit c || (leb b'a' c && leb c b'f') || (leb b'A' c && leb c b'F')

-- (:[0-9a-fA-F]{2}){n}
unfoldable pub esi_bytes : ℕ → String → Bool
esi_bytes zero String.[] = true
esi_bytes (suc n) (String.◌∷◌ c (String.◌∷◌ h (String.◌∷◌ l s))) =
    (eqb (code c) b':' && (is_hex (code h) && is_hex (code l))) && esi_bytes n s
esi_bytes n s = false

unfoldable pub esi_value_status : Value → Status
unfolding esi_bytes
esi_value_status (str (String.◌∷◌ a (String.◌∷◌ b s))) =
    if (eqb (code a) b'0' && eqb (code b) b'0') && esi_bytes 9 s then valid else wrong_value
esi_value_status (str s) = wrong_value
esi_value_status v = wrong_type

unfoldable pub net_digits : String → Option ℕ
net_digits String.[] = some 0
net_digits (String.◌∷◌ c s) = elim (net_digits s) [
  | none ↦ none
  | some n ↦
      if eqb (code c) b'.'
      then some n
      else if is_digit (code c) || (leb b'a' (code c) && leb (code c) b'f')
      then some (n + 1)
      else none
]

abbrev even_digits : Option ℕ → Status
even_digits none = wrong_value
even_digits (some n) = if eqb (n % 2) 0 then valid else wrong_value

unfoldable pub net_status : Value → Status
unfolding net_digits
net_status (str s) = if s == "" then wrong_value else even_digits (net_digits s)
net_status v = wrong_type
