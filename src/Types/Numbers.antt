-- ===== src/Types/Numbers.antt =====
-- AS numbers, route distinguishers and time intervals
use Prim.Native.Char.{code}
use netlab.Prelude.{
  ℕ, ◌+◌, ◌*◌, String, Bool, false, not, ◌||◌, Option, none, some, List, [], ◌∷◌, length, leb, ltb,
  eqb, if◌then◌else◌, is_some,
}
use netlab.Data.{ℤ, pos, negsuc, Value, null, bool, int, str}
use netlab.Data.Walks.{split_path}
use netlab.Types.Framework.{Status, valid, replaced, wrong_type, wrong_value, TypeTest}

abbrev below_or_at : ℕ → ℤ → Bool
below_or_at top (pos n) = leb n top
below_or_at top (negsuc n) = false

unfoldable pub asn2_status : Value → Status
asn2_status (int n) = if below_or_at 65535 n then valid else wrong_value
asn2_status v = wrong_type

-- The number so far, or the error of a part.
pub data AsdotScan : Type 0 where
  total : ℕ → AsdotScan
  failed : Status → AsdotScan

-- value.split(':')
unfoldable pub split_colon : String → List String
split_colon String.[] = "" ∷ []
split_colon (String.◌∷◌ c s) = elim (split_colon s) [
  | [] ↦ []
  | t ∷ ts ↦ if eqb (code c) b':' then "" ∷ t ∷ ts else String.◌∷◌ c t ∷ ts
]

module _ (int_of : String → Option ℤ) where
  abbrev pub part_number : Option ℤ → ℕ
  part_number (some (pos n)) = n
  part_number o = 0

  -- On parts that the scan has accepted.
  unfoldable pub transform_asdot : List String → ℕ → ℕ
  transform_asdot [] asv = asv
  transform_asdot (asp ∷ parts) asv = transform_asdot parts (65536 * asv + part_number (int_of asp))

  abbrev pub part_status : Option ℤ → Option Status
  part_status none = some wrong_type
  part_status (some n) = if below_or_at 65535 n then none else some wrong_value

  abbrev pub scan_step : Option Status → AsdotScan → AsdotScan
  scan_step none rest = rest
  scan_step (some s) rest = failed s

  unfoldable pub scan_asdot : List String → ℕ → AsdotScan
  scan_asdot [] asv = total asv
  scan_asdot (asn ∷ parts) asv =
      scan_step (part_status (int_of asn))
        (scan_asdot parts (65536 * asv + part_number (int_of asn)))

  abbrev pub scanned : List String → AsdotScan → Status
  scanned parts (failed s) = s
  scanned parts (total asv) =
      if eqb asv 0 || leb 4294967296 asv
      then wrong_value
      else replaced (int (pos (transform_asdot parts 0)))

  unfoldable pub asdot_parsing : String → Status
  unfolding split_path scan_asdot transform_asdot
  asdot_parsing s =
      if ltb 2 (length (split_path s))
      then wrong_type
      else scanned (split_path s) (scan_asdot (split_path s) 0)

  unfoldable pub asn_status : Value → Status
  unfolding asdot_parsing
  asn_status (str s) = asdot_parsing s
  asn_status (int n) = if below_or_at 4294967295 n then valid else wrong_value
  asn_status v = wrong_type

  abbrev pub must_be_asn : TypeTest
  must_be_asn = record { false_value = none; empty_value = none; test = asn_status }

  -- `is_address` says whether ipaddress.IPv4Address accepts a text.
  abbrev rd_parts : (String → Bool) → List String → Status
  rd_parts is_address (rdt ∷ rdi ∷ []) =
      if not (is_some (int_of rdi))
      then wrong_value
      else if is_some (int_of rdt) || is_address rdt
      then valid
      else wrong_value
  rd_parts is_address parts = wrong_value

  -- An integer, of which Python's Booleans are some, and None are accepted.
  unfoldable pub rd_status : (String → Bool) → Value → Status
  unfolding split_colon
  rd_status is_address (int n) = valid
  rd_status is_address (bool b) = valid
  rd_status is_address null = valid
  rd_status is_address (str s) = rd_parts is_address (split_colon s)
  rd_status is_address v = wrong_type

-- `to_msec` is the text's number of milliseconds, `none` where it is no interval.
unfoldable pub time_status : (String → Option ℕ) → Value → Status
time_status to_msec (int n) = valid
time_status to_msec (str s) = elim (to_msec s) [
  | none ↦ wrong_type
  | some n ↦ replaced (int (pos n))
]
time_status to_msec v = wrong_type
