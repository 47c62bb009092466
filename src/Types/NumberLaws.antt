-- ===== src/Types/NumberLaws.antt =====
-- AS numbers in asdot notation
use netlab.Prelude.{
  ℕ, ◌+◌, ◌*◌, ◌/◌, ◌%◌, ◌≤◌, ◌<◌, String, ◌≡◌, refl, true, false, ◌||◌, Option, some, List, [],
  ◌∷◌, length, arith, leb, eqb, ltb, if◌then◌else◌, ap, ◌∙◌,
}
use netlab.Data.{ℤ, pos, int, str}
use netlab.Data.Walks.{split_path}
use netlab.Types.Framework.{valid, replaced, wrong_type}
use netlab.Types.Numbers.{
  asn_status, asdot_parsing, scan_asdot, transform_asdot, scanned, total, part_status, part_number,
  scan_step,
}

module _ (int_of : String → Option ℤ) where
  scan_part :
      (a : String) (parts : List String) (n asv : ℕ)
      → int_of a ≡ some (pos n)
      → n ≤ 65535
      → scan_asdot int_of (a ∷ parts) asv ≡ scan_asdot int_of parts (65536 * asv + n)
  unfolding scan_asdot
  scan_part a parts n asv h small =
      ap
        (λ o.
          scan_step int_of (part_status int_of o)
            (scan_asdot int_of parts (65536 * asv + part_number int_of o)))
        h
      ∙ rw (in_octets n small) refl
    where
      in_octets : (m : ℕ) → m ≤ 65535 → leb m 65535 ≡ true
      in_octets m l = ground arith

  transform_two :
      (a b : String) (hi lo : ℕ)
      → int_of a ≡ some (pos hi)
      → int_of b ≡ some (pos lo)
      → transform_asdot int_of (a ∷ b ∷ []) 0 ≡ 65536 * hi + lo
  unfolding transform_asdot
  transform_two a b hi lo ha hb =
      ap (λ o. 65536 * (65536 * 0 + part_number int_of o) + part_number int_of (int_of b)) ha
      ∙ ap (λ o. 65536 * (65536 * 0 + hi) + part_number int_of o) hb
      ∙ omega arith

  scanned_total :
      (parts : List String) (n : ℕ)
      → 0 < n
      → n < 4294967296
      → scanned int_of parts (total n) ≡ replaced (int (pos (transform_asdot int_of parts 0)))
  scanned_total parts n low high = rw (bounded n low high) refl
    where
      bounded : (m : ℕ) → 0 < m → m < 4294967296 → (eqb m 0 || leb 4294967296 m) ≡ false
      bounded m p q = ground arith

  -- A text of two parts that int() reads as numbers of two octets, not both zero, is accepted as an AS
  -- number and replaced by a number of four octets, whose halves are the parts, and which is accepted.
  pub asdot_round_trip :
      (s a b : String) (hi lo : ℕ)
      → split_path s ≡ a ∷ b ∷ []
      → int_of a ≡ some (pos hi)
      → int_of b ≡ some (pos lo)
      → hi ≤ 65535
      → lo ≤ 65535
      → 0 < hi + lo
      → (n : ℕ) × ((asn_status int_of (str s) ≡ replaced (int (pos n)))
          × ((n / 65536 ≡ hi) × ((n % 65536 ≡ lo) × (asn_status int_of (int (pos n)) ≡ valid))))
  unfolding asn_status asdot_parsing scan_asdot
  asdot_round_trip s a b hi lo parts ha hb h l nonzero = (
    65536 * hi + lo,
    (
      ap
            (λ ps.
              if ltb 2 (length ps) then wrong_type else scanned int_of ps (scan_asdot int_of ps 0))
            parts
          ∙ ap (scanned int_of (a ∷ b ∷ [])) (
              scan_part a (b ∷ []) hi 0 ha h
              ∙ scan_part b [] lo (65536 * 0 + hi) hb l
              ∙ at_end (65536 * (65536 * 0 + hi) + lo))
          ∙ scanned_total (a ∷ b ∷ []) (65536 * (65536 * 0 + hi) + lo) (omega arith) (omega arith)
          ∙ ap (λ n. replaced (int (pos n))) (transform_two a b hi lo ha hb),
      (omega arith, (omega arith, in_four (65536 * hi + lo) (omega arith))),
    ),
  )
    where
      at_end : (n : ℕ) → scan_asdot int_of [] n ≡ total n
      at_end n = refl

      in_four : (n : ℕ) → n ≤ 4294967295 → asn_status int_of (int (pos n)) ≡ valid
      in_four n small = ground arith
