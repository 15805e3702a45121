-- ===== src/Parts/Files/Token.antt =====
-- src/parts/image-list-camera.cpp: the number in front of a file name, as the comparison reads it.
use donkeycar_gt.Prelude.{
  ℕ, ◌+◌, ◌-◌, ◌*◌, ◌^◌, ◌≡◌, refl, ◌∙◌, ap, true, [], ◌∷◌, ◌++◌, ltb, if◌then◌else◌, arith,
}
use donkeycar_gt.Prelude.Relations.{All}
use donkeycar_gt.Prelude.Int.{pos}
use donkeycar_gt.Run.{ok, fault, out_of_range}
use donkeycar_gt.Parts.Files.{
  Name, is_digit, digits_from, starts_number, read_number, read_signed, prefix, stoi, token,
}

-- The number that a text of digits writes, the place values written out.
abbrev pub place : Name → ℕ
place [] = 1
place (c ∷ ds) = 10 * place ds

abbrev pub value : Name → ℕ
value [] = 0
value (c ∷ ds) = (c - b'0') * place ds + value ds

abbrev pub AllDigits : Name → Type 0
AllDigits = All (λ c. is_digit c ≡ true)

digits_from-value :
    (acc : ℕ) (ds : Name) → AllDigits ds → digits_from acc ds ≡ acc * place ds + value ds
unfolding digits_from
digits_from-value acc [] h = omega arith
digits_from-value acc (c ∷ ds) h =
    rw (h.0) (digits_from-value (acc * 10 + (c - b'0')) ds h.1 ∙ grind arith)

prefix-digits : (ds rest : Name) → AllDigits ds → prefix (ds ++ b'_' ∷ rest) ≡ ds
unfolding prefix
prefix-digits [] rest h = refl
prefix-digits (c ∷ ds) rest h = ground (arith, h.0, prefix-digits ds rest h.1)

stoi-digits :
    (c : ℕ) (ds : Name)
    → AllDigits (c ∷ ds)
    → stoi (c ∷ ds)
      ≡ (if ltb (value (c ∷ ds)) (2 ^ 31) then ok (pos (value (c ∷ ds))) else fault out_of_range)
unfolding stoi read_signed read_number starts_number
stoi-digits c ds h = ground (arith, h.0, digits_from-value 0 (c ∷ ds) h)

-- The token of a name that starts with digits and an underscore is the number that the digits write, if
-- that is an `int`, and an `out_of_range` exception if not; what follows the underscore plays no part.
pub token-value :
    (c : ℕ) (ds rest : Name)
    → AllDigits (c ∷ ds)
    → token ((c ∷ ds) ++ b'_' ∷ rest)
      ≡ (if ltb (value (c ∷ ds)) (2 ^ 31) then ok (pos (value (c ∷ ds))) else fault out_of_range)
unfolding token
token-value c ds rest h = ap stoi (prefix-digits (c ∷ ds) rest h) ∙ stoi-digits c ds h
