-- ===== src/Parts/Files/RoundTrip.antt =====
-- src/parts/image-list-camera.cpp: the comparison of the sort reads back the numbers that are written in front of
-- the file names.
use donkeycar_gt.Prelude.{
  ℕ, zero, suc, ◌+◌, ◌-◌, ◌*◌, ◌/◌, ◌%◌, ◌^◌, ◌<◌, ◌≡◌, refl, ◌∙◌, ap, true, [], ◌∷◌, ◌++◌, ltb,
  if◌then◌else◌, arith, Bool-cases, inl, inr,
}
use donkeycar_gt.Prelude.Int.{pos}
use donkeycar_gt.Run.{ok, fault, out_of_range}
use donkeycar_gt.Parts.Files.{Name, is_digit, token}
use donkeycar_gt.Parts.Files.Token.{AllDigits, place, value, token-value}

-- The decimal digits of a number, in front of `digits`.
unfoldable pub digits_before : ℕ → ℕ → Name → Name
digits_before zero n digits = digits
digits_before (suc fuel) n digits =
    let now = (b'0' + n % 10) ∷ digits in
    let more = digits_before fuel (n / 10) now in if ltb n 10 then now else more

-- A number as it is printed.
unfoldable pub decimal : ℕ → Name
decimal n = digits_before (suc n) n []

-- Starts with a digit and has only digits.
abbrev IsNumeral : Name → ℕ → Type 0
IsNumeral name n =
    (c : ℕ) × (ds : Name) × (name ≡ c ∷ ds) × AllDigits (c ∷ ds) × (value (c ∷ ds) ≡ n)

digit : (n : ℕ) → is_digit (b'0' + n % 10) ≡ true
digit n = ground arith

shifted : (n p v : ℕ) → (n / 10) * (10 * p) + ((b'0' + n % 10 - b'0') * p + v) ≡ n * p + v
shifted n p v =
    let bare : b'0' + n % 10 - b'0' ≡ n % 10 = omega arith in
    let split : n ≡ 10 * (n / 10) + n % 10 = omega arith in
    let times = ap (λ (t : ℕ). t * p) split in rw bare (omega (arith, times))

digits_before-IsNumeral :
    (fuel n : ℕ) (digits : Name)
    → n < fuel
    → AllDigits digits
    → IsNumeral (digits_before fuel n digits) (n * place digits + value digits)
unfolding digits_before
digits_before-IsNumeral zero n digits enough h = absurd (omega arith)
digits_before-IsNumeral (suc fuel) n digits enough h = elim (Bool-cases (ltb n 10)) [
  | inl last ↦
      let bare : b'0' + n % 10 - b'0' ≡ n = ground arith in
      rw last (
        b'0' + n % 10,
        digits,
        refl,
        (digit n, h),
        ap (λ (t : ℕ). t * place digits + value digits) bare,
      )
  | inr more ↦
      let now : Name = (b'0' + n % 10) ∷ digits in
      let (c, ds, e, all, v) =
        digits_before-IsNumeral fuel (n / 10) now (ground arith) (digit n, h) in
      rw more (c, ds, e, all, v ∙ shifted n (place digits) (value digits))
]

-- What is printed in front of an underscore the comparison reads back, if it is an `int`; and if it is not, the
-- comparison throws `out_of_range`.
pub token-decimal :
    (n : ℕ) (rest : Name)
    → token (decimal n ++ b'_' ∷ rest) ≡ (if ltb n (2 ^ 31) then ok (pos n) else fault out_of_range)
unfolding decimal
token-decimal n rest =
    let (c, ds, e, all, v) = digits_before-IsNumeral (suc n) n [] (omega arith) tt in
    let same : value (c ∷ ds) ≡ n = omega (arith, v) in
    ap (λ (name : Name). token (name ++ b'_' ∷ rest)) e ∙ token-value c ds rest all ∙ rw same refl
