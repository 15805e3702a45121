-- ===== src/Parts/Files.antt =====
-- src/parts/image-list-camera.cpp, the constructor: which files of a directory are shown, and in which
-- order. File names are lists of bytes; listing the directory and joining paths is the file system's.
pub mod Selected
pub mod Token
pub mod RoundTrip
pub mod Order
use donkeycar_gt.Prelude.{
  ℕ, zero, suc, ◌+◌, ◌-◌, ◌*◌, ◌^◌, Bool, true, false, ◌&&◌, ◌||◌, List, [], ◌∷◌, ◌++◌, ltb, leb,
  ◌==◌, if◌then◌else◌, length, drop,
}
use donkeycar_gt.Prelude.Int.{ℤ, pos, negsuc, ltb_ℤ}
use donkeycar_gt.Run.{Run, ok, fault, out_of_range, invalid_argument, require, ◌>>=◌, ◌>>◌}

abbrev pub Name : Type 0
Name = List ℕ

-- `std::equal` over a range as long as the second
abbrev pub equal : Name → Name → Bool
equal [] [] = true
equal (a ∷ xs) (b ∷ ys) = a == b && equal xs ys
equal _ _ = false

-- ".jpg"
abbrev pub match : Name
match = b'.' ∷ b'j' ∷ b'p' ∷ b'g' ∷ []

-- `base_name.size() >= match_size && std::equal(base_name.end() - match_size, base_name.end(), match)`
pub is_image : Name → Bool
is_image name =
    leb (length match) (length name) && equal (drop (length name - length match) name) match

-- the loop over the directory
unfoldable pub select_images : List Name → List Name
unfolding is_image
select_images [] = []
select_images (name ∷ names) =
    let rest = select_images names in if is_image name then name ∷ rest else rest

-- `name.substr(0, name.find("_"))`: up to the first underscore, or all of the name
pub prefix : Name → Name
prefix [] = []
prefix (c ∷ name) = if c == b'_' then [] else c ∷ prefix name

abbrev is_space : ℕ → Bool
is_space c = c == b' ' || leb 9 c && leb c 13

abbrev is_digit : ℕ → Bool
is_digit c = leb b'0' c && leb c b'9'

-- The digits at the head of a text, on top of those that were read before.
digits_from : ℕ → Name → ℕ
digits_from acc [] = acc
digits_from acc (c ∷ name) =
    let rest = digits_from (acc * 10 + (c - b'0')) name in if is_digit c then rest else acc

starts_number : Name → Bool
starts_number [] = false
starts_number (c ∷ name) = is_digit c

abbrev fits_int : ℤ → Bool
fits_int (pos n) = ltb n (2 ^ 31)
fits_int (negsuc n) = ltb n (2 ^ 31)

abbrev negate : ℕ → ℤ
negate zero = pos 0
negate (suc n) = negsuc n

read_number : (ℕ → ℤ) → Name → Run ℤ
unfolding digits_from starts_number
read_number sign name = do
  require (starts_number name) invalid_argument
  let value = sign (digits_from 0 name)
  require (fits_int value) out_of_range
  ok value

read_signed : Name → Run ℤ
unfolding read_number
read_signed [] = fault invalid_argument
read_signed (c ∷ name) =
    if c == b'-'
    then read_number negate name
    else if c == b'+'
    then read_number pos name
    else read_number pos (c ∷ name)

-- `std::stoi`: spaces, a sign and digits; what follows the digits is left alone.
pub stoi : Name → Run ℤ
unfolding read_signed
stoi [] = fault invalid_argument
stoi (c ∷ name) = let rest = stoi name in if is_space c then rest else read_signed (c ∷ name)

-- `token_a` and `token_b` of the comparison
pub token : Name → Run ℤ
unfolding prefix stoi
token name = stoi (prefix name)

-- The comparison of the sort: the tokens of both names are read at each call.
pub before : Name → Name → Run Bool
unfolding token
before a b = do token_a ← token a; token_b ← token b; ok (ltb_ℤ token_a token_b)

-- `base_path + "/" + f` for each file
pub with_path : Name → List Name → List Name
with_path base [] = []
with_path base (f ∷ files) = (base ++ b'/' ∷ f) ∷ with_path base files

-- `m_image_filenames`, for the entries of the directory in any order. `sort` is `std::sort`, which comes
-- to a fault if a comparison that it makes does.
module _ (sort : (Name → Name → Run Bool) → List Name → Run (List Name)) where
  unfoldable pub image_filenames : Name → List Name → Run (List Name)
  unfolding select_images before with_path
  image_filenames base entries = do
    sorted ← sort before (select_images entries)
    ok (with_path base sorted)
