-- ===== src/Parts/Files/Order.antt =====
-- src/parts/image-list-camera.cpp: the order in which the pictures are shown.
use mathlib.Core.List.{Memᴰ, Perm}
use donkeycar_gt.Prelude.{
  ℕ, zero, suc, ◌≡◌, refl, Bool, false, List, [], ◌∷◌, ◌++◌, some, get_elem?,
}
use donkeycar_gt.Prelude.Relations.{All}
use donkeycar_gt.Prelude.Int.{ℤ, pos, ltb_ℤ}
use donkeycar_gt.Run.{Run, ok, fault}
use donkeycar_gt.Parts.Files.{Name, select_images, token, before, with_path, image_filenames}

-- No name has a smaller key than one before it.
abbrev pub IsSorted : (Name → ℤ) → List Name → Type 0
IsSorted key [] = Unit
IsSorted key (name ∷ names) =
    All (λ later. ltb_ℤ (key later) (key name) ≡ false) names × IsSorted key names

-- What is used of `std::sort`: a comparison that returns, and compares by a key, is a strict weak order, and
-- then the names come in another order, sorted by it.
pub record IsSort (sort : (Name → Name → Run Bool) → List Name → Run (List Name)) : Type 0 where
  pub sorts :
      (less : Name → Name → Run Bool) (key : Name → ℤ) (names : List Name)
      → ((a b : Name) → Memᴰ a names → Memᴰ b names → less a b ≡ ok (ltb_ℤ (key a) (key b)))
      → (sorted : List Name) × (sort less names ≡ ok sorted)
        × Perm names sorted
        × IsSorted key sorted

-- The number in front of a name, and 0 where there is none.
abbrev or_zero : Run ℤ → ℤ
or_zero (ok z) = z
or_zero (fault e) = pos 0

pub number : Name → ℤ
number name = or_zero (token name)

before-number :
    (a b : Name) (x y : ℤ)
    → token a ≡ ok x
    → token b ≡ ok y
    → before a b ≡ ok (ltb_ℤ (number a) (number b))
unfolding before number
before-number a b x y ea eb = rw (ea, eb) refl

-- If a number stands in front of each of the pictures of the directory, then the constructor finds those
-- pictures and no others, each as often as in the directory, in the order of their numbers.
pub image_filenames-IsSorted :
    (sort : (Name → Name → Run Bool) → List Name → Run (List Name))
    → IsSort sort
    → (base : Name) (entries : List Name)
    → ((name : Name) → Memᴰ name (select_images entries) → (z : ℤ) × (token name ≡ ok z))
    → (files : List Name) × (image_filenames sort base entries ≡ ok (with_path base files))
      × Perm (select_images entries) files
      × IsSorted number files
unfolding image_filenames
image_filenames-IsSorted sort is base entries numbered =
    let (files, done, perm, in_order) = is.sorts before number (select_images entries) (λ a b ha hb.
      before-number a b (numbered a ha).0 (numbered b hb).0 (numbered a ha).1 (numbered b hb).1) in
    (files, rw done refl, perm, in_order)

-- An entry with the path in front is that of a file.
pub get_elem?-with_path :
    (base : Name) (files : List Name) (i : ℕ) (name : Name)
    → get_elem? (with_path base files) i ≡ some name
    → (f : Name) × Memᴰ f files × (base ++ b'/' ∷ f ≡ name)
unfolding with_path
get_elem?-with_path base [] i name e = cc
get_elem?-with_path base (f ∷ files) zero name e = (f, Memᴰ.head refl, cc)
get_elem?-with_path base (f ∷ files) (suc i) name e =
    let (g, m, same) = get_elem?-with_path base files i name e in (g, Memᴰ.tail m, same)
