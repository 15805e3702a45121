-- ===== src/Parts/Files/Selected.antt =====
-- src/parts/image-list-camera.cpp: which files of a directory are shown.
use mathlib.Core.List.{Memᴰ}
use mathlib.Core.List.Memᴰ
use donkeycar_gt.Prelude.{
  ◌-◌, ◌≤◌, ◌≡◌, refl, ◌↔◌, ◌∙◌, ap, sym, true, List, [], ◌∷◌, ◌++◌, length, take, drop,
  length-append, take-append-drop, arith, Bool-cases, inl, inr,
}
use donkeycar_gt.Parts.Files.{Name, equal, match, is_image, select_images}

equal_sound : (xs ys : Name) → equal xs ys ≡ true → xs ≡ ys
equal_sound [] [] e = refl
equal_sound [] (y ∷ ys) e = cc
equal_sound (x ∷ xs) [] e = cc
equal_sound (x ∷ xs) (y ∷ ys) e = ground (arith, equal_sound xs ys)

equal_refl : (xs : Name) → equal xs xs ≡ true
equal_refl [] = refl
equal_refl (x ∷ xs) = ground (arith, equal_refl xs)

drop-length-append : (xs ys : Name) → drop (length xs) (xs ++ ys) ≡ ys
drop-length-append [] ys = refl
drop-length-append (x ∷ xs) ys = drop-length-append xs ys

is_image_sound : (name : Name) → is_image name ≡ true → (stem : Name) × (name ≡ stem ++ match)
unfolding is_image
is_image_sound name e =
    let n = length name - length match in
    let same : drop n name ≡ match = equal_sound (drop n name) match (ground (arith, e)) in
    (take n name, sym (take-append-drop n name) ∙ ap (λ end. take n name ++ end) same)

is_image_complete : (stem : Name) → is_image (stem ++ match) ≡ true
unfolding is_image
is_image_complete stem =
    let n : length (stem ++ match) - length match ≡ length stem =
      omega (arith, length-append stem match) in
    let end : equal (drop (length (stem ++ match) - length match) (stem ++ match)) match ≡ true =
      rw (n, drop-length-append stem match) (equal_refl match) in
    let long : 4 ≤ length (stem ++ match) = omega (arith, length-append stem match) in
    ground (arith, end, long)

select_images_sound :
    (entries : List Name) (name : Name)
    → Memᴰ name (select_images entries)
    → Memᴰ name entries × (is_image name ≡ true)
unfolding select_images
select_images_sound [] name m = elim m [ ]
select_images_sound (x ∷ xs) name m = elim (Bool-cases (is_image x)) [
  | inl chosen ↦ elim (Memᴰ.cases_cons (rw chosen at m)) [
    | inl same ↦ (Memᴰ.head same, rw same chosen)
    | inr later ↦ let (here, image) = select_images_sound xs name later in (Memᴰ.tail here, image)
  ]
  | inr left_out ↦
      let (here, image) = select_images_sound xs name (rw left_out at m) in (Memᴰ.tail here, image)
]

select_images_complete :
    (entries : List Name) (name : Name)
    → Memᴰ name entries
    → is_image name ≡ true
    → Memᴰ name (select_images entries)
unfolding select_images
select_images_complete [] name m image = elim m [ ]
select_images_complete (x ∷ xs) name m image = elim (Memᴰ.cases_cons m) [
  | inl same ↦ elim (Bool-cases (is_image x)) [
    | inl chosen ↦ rw chosen (Memᴰ.head same)
    | inr left_out ↦ cc
  ]
  | inr later ↦
      let rest = select_images_complete xs name later image in
      elim (Bool-cases (is_image x)) [
        | inl chosen ↦ rw chosen (Memᴰ.tail rest)
        | inr left_out ↦ rw left_out rest
      ]
]

-- The camera shows exactly the entries of the directory whose names end in ".jpg".
pub select_images_iff :
    (entries : List Name) (name : Name)
    → Memᴰ name (select_images entries)
      ↔ (Memᴰ name entries × (stem : Name) × (name ≡ stem ++ match))
select_images_iff entries name = (
  (λ m.
      let (here, image) = select_images_sound entries name m in
      let (stem, ends) = is_image_sound name image in (here, stem, ends)),
  (λ (here, stem, ends).
      select_images_complete entries name here (ap is_image ends ∙ is_image_complete stem)),
)
