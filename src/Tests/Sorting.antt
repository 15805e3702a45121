-- ===== src/Tests/Sorting.antt =====
-- src/parts/image-list-camera.cpp: a sort with the behaviour that is relied on, and the order of files.
use mathlib.Core.List.{Memᴰ, Perm}
use mathlib.Core.List.Perm
use donkeycar_gt.Prelude.{
  ◌^◌, ◌≡◌, refl, Bool, true, false, List, [], ◌∷◌, ◌++◌, ltb, if◌then◌else◌, inl, inr, Bool-cases,
  arith,
}
use donkeycar_gt.Prelude.Relations.{All}
use donkeycar_gt.Prelude.Int.{ℤ, pos, ltb_ℤ}
use donkeycar_gt.Run.{Run, ok, fault, out_of_range, ◌>>=◌}
use donkeycar_gt.Parts.Files.{Name, match, select_images, token}
use donkeycar_gt.Parts.Files.RoundTrip.{decimal, digits_before, token-decimal}
use donkeycar_gt.Parts.Files.Token.{token-value}
use donkeycar_gt.Parts.Files.Order.{IsSorted, IsSort}

All-of_mem : {P : Name → Type 0} (xs : List Name) → ((y : Name) → Memᴰ y xs → P y) → All P xs
All-of_mem [] h = tt
All-of_mem (x ∷ xs) h = (h x (Memᴰ.head refl), All-of_mem xs (λ y hy. h y (Memᴰ.tail hy)))

insert : (Name → Name → Run Bool) → Name → List Name → Run (List Name)
insert less x [] = ok (x ∷ [])
insert less x (y ∷ ys) = do
  later ← less y x
  rest ← insert less x ys
  ok (if later then y ∷ rest else x ∷ y ∷ ys)

pub sort : (Name → Name → Run Bool) → List Name → Run (List Name)
unfolding insert
sort less [] = ok []
sort less (x ∷ xs) = sort less xs >>= insert less x

-- The same by the key.
module _ (key : Name → ℤ) where
  put_in : Name → List Name → List Name
  put_in x [] = x ∷ []
  put_in x (y ∷ ys) =
      let rest = put_in x ys in if ltb_ℤ (key y) (key x) then y ∷ rest else x ∷ y ∷ ys

  sorted : List Name → List Name
  unfolding put_in
  sorted [] = []
  sorted (x ∷ xs) = put_in x (sorted xs)

  put_in-perm : (x : Name) (ys : List Name) → Perm (x ∷ ys) (put_in x ys)
  unfolding put_in
  put_in-perm x [] = Perm.refl (x ∷ [])
  put_in-perm x (y ∷ ys) = elim (Bool-cases (ltb_ℤ (key y) (key x))) [
    | inl later ↦ rw later (Perm.trans (Perm.swap y x ys) (Perm.cons y (put_in-perm x ys)))
    | inr first ↦ rw first (Perm.refl (x ∷ y ∷ ys))
  ]

  sorted-perm : (xs : List Name) → Perm xs (sorted xs)
  unfolding sorted
  sorted-perm [] = Perm.refl []
  sorted-perm (x ∷ xs) = Perm.trans (Perm.cons x (sorted-perm xs)) (put_in-perm x (sorted xs))

  abbrev AtLeast : ℤ → List Name → Type 0
  AtLeast z = All (λ later. ltb_ℤ (key later) z ≡ false)

  put_in-All :
      (P : Name → Type 0) (x : Name) (ys : List Name) → P x → All P ys → All P (put_in x ys)
  unfolding put_in
  put_in-All P x [] hx h = (hx, tt)
  put_in-All P x (y ∷ ys) hx h = elim (Bool-cases (ltb_ℤ (key y) (key x))) [
    | inl later ↦ rw later (h.0, put_in-All P x ys hx h.1)
    | inr first ↦ rw first (hx, h)
  ]

  sorted-All : (P : Name → Type 0) (xs : List Name) → All P xs → All P (sorted xs)
  unfolding sorted
  sorted-All P [] h = tt
  sorted-All P (x ∷ xs) h = put_in-All P x (sorted xs) h.0 (sorted-All P xs h.1)

  ltb_ℤ-asym : (a b : ℤ) → ltb_ℤ a b ≡ true → ltb_ℤ b a ≡ false
  ltb_ℤ-asym a b h = ground arith

  ltb_ℤ-trans : (a b c : ℤ) → ltb_ℤ b a ≡ false → ltb_ℤ c b ≡ false → ltb_ℤ c a ≡ false
  ltb_ℤ-trans a b c h k = ground arith

  AtLeast-trans : (a b : ℤ) (ys : List Name) → ltb_ℤ b a ≡ false → AtLeast b ys → AtLeast a ys
  AtLeast-trans a b [] h k = tt
  AtLeast-trans a b (y ∷ ys) h k = (ltb_ℤ-trans a b (key y) h k.0, AtLeast-trans a b ys h k.1)

  put_in-IsSorted : (x : Name) (ys : List Name) → IsSorted key ys → IsSorted key (put_in x ys)
  unfolding put_in
  put_in-IsSorted x [] h = (tt, tt)
  put_in-IsSorted x (y ∷ ys) h = elim (Bool-cases (ltb_ℤ (key y) (key x))) [
    | inl later ↦ rw later (
      put_in-All (λ z. ltb_ℤ (key z) (key y) ≡ false) x ys (ltb_ℤ-asym (key y) (key x) later) h.0,
      put_in-IsSorted x ys h.1,
    )
    | inr first ↦ rw first ((first, AtLeast-trans (key x) (key y) ys first h.0), h)
  ]

  sorted-IsSorted : (xs : List Name) → IsSorted key (sorted xs)
  unfolding sorted
  sorted-IsSorted [] = tt
  sorted-IsSorted (x ∷ xs) = put_in-IsSorted x (sorted xs) (sorted-IsSorted xs)

  insert-put_in :
      (less : Name → Name → Run Bool) (x : Name) (ys : List Name)
      → All (λ y. less y x ≡ ok (ltb_ℤ (key y) (key x))) ys
      → insert less x ys ≡ ok (put_in x ys)
  unfolding insert put_in
  insert-put_in less x [] h = refl
  insert-put_in less x (y ∷ ys) h = rw (h.0, insert-put_in less x ys h.1) refl

  sort-sorted :
      (less : Name → Name → Run Bool) (xs : List Name)
      → ((a b : Name) → Memᴰ a xs → Memᴰ b xs → less a b ≡ ok (ltb_ℤ (key a) (key b)))
      → sort less xs ≡ ok (sorted xs)
  unfolding sort sorted
  sort-sorted less [] h = refl
  sort-sorted less (x ∷ xs) h =
      rw (sort-sorted less xs (λ a b ha hb. h a b (Memᴰ.tail ha) (Memᴰ.tail hb))) (
        insert-put_in less x (sorted xs) (
          sorted-All (λ y. less y x ≡ ok (ltb_ℤ (key y) (key x))) xs
            (All-of_mem xs (λ y hy. h y x (Memᴰ.tail hy) (Memᴰ.head refl)))))

pub sort-IsSort : IsSort sort
sort-IsSort = record {
  sorts = λ less key names h. (
    sorted key names,
    sort-sorted key less names h,
    sorted-perm key names,
    sorted-IsSorted key names,
  );
}

abbrev pub entries : List Name
entries = (b'1' ∷ b'0' ∷ b'_' ∷ match) ∷ (b'x' ∷ []) ∷ (b'9' ∷ b'_' ∷ match) ∷ []

token_ten : token (b'1' ∷ b'0' ∷ b'_' ∷ match) ≡ ok (pos 10)
token_ten = token-value b'1' (b'0' ∷ []) match (refl, (refl, tt))

token_nine : token (b'9' ∷ b'_' ∷ match) ≡ ok (pos 9)
token_nine = token-value b'9' [] match (refl, tt)

pub entries_numbered :
    (name : Name) → Memᴰ name (select_images entries) → (z : ℤ) × (token name ≡ ok z)
unfolding select_images
entries_numbered name (Memᴰ.head e) = (pos 10, rw e token_ten)
entries_numbered name (Memᴰ.tail (Memᴰ.head e)) = (pos 9, rw e token_nine)
entries_numbered name (Memᴰ.tail (Memᴰ.tail m)) = elim m [ ]

token-decimal_example :
    token (decimal 120 ++ b'_' ∷ match)
    ≡ (if ltb 120 (2 ^ 31) then ok (pos 120) else fault out_of_range)
token-decimal_example = token-decimal 120 match

printed : decimal 1_205 ≡ b'1' ∷ b'2' ∷ b'0' ∷ b'5' ∷ []
unfolding decimal digits_before
printed = refl
