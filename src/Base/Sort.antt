-- ===== src/Base/Sort.antt =====
-- sort.Slice, for an order in which no two entries tie, and sort.SliceStable; and the order of Go strings.
use mathlib.Core.Bool.{Bool, true, false}
use mathlib.Core.List.{List, [], ◌∷◌, Perm}
use mathlib.Core.Path.{◌≡◌}
use xray_checker_modify.Base.Lists.{All}
use mathlib.Core.List.Perm as PermLaws
use xray_checker_modify.Base.Tests.{ltb, ◌==◌, if◌then◌else◌, Bool-cases}
use mathlib.Core.Logic.{inl, inr}
use xray_checker_modify.Base.Codes.{Text}

unfoldable pub text_lt : Text → Text → Bool
text_lt [] [] = false
text_lt [] (b ∷ u) = true
text_lt (a ∷ t) [] = false
text_lt (a ∷ t) (b ∷ u) = if a == b then text_lt t u else ltb a b

-- Each entry is related to all that follow it.
abbrev pub Sorted {ℓ κ} : {A : Type ℓ} → (A → A → Type κ) → List A → Type κ
Sorted R [] = Unit
Sorted R (x ∷ xs) = All (R x) xs × Sorted R xs

module _ {ℓ} {A : Type ℓ} (before : A → A → Bool) where
  unfoldable pub insert_sorted : A → List A → List A
  insert_sorted x [] = x ∷ []
  insert_sorted x (y ∷ ys) = if before y x then y ∷ insert_sorted x ys else x ∷ y ∷ ys

  unfoldable pub sort_by : List A → List A
  unfolding insert_sorted
  sort_by [] = []
  sort_by (x ∷ xs) = insert_sorted x (sort_by xs)

  insert_sorted-Perm : (x : A) (ys : List A) → Perm (insert_sorted x ys) (x ∷ ys)
  unfolding insert_sorted
  insert_sorted-Perm x [] = PermLaws.refl (x ∷ [])
  insert_sorted-Perm x (y ∷ ys) = elim (Bool-cases (before y x)) [
    | inl e ↦
        rw e (PermLaws.trans (PermLaws.cons y (insert_sorted-Perm x ys)) (PermLaws.swap x y ys))
    | inr e ↦ rw e (PermLaws.refl (x ∷ y ∷ ys))
  ]

  pub sort_by-Perm : (xs : List A) → Perm (sort_by xs) xs
  unfolding sort_by
  sort_by-Perm [] = PermLaws.refl []
  sort_by-Perm (x ∷ xs) =
      PermLaws.trans (insert_sorted-Perm x (sort_by xs)) (PermLaws.cons x (sort_by-Perm xs))

  All-insert_sorted {κ} :
      (P : A → Type κ) (x : A) (ys : List A) → P x → All P ys → All P (insert_sorted x ys)
  unfolding insert_sorted
  All-insert_sorted P x [] p h = (p, tt)
  All-insert_sorted P x (y ∷ ys) p h = elim (Bool-cases (before y x)) [
    | inl e ↦ rw e (h.0, All-insert_sorted P x ys p h.1)
    | inr e ↦ rw e (p, h)
  ]

  pub All-sort_by {κ} : (P : A → Type κ) (xs : List A) → All P xs → All P (sort_by xs)
  unfolding sort_by
  All-sort_by P [] h = tt
  All-sort_by P (x ∷ xs) h = All-insert_sorted P x (sort_by xs) h.0 (All-sort_by P xs h.1)

  -- A relation between the entries of a kind that the test does not contradict.
  module _ {ι κ} (P : A → Type ι) (R : A → A → Type κ)
      (trans : (x y z : A) → P y → R x y → R y z → R x z)
      (up : (x y : A) → P x → P y → before x y ≡ true → R x y)
      (down : (x y : A) → P x → P y → before x y ≡ false → R y x) where
    related : (x y : A) (ys : List A) → P y → R x y → All (R y) ys → All (R x) ys
    related x y [] p r h = tt
    related x y (z ∷ ys) p r h = (trans x y z p r h.0, related x y ys p r h.1)

    insert_sorted-Sorted :
        (x : A) (ys : List A) → P x → All P ys → Sorted R ys → Sorted R (insert_sorted x ys)
    unfolding insert_sorted
    insert_sorted-Sorted x [] p a h = (tt, tt)
    insert_sorted-Sorted x (y ∷ ys) p a h = elim (Bool-cases (before y x)) [
      | inl e ↦
          rw e
            (All-insert_sorted (R y) x ys (up y x a.0 p e) h.0, insert_sorted-Sorted x ys p a.1 h.1)
      | inr e ↦ let r = down y x a.0 p e in rw e ((r, related x y ys a.0 r h.0), h)
    ]

    pub sort_by-SortedIn : (xs : List A) → All P xs → Sorted R (sort_by xs)
    unfolding sort_by
    sort_by-SortedIn [] a = tt
    sort_by-SortedIn (x ∷ xs) a =
        insert_sorted-Sorted x (sort_by xs) a.0 (All-sort_by P xs a.1) (sort_by-SortedIn xs a.1)

  All-trivial : (xs : List A) → All (λ _. Unit {0}) xs
  All-trivial [] = tt
  All-trivial (x ∷ xs) = (tt, All-trivial xs)

  pub sort_by-Sorted {κ} :
      (R : A → A → Type κ)
      → ((x y z : A) → R x y → R y z → R x z)
      → ((x y : A) → before x y ≡ true → R x y)
      → ((x y : A) → before x y ≡ false → R y x)
      → (xs : List A) → Sorted R (sort_by xs)
  sort_by-Sorted R trans up down xs =
      sort_by-SortedIn (λ _. Unit {0}) R (λ x y z p. trans x y z) (λ x y p q. up x y)
        (λ x y p q. down x y) xs (All-trivial xs)
