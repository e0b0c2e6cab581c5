-- ===== src/Base/Distinct.antt =====
-- Lists of texts without repetition, and how many of them fit into another list.
use Prim.Native.Nat.{suc, ◌≤◌}
use mathlib.Core.Path.{◌≡◌, refl}
use mathlib.Core.Bool.{Bool, true, false, not, ◌&&◌, ◌||◌}
use mathlib.Core.List.{List, [], ◌∷◌, ◌++◌}
use native.Mathlib.Omega.{arith}
use xray_checker_modify.Base.Tests.{if◌then◌else◌, and_true, and_left}
use xray_checker_modify.Base.Codes.{Text, text_eq, text_eq_iff}
use xray_checker_modify.Base.Lists.{length, all}

unfoldable pub member : Text → List Text → Bool
member t [] = false
member t (u ∷ us) = text_eq u t || member t us

unfoldable pub distinct : List Text → Bool
unfolding member
distinct [] = true
distinct (t ∷ ts) = not (member t ts) && distinct ts

without : Text → List Text → List Text
without t [] = []
without t (u ∷ us) = if text_eq u t then us else u ∷ without t us

length-without :
    (t : Text) (us : List Text) → member t us ≡ true → length us ≡ suc (length (without t us))
unfolding member without
length-without t [] h = ground arith
length-without t (u ∷ us) h = ground (arith, length-without t us)

member-without :
    (t v : Text) (us : List Text)
    → text_eq t v ≡ false
    → member v us ≡ true
    → member v (without t us) ≡ true
unfolding member without
member-without t v [] n h = ground arith
member-without t v (u ∷ us) n h =
    ground (arith, text_eq_iff u t, text_eq_iff u v, text_eq_iff t v, member-without t v us)

abbrev pub AllIn : List Text → List Text → Type 0
AllIn ts us = all (λ t. member t us) ts ≡ true

AllIn-without :
    (t : Text) (ts us : List Text) → member t ts ≡ false → AllIn ts us → AllIn ts (without t us)
unfolding member
AllIn-without t [] us n h = refl
AllIn-without t (v ∷ ts) us n h =
    ground (arith, text_eq_iff t v, text_eq_iff v t, AllIn-without t ts us, member-without t v us)

-- Distinct texts that all stand in a list are at most as many as its entries.
pub distinct-length : (ts us : List Text) → distinct ts ≡ true → AllIn ts us → length ts ≤ length us
unfolding distinct
distinct-length [] us d h = omega arith
distinct-length (t ∷ ts) us d h =
    let n : member t ts ≡ false = ground arith in
    omega (
      arith,
      length-without t us (and_left (member t us) _ h),
      distinct-length ts (without t us) (and_true (not (member t ts)) _ d)
          (AllIn-without t ts us n (and_true (member t us) _ h)),
    )

pub member-append :
    (t u : Text) (ts : List Text) → member t (ts ++ u ∷ []) ≡ (member t ts || text_eq u t)
unfolding member
member-append t u [] = ground arith
member-append t u (v ∷ ts) = ground (arith, member-append t u ts)

pub distinct-append :
    (ts : List Text) (t : Text)
    → distinct ts ≡ true
    → member t ts ≡ false
    → distinct (ts ++ t ∷ []) ≡ true
unfolding distinct
distinct-append [] t d n = refl
distinct-append (v ∷ ts) t d n =
    ground (arith, member-append v t ts, text_eq_iff v t, text_eq_iff t v, distinct-append ts t)

pub all-append {ℓ} :
    {A : Type ℓ} (p : A → Bool) (xs : List A) (x : A)
    → all p xs ≡ true
    → p x ≡ true
    → all p (xs ++ x ∷ []) ≡ true
all-append p [] x h q = ground arith
all-append p (y ∷ xs) x h q = ground (arith, all-append p xs x)
