-- ===== src/Base/Assoc.antt =====
-- A Go map with text keys as an association list, whose order stands for that of an iteration.
use mathlib.Core.Path.{◌≡◌, refl}
use mathlib.Core.Option.{Option, none, some}
use mathlib.Core.List.{List, [], ◌∷◌}
use native.Mathlib.Omega.{arith}
use mathlib.Core.Logic.{inl, inr}
use mathlib.Core.Path.{subst}
use xray_checker_modify.Base.Tests.{if◌then◌else◌, Bool-cases, none-ne-some, some-eq}
use xray_checker_modify.Base.Lists.{All}
use xray_checker_modify.Base.Codes.{Text, text_eq, text_eq_refl, text_eq_iff}

module _ {ℓ} {V : Type ℓ} where
  unfoldable pub lookup : Text → List (Text × V) → Option V
  lookup k [] = none
  lookup k ((j, v) ∷ m) = if text_eq j k then some v else lookup k m

  unfoldable pub insert : Text → V → List (Text × V) → List (Text × V)
  insert k v [] = (k, v) ∷ []
  insert k v ((j, w) ∷ m) = if text_eq j k then (k, v) ∷ m else (j, w) ∷ insert k v m

  unfoldable pub delete : Text → List (Text × V) → List (Text × V)
  delete k [] = []
  delete k ((j, v) ∷ m) = if text_eq j k then delete k m else (j, v) ∷ delete k m

  pub lookup-insert :
      (k j : Text) (v : V) (m : List (Text × V))
      → lookup j (insert k v m) ≡ (if text_eq k j then some v else lookup j m)
  unfolding lookup insert
  lookup-insert k j v [] = refl
  lookup-insert k j v ((i, w) ∷ m) = ground (
    arith,
    text_eq_iff k j,
    text_eq_iff i k,
    text_eq_iff i j,
    text_eq_refl k,
    lookup-insert k j v m,
  )

  pub lookup-delete :
      (k j : Text) (m : List (Text × V))
      → lookup j (delete k m) ≡ (if text_eq k j then none else lookup j m)
  unfolding lookup delete
  lookup-delete k j [] = ground arith
  lookup-delete k j ((i, w) ∷ m) = ground (
    arith,
    text_eq_iff k j,
    text_eq_iff i k,
    text_eq_iff i j,
    text_eq_refl k,
    lookup-delete k j m,
  )

-- A predicate of every value.
module _ {ℓ κ} {V : Type ℓ} (P : V → Type κ) where
  abbrev pub Values : List (Text × V) → Type κ
  Values = All (λ e. P e.1)

  pub Values-insert :
      (k : Text) (v : V) (m : List (Text × V)) → P v → Values m → Values (insert k v m)
  unfolding insert
  Values-insert k v [] p h = (p, tt)
  Values-insert k v ((j, w) ∷ m) p h = elim (Bool-cases (text_eq j k)) [
    | inl e ↦ rw e (p, h.1)
    | inr e ↦ rw e (h.0, Values-insert k v m p h.1)
  ]

  pub Values-delete : (k : Text) (m : List (Text × V)) → Values m → Values (delete k m)
  unfolding delete
  Values-delete k [] h = tt
  Values-delete k ((j, w) ∷ m) h = elim (Bool-cases (text_eq j k)) [
    | inl e ↦ rw e (Values-delete k m h.1)
    | inr e ↦ rw e (h.0, Values-delete k m h.1)
  ]

  pub Values-lookup :
      (k : Text) (m : List (Text × V)) (v : V) → Values m → lookup k m ≡ some v → P v
  unfolding lookup
  Values-lookup k [] v h e = absurd (none-ne-some v e)
  Values-lookup k ((j, w) ∷ m) v h e = elim (Bool-cases (text_eq j k)) [
    | inl same ↦ subst P (some-eq w v (rw same at e)) h.0
    | inr other ↦ Values-lookup k m v h.1 (rw other at e)
  ]
