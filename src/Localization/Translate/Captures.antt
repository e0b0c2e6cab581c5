-- ===== src/Localization/Translate/Captures.antt =====
-- What a pattern captures, its replacement shows: no number or name is lost in translation.
use mathlib.Core.List.{Memᴰ}
use xray_checker_modify.Base.{
  ℕ, zero, suc, ◌≤◌, Bool, true, false, ◌&&◌, List, [], ◌∷◌, ◌++◌, ◌≡◌, refl, sym, ap, ◌∙◌, Text,
  ◌==◌, all, any, ==_iff, and_true, and_left, arith, append_assoc, inl, inr, Bool-cases,
}
use xray_checker_modify.Localization.Regex.{
  Re, Caps, groups, capture, Piece, code_point, group_ref, whole, pieces, expand, substitute,
}
use xray_checker_modify.Localization.Patterns.{patterns}

-- One text stands within another.
abbrev pub Within : Text → Text → Type 0
Within a b = (front : Text) × (back : Text) × (b ≡ front ++ (a ++ back))

Within-front : (a b c : Text) → Within a b → Within a (c ++ b)
Within-front a b c (front, back, e) =
    (c ++ front, back, ap (λ (t : Text). c ++ t) e ∙ sym (append_assoc c front (a ++ back)))

Within-head : (a b : Text) → Within a (a ++ b)
Within-head a b = ([], b, refl)

abbrev is_ref : ℕ → Piece → Bool
is_ref n (group_ref m) = m == n
is_ref n _ = false

-- Whether the replacement uses the group with this number.
abbrev uses : ℕ → List Piece → Bool
uses n = any (is_ref n)

abbrev uses_all : ℕ → List Piece → Bool
uses_all zero ps = true
uses_all (suc n) ps = uses (suc n) ps && uses_all n ps

uses_all-use : (m n : ℕ) (ps : List Piece) → uses_all m ps ≡ true → 1 ≤ n → n ≤ m → uses n ps ≡ true
uses_all-use zero n ps h lo hi = absurd (omega arith)
uses_all-use (suc m) n ps h lo hi = elim (Bool-cases (n == suc m)) [
  | inl e ↦ rw ((==_iff n (suc m)).0 e) (and_left (uses (suc m) ps) (uses_all m ps) h)
  | inr e ↦ uses_all-use m n ps (and_true (uses (suc m) ps) _ h) lo (ground arith)
]

uses-Within :
    (n : ℕ) (caps : Caps) (s : Text) (ps : List Piece)
    → uses n ps ≡ true
    → Within (capture n caps) (expand caps s ps)
unfolding expand
uses-Within n caps s [] h = ground arith
uses-Within n caps s (code_point c ∷ ps) h =
    Within-front (capture n caps) (expand caps s ps) (c ∷ []) (uses-Within n caps s ps h)
uses-Within n caps s (group_ref m ∷ ps) h = elim (Bool-cases (m == n)) [
  | inl e ↦ rw ((==_iff m n).0 e) (Within-head (capture n caps) (expand caps s ps))
  | inr e ↦
      Within-front (capture n caps) (expand caps s ps) (capture m caps)
        (uses-Within n caps s ps (rw e at h))
]
uses-Within n caps s (whole ∷ ps) h =
    Within-front (capture n caps) (expand caps s ps) s (uses-Within n caps s ps h)

abbrev keeps_captures : Re × Text → Bool
keeps_captures (r, replacement) = uses_all (groups r) (pieces (groups r) replacement)

patterns_keep : all keeps_captures patterns ≡ true
unfolding patterns groups pieces
patterns_keep = refl

all-Memᴰ :
    (ps : List (Re × Text)) (q : Re × Text)
    → all keeps_captures ps ≡ true
    → Memᴰ q ps
    → keeps_captures q ≡ true
all-Memᴰ [] q h m = elim m [ ]
all-Memᴰ (p ∷ ps) q h (Memᴰ.head e) = rw e (and_left (keeps_captures p) _ h)
all-Memᴰ (p ∷ ps) q h (Memᴰ.tail r) = all-Memᴰ ps q (and_true (keeps_captures p) _ h) r

-- For each pattern of the list, every numbered group of its expression, as a match captured it,
-- stands in the text that replaces the match.
pub captures-shown :
    (q : Re × Text) (n : ℕ) (caps : Caps) (s : Text)
    → Memᴰ q patterns
    → 1 ≤ n
    → n ≤ groups q.0
    → Within (capture n caps) (substitute q.0 q.1 s caps)
unfolding substitute
captures-shown q n caps s m lo hi = uses-Within n caps s (pieces (groups q.0) q.1) (
    uses_all-use (groups q.0) n (pieces (groups q.0) q.1) (all-Memᴰ patterns q patterns_keep m) lo
      hi)
