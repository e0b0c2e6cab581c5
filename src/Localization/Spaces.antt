-- ===== src/Localization/Spaces.antt =====
-- White space as localization.js removes it: `\s`, `trim`, the collapse of runs of spaces, and the
-- expression /^(\s*)(.*?)(\s*)$/su that cuts a text node's value into three pieces.
use xray_checker_modify.Base.{
  Bool, true, false, ◌&&◌, ◌||◌, [], ◌∷◌, ◌++◌, ◌≡◌, refl, Text, leb, ◌==◌, if◌then◌else◌, arith, ℕ,
}

-- The code points of `\s`, which are those that `trim` removes.
unfoldable pub is_space : ℕ → Bool
is_space c =
    leb 9 c && leb c 13
    || c == 32
    || c == 160
    || c == 5760
    || leb 8192 c && leb c 8202
    || c == 8232
    || c == 8233
    || c == 8239
    || c == 8287
    || c == 12288
    || c == 65279

-- The longest run of spaces at the front, and what follows it.
unfoldable pub leading : Text → Text
leading [] = []
leading (c ∷ s) = if is_space c then c ∷ leading s else []

unfoldable pub drop_leading : Text → Text
drop_leading [] = []
drop_leading (c ∷ s) = if is_space c then drop_leading s else c ∷ s

abbrev all_space : Text → Bool
all_space [] = true
all_space (c ∷ s) = is_space c && all_space s

-- What stands before the longest run of spaces at the end, and that run.
unfoldable pub drop_trailing : Text → Text
drop_trailing [] = []
drop_trailing (c ∷ s) = if all_space (c ∷ s) then [] else c ∷ drop_trailing s

unfoldable pub trailing : Text → Text
trailing [] = []
trailing (c ∷ s) = if all_space (c ∷ s) then c ∷ s else trailing s

unfoldable pub trim : Text → Text
unfolding drop_leading drop_trailing
trim s = drop_trailing (drop_leading s)

-- replace(/\s+/gu, " "): the flag says that the last code point read was a space.
unfoldable pub collapse_from : Bool → Text → Text
collapse_from b [] = []
collapse_from b (c ∷ s) =
    let rest = collapse_from (is_space c) s in
    if is_space c then (if b then rest else 32 ∷ rest) else c ∷ rest

unfoldable pub normalize : Text → Text
unfolding collapse_from trim is_space
normalize s = trim (collapse_from false s)

pub leading-append-drop_leading : (s : Text) → leading s ++ drop_leading s ≡ s
unfolding leading drop_leading
leading-append-drop_leading [] = refl
leading-append-drop_leading (c ∷ s) = ground (arith, leading-append-drop_leading s)

pub drop_trailing-append-trailing : (s : Text) → drop_trailing s ++ trailing s ≡ s
unfolding drop_trailing trailing
drop_trailing-append-trailing [] = refl
drop_trailing-append-trailing (c ∷ s) = ground (arith, drop_trailing-append-trailing s)

-- The three pieces together are the text.
pub pieces-append : (s : Text) → leading s ++ (trim s ++ trailing (drop_leading s)) ≡ s
unfolding trim
pieces-append s =
    rw (drop_trailing-append-trailing (drop_leading s)) (leading-append-drop_leading s)
