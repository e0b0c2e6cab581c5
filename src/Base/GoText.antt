-- ===== src/Base/GoText.antt =====
-- The functions of Go's package strings that the program calls, over code points.
use Prim.Native.Nat.{ℕ, ◌+◌}
use mathlib.Core.Bool.{Bool, true, false, ◌&&◌, ◌||◌}
use mathlib.Core.List.{[], ◌∷◌}
use xray_checker_modify.Base.Tests.{◌==◌, leb, if◌then◌else◌}
use xray_checker_modify.Base.Codes.{Text}

-- unicode.IsSpace
abbrev pub go_space : ℕ → Bool
go_space c =
    leb 9 c && leb c 13
    || c == 32
    || c == 133
    || c == 160
    || c == 5760
    || leb 8192 c && leb c 8202
    || c == 8232
    || c == 8233
    || c == 8239
    || c == 8287
    || c == 12288

unfoldable pub trim_left : Text → Text
trim_left [] = []
trim_left (c ∷ s) = if go_space c then trim_left s else c ∷ s

abbrev all_space : Text → Bool
all_space [] = true
all_space (c ∷ s) = go_space c && all_space s

unfoldable pub trim_right : Text → Text
trim_right [] = []
trim_right (c ∷ s) = if all_space (c ∷ s) then [] else c ∷ trim_right s

-- strings.TrimSpace
unfoldable pub trim_space : Text → Text
unfolding trim_left trim_right
trim_space s = trim_right (trim_left s)

-- len of a string: the bytes of its encoding.
unfoldable pub byte_length : Text → ℕ
byte_length [] = 0
byte_length (c ∷ s) =
    (if leb c 127 then 1 else if leb c 2047 then 2 else if leb c 65535 then 3 else 4)
    + byte_length s

abbrev pub is_empty : Text → Bool
is_empty [] = true
is_empty (_ ∷ _) = false
