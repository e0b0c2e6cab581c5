-- ===== src/Localization/Regex.antt =====
-- The regular expressions of localization.js: all are anchored at both ends, and are made of the
-- pieces below. A match is searched as the language says, the preferred choices first, with the
-- captured groups collected on the way.
use xray_checker_modify.Base.{
  ℕ, suc, ◌+◌, ◌-◌, ◌*◌, Bool, not, ◌&&◌, ◌||◌, Option, none, some, List, [], ◌∷◌, ◌++◌, map,
  String, Text, codes, leb, ◌==◌, if◌then◌else◌,
}

-- `\d`, and `.` without the flag s.
pub data Class : Type 0 where
  digit : Class
  dot : Class

unfoldable pub in_class : Class → ℕ → Bool
in_class digit c = leb b'0' c && leb c b'9'
in_class dot c = not (c == 10 || c == 13 || c == 8232 || c == 8233)

pub data Re : Type 0 where
  lit : Text → Re
  -- one or more of a class, as many or as few as can be
  plus : Class → Re
  plus_lazy : Class → Re
  seq : Re → Re → Re
  alt : Re → Re → Re
  opt : Re → Re
  -- the capturing group with this number
  group : ℕ → Re → Re

-- Short forms: a literal's text, `\d+` and `.+`.
abbrev pub text : String → Re
text s = lit (codes s)

abbrev pub digits : Re
digits = plus digit

abbrev pub some_dots : Re
some_dots = plus dot

abbrev pub Caps : Type 0
Caps = List (ℕ × Text)

-- What a piece took, what is left of the text, and the groups captured.
pub record Found : Type 0 where
  pub taken : Text
  pub left : Text
  pub caps : Caps

abbrev push_front : ℕ → Found → Found
push_front c f = record f { taken = c ∷ f.taken }

-- The literal at the front of a text, and what follows it.
unfoldable pub strip : Text → Text → Option Text
strip [] s = some s
strip (a ∷ t) [] = none
strip (a ∷ t) (c ∷ s) = if a == c then strip t s else none

-- One or more of a class at the front, the longest first; and the shortest first.
unfoldable pub runs : Class → Text → Caps → List Found
runs k [] caps = []
runs k (c ∷ s) caps =
    let more = runs k s caps in
    if in_class k c
    then map (push_front c) more ++ record { taken = c ∷ []; left = s; caps = caps } ∷ []
    else []

unfoldable pub runs_lazy : Class → Text → Caps → List Found
runs_lazy k [] caps = []
runs_lazy k (c ∷ s) caps =
    let more = runs_lazy k s caps in
    if in_class k c
    then record { taken = c ∷ []; left = s; caps = caps } ∷ map (push_front c) more
    else []

-- Every way on from every way so far, in order.
abbrev pub each : List Found → (Found → List Found) → List Found
each [] k = []
each (f ∷ fs) k = k f ++ each fs k

abbrev pub after : Found → Found → Found
after f g = record g { taken = f.taken ++ g.taken }

abbrev pub close : ℕ → Found → Found
close n f = record f { caps = (n, f.taken) ∷ f.caps }

abbrev lit_found : Text → Caps → Option Text → List Found
lit_found t caps none = []
lit_found t caps (some left) = record { taken = t; left = left; caps = caps } ∷ []

-- All matches of an expression at the front of a text, the preferred first.
unfoldable pub search_all : Re → Text → Caps → List Found
unfolding strip runs runs_lazy in_class
search_all (lit t) s caps = lit_found t caps (strip t s)
search_all (plus k) s caps = runs k s caps
search_all (plus_lazy k) s caps = runs_lazy k s caps
search_all (seq p q) s caps =
    each (search_all p s caps) (λ f. map (after f) (search_all q f.left f.caps))
search_all (alt p q) s caps = search_all p s caps ++ search_all q s caps
search_all (opt p) s caps = search_all p s caps ++ record { taken = []; left = s; caps = caps } ∷ []
search_all (group n p) s caps = map (close n) (search_all p s caps)

-- The first that ends where the text does: `$` without the flag m.
unfoldable pub ending : List Found → Option Caps
ending [] = none
ending (f ∷ fs) = let rest = ending fs in elim f.left [ [] ↦ some f.caps | _ ∷ _ ↦ rest ]

-- pattern.exec(s): the captured groups of the match of the whole text.
unfoldable pub exec : Re → Text → Option Caps
unfolding search_all ending
exec r s = ending (search_all r s [])

unfoldable pub groups : Re → ℕ
groups (lit t) = 0
groups (plus k) = 0
groups (plus_lazy k) = 0
groups (seq p q) = groups p + groups q
groups (alt p q) = groups p + groups q
groups (opt p) = groups p
groups (group n p) = suc (groups p)

-- A group's text, or the empty text of a group that took no part.
unfoldable pub capture : ℕ → Caps → Text
capture n [] = []
capture n ((m, t) ∷ caps) = if m == n then t else capture n caps

abbrev is_digit : ℕ → Bool
is_digit c = leb b'0' c && leb c b'9'

-- The number of a digit, for a reference `$1` to `$9` to a group that exists.
abbrev refers : ℕ → ℕ → Bool
refers m d = is_digit d && not (d == b'0') && leb (d - b'0') m

-- A replacement: a group, by one digit or two, or a literal code point.
pub data Piece : Type 0 where
  code_point : ℕ → Piece
  group_ref : ℕ → Piece
  whole : Piece

abbrev two_digits : ℕ → ℕ → ℕ → Bool
two_digits m d e =
    let n = (d - b'0') * 10 + (e - b'0') in is_digit d && is_digit e && not (n == 0) && leb n m

-- GetSubstitution for an expression with m groups that matches the whole text, so that the texts
-- before and after the match, $` and $', are empty.
unfoldable pub pieces : ℕ → Text → List Piece
pieces m [] = []
pieces m (c ∷ []) = code_point c ∷ []
pieces m (c ∷ d ∷ []) =
    if c == b'$'
    then (if d == b'$'
        then code_point b'$' ∷ []
        else if d == b'&'
        then whole ∷ []
        else if d == b'`' || d == 39
        then []
        else if refers m d
        then group_ref (d - b'0') ∷ []
        else code_point c ∷ code_point d ∷ [])
    else code_point c ∷ code_point d ∷ []
pieces m (c ∷ d ∷ e ∷ t) =
    let skip1 = pieces m (d ∷ e ∷ t) in
    let skip2 = pieces m (e ∷ t) in
    let skip3 = pieces m t in
    if c == b'$'
    then (if d == b'$'
        then code_point b'$' ∷ skip2
        else if d == b'&'
        then whole ∷ skip2
        else if d == b'`' || d == 39
        then skip2
        else if two_digits m d e
        then group_ref ((d - b'0') * 10 + (e - b'0')) ∷ skip3
        else if refers m d
        then group_ref (d - b'0') ∷ skip2
        else code_point c ∷ skip1)
    else code_point c ∷ skip1

unfoldable pub expand : Caps → Text → List Piece → Text
expand caps s [] = []
expand caps s (code_point c ∷ ps) = c ∷ expand caps s ps
expand caps s (group_ref n ∷ ps) = capture n caps ++ expand caps s ps
expand caps s (whole ∷ ps) = s ++ expand caps s ps

-- value.replace(pattern, replacement), for a pattern that matches.
unfoldable pub substitute : Re → Text → Text → Caps → Text
unfolding groups capture pieces expand
substitute r replacement s caps = expand caps s (pieces (groups r) replacement)
