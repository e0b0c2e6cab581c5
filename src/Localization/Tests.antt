-- ===== src/Localization/Tests.antt =====
-- The translator at concrete texts and pages.
use mathlib.Core.List.{Memᴰ}
use xray_checker_modify.Base.{
  ◌≤◌, true, false, none, some, List, [], ◌∷◌, ◌≡◌, refl, Text, codes, arith,
}
use xray_checker_modify.Localization.Spaces.{normalize}
use xray_checker_modify.Localization.Regex.{Re, Caps, exec, substitute, groups, capture}
use xray_checker_modify.Localization.Russian.{ru, own_property}
use xray_checker_modify.Localization.Patterns.{patterns}
use xray_checker_modify.Localization.Patterns.Part1.{patterns_1}
use xray_checker_modify.Localization.Translate.{
  english, russian, read_language, supported, translate, translate_russian, first_pattern,
  replace_with, missing,
}
use xray_checker_modify.Localization.Translate.Captures.{Within, captures-shown}
use xray_checker_modify.Localization.Page.{
  TextNode, Attribute, Element, Dom, text, element, document, nil, cons, outside, apply,
}
use xray_checker_modify.Localization.Page.Shown.{shown}
use xray_checker_modify.Localization.Page.Tree.{apply-stable}
use xray_checker_modify.Localization.Switch.{Button, Page, update_controls, set_language, init}
use xray_checker_modify.Localization.Switch.Laws.{
  clicks, InStep, clicks-init-InStep, english-restores,
}

normalized : normalize (codes "  a \t b  ") ≡ codes "a b"
unfolding normalize
normalized = refl

from_table : translate russian (codes "Total") ≡ codes "Всего"
unfolding translate translate_russian ru own_property normalize
from_table = refl

-- An earlier entry says "Параллельные сессии".
shadowed : translate russian (codes "Concurrency") ≡ codes "Concurrency"
unfolding translate translate_russian ru own_property normalize
shadowed = refl

from_pattern : translate russian (codes "12 nodes · eu-1") ≡ codes "12 нод · eu-1"
unfolding translate translate_russian ru own_property normalize first_pattern patterns replace_with
    exec substitute
from_pattern = refl

optional_part :
    translate russian (codes "80% proxy healthy · 2 offline · 1 maintenance · 3 muted")
    ≡ codes "80% proxy healthy · 2 offline · 1 на обслуживании · 3 muted"
unfolding translate translate_russian ru own_property normalize first_pattern patterns replace_with
    exec substitute
optional_part = refl

untranslated : translate russian (codes "node-7") ≡ codes "node-7"
unfolding translate translate_russian ru own_property normalize first_pattern patterns replace_with
    exec substitute
untranslated = refl

-- A heading with a label, as the server sends it.
abbrev label : Attribute
label = record { value = some (codes "Enabled"); memo = none }

abbrev heading : Element
heading = record { verbatim = false; skip = false; attributes = label ∷ [] }

abbrev words : TextNode
words = record { value = codes " 12 nodes · eu-1 "; memo = none }

abbrev served : Dom
served = document (cons (element heading (cons (text words) nil)) nil)

abbrev button : Text → Button
button code = record { code = code; active = false; pressed = false }

abbrev page : Page
page = record {
  language = english;
  writable = true;
  stored = missing;
  html_lang = [];
  buttons = button (codes "en") ∷ button (codes "ru") ∷ [];
  body = served;
  sent = [];
}

abbrev to_russian : List Text
to_russian = codes "ru" ∷ []

apply-stable_example :
    apply russian false outside (apply russian true outside served)
    ≡ apply russian true outside served
apply-stable_example = apply-stable russian russian true outside served

clicks-init-InStep_example : InStep (clicks to_russian (init page))
clicks-init-InStep_example = clicks-init-InStep to_russian page

served_fresh : page.body ≡ shown served
unfolding shown
served_fresh = refl

in_russian : (clicks to_russian (init page)).language ≡ russian
unfolding clicks init set_language update_controls supported read_language
in_russian = refl

english-restores_example :
    shown (set_language (codes "en") (clicks to_russian (init page))).body ≡ page.body
english-restores_example = english-restores page served to_russian served_fresh in_russian

abbrev first_of : List (Re × Text) → Re × Text
first_of [] = (Re.lit [], [])
first_of (p ∷ ps) = p

abbrev rest_of : List (Re × Text) → List (Re × Text)
rest_of [] = []
rest_of (p ∷ ps) = ps

abbrev nodes_caps : Caps
nodes_caps = (1, codes "12") ∷ (2, codes "eu-1") ∷ []

listed : Memᴰ (first_of patterns) patterns
unfolding patterns patterns_1
listed = Memᴰ.head refl

numbered : 1 ≤ groups (first_of patterns).0
unfolding patterns patterns_1 groups
numbered = omega arith

captures-shown_example :
    Within
      (capture 1 nodes_caps)
      (substitute (first_of patterns).0 (first_of patterns).1 (codes "12 nodes · eu-1") nodes_caps)
captures-shown_example =
    captures-shown (first_of patterns) 1 nodes_caps (codes "12 nodes · eu-1") listed (omega arith)
      numbered
