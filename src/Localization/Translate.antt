-- ===== src/Localization/Translate.antt =====
-- localization.js: readLanguage and translate.
pub mod Captures
use xray_checker_modify.Base.{
  Bool, true, false, Option, none, some, List, [], ◌∷◌, String, Text, codes, text_eq, if◌then◌else◌,
}
use xray_checker_modify.Localization.Spaces.{normalize}
use xray_checker_modify.Localization.Regex.{Re, Caps, exec, substitute}
use xray_checker_modify.Localization.Russian.{ru, own_property}
use xray_checker_modify.Localization.Patterns.{patterns}

-- supportedLanguages; the variable `language` holds one of these.
pub data Language : Type 0 where
  english russian : Language

abbrev pub language_code : Language → Text
language_code english = codes "en"
language_code russian = codes "ru"

unfoldable pub supported : Text → Option Language
supported t =
    if text_eq t (codes "en")
    then some english
    else if text_eq t (codes "ru")
    then some russian
    else none

-- What localStorage.getItem gives: it throws, finds nothing, or finds a text.
pub data Stored : Type 0 where
  throws missing : Stored
  item : Text → Stored

abbrev or_english : Option Language → Language
or_english none = english
or_english (some l) = l

unfoldable pub read_language : Stored → Language
unfolding supported
read_language throws = english
read_language missing = english
read_language (item t) = or_english (supported t)

-- The first pattern that fits the text, or its normalized form, with its replacement made.
abbrev replaced : Re → Text → Text → Option Caps → Option Text
replaced r replacement s none = none
replaced r replacement s (some caps) = some (substitute r replacement s caps)

abbrev pub or_else : Option Text → Option Text → Option Text
or_else (some t) later = some t
or_else none later = later

abbrev pub or_value : Option Text → Text → Text
or_value (some t) s = t
or_value none s = s

unfoldable pub replace_with : Re → Text → Text → Option Text
replace_with r replacement s = replaced r replacement s (exec r s)

unfoldable pub first_pattern : List (Re × Text) → Text → Text → Option Text
first_pattern [] value normalized = none
first_pattern ((r, replacement) ∷ more) value normalized =
    or_else (replace_with r replacement value)
      (or_else (replace_with r replacement normalized) (first_pattern more value normalized))

abbrev is_empty : Text → Bool
is_empty [] = true
is_empty (_ ∷ _) = false

unfoldable pub translate_russian : Text → Text
translate_russian value =
    let normalized = normalize value in
    or_value
      (or_else (own_property ru value)
        (or_else (own_property ru normalized) (first_pattern patterns value normalized)))
      value

unfoldable pub translate : Language → Text → Text
translate english value = value
translate russian value = if is_empty value then value else translate_russian value
