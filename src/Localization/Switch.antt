-- ===== src/Localization/Switch.antt =====
-- localization.js: the state of the translator on one page, the language switch, and what the
-- listeners and the observer that `init` installs do.
pub mod Laws
use xray_checker_modify.Base.{
  Bool, true, false, Option, none, some, List, [], ◌∷◌, map, Text, codes, text_eq, if◌then◌else◌,
}
use xray_checker_modify.Localization.Translate.{
  Language, english, russian, language_code, supported, Stored, item, read_language,
}
use xray_checker_modify.Localization.Page.{
  Dom, Context, outside, apply, Element, translate_element_attributes,
}

-- A button with data-language.
pub record Button : Type 0 where
  pub code : Text
  pub active : Bool
  pub pressed : Bool

pub record Page : Type 0 where
  pub language : Language
  -- whether localStorage takes writes, and what it holds under the key
  pub writable : Bool
  pub stored : Stored
  pub html_lang : Text
  pub buttons : List Button
  pub body : Dom
  -- the xray-language-changed events sent so far, the latest first
  pub sent : List Language

abbrev pub set_active : Language → Button → Button
set_active l b =
    let active = text_eq b.code (language_code l) in
    record { code = b.code; active = active; pressed = active }

unfoldable pub update_controls : Page → Page
update_controls p = record p {
  html_lang = language_code p.language;
  buttons = map (set_active p.language) p.buttons;
}

abbrev pub same : Language → Language → Bool
same english english = true
same russian russian = true
same _ _ = false

abbrev pub switch_to : Option Language → Page → Page
switch_to none p = p
switch_to (some next) p =
    if same next p.language
    then p
    else let saved = if p.writable then item (language_code next) else p.stored in
      let shown = update_controls (record p { language = next; stored = saved }) in
      record shown { body = apply next true outside p.body; sent = next ∷ p.sent }

unfoldable pub set_language : Text → Page → Page
unfolding supported update_controls
set_language next p = switch_to (supported next) p

-- init: the page as it was loaded, with its language read from the store.
unfoldable pub init : Page → Page
unfolding update_controls read_language
init p =
    let shown = update_controls (record p { language = read_language p.stored }) in
    record shown { body = apply shown.language false outside p.body }

-- What the observer does about a node that changed or was added, and about a changed attribute.
unfoldable pub on_node : Language → Context → Dom → Dom
on_node l c d = apply l false c d

unfoldable pub on_attribute : Language → Context → Element → Element
on_attribute l c e = translate_element_attributes l false c e
