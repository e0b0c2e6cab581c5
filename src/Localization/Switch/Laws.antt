-- ===== src/Localization/Switch/Laws.antt =====
-- What holds of a page however often its language is switched.
use xray_checker_modify.Base.{
  true, false, Option, none, some, List, [], ◌∷◌, map, ◌≡◌, refl, ◌∙◌, Text, codes, text_eq, All,
  inl, inr, Bool-cases,
}
use xray_checker_modify.Localization.Translate.{
  Language, english, russian, language_code, supported, item, read_language,
}
use xray_checker_modify.Localization.Page.{Dom, outside}
use xray_checker_modify.Localization.Page.Shown.{shown, sources, SoundDom}
use xray_checker_modify.Localization.Page.Restore.{
  sources-apply, SoundDom-apply, shown-apply_english,
}
use xray_checker_modify.Localization.Page.Fresh.{sources-shown, SoundDom-shown}
use xray_checker_modify.Localization.Switch.{
  Button, Page, set_language, set_active, update_controls, switch_to, same, init,
}

-- Clicks on language buttons, in turn.
unfoldable pub clicks : List Text → Page → Page
clicks [] p = p
clicks (t ∷ ts) p = clicks ts (set_language t p)

-- The page's language is the one that is announced, marked and remembered.
pub record InStep (p : Page) : Type 0 where
  pub announced : p.html_lang ≡ language_code p.language
  pub marked :
      All
        (λ b. (b.active ≡ text_eq b.code (language_code p.language)) × (b.pressed ≡ b.active))
        p.buttons
  pub remembered : p.writable ≡ true → read_language p.stored ≡ p.language

read_language-item : (l : Language) → read_language (item (language_code l)) ≡ l
unfolding read_language
read_language-item english = refl
read_language-item russian = refl

set_active-marked :
    (l : Language) (bs : List Button)
    → All
        (λ b. (b.active ≡ text_eq b.code (language_code l)) × (b.pressed ≡ b.active))
        (map (set_active l) bs)
set_active-marked l [] = tt
set_active-marked l (b ∷ bs) = ((refl, refl), set_active-marked l bs)

pub init-InStep : (p : Page) → InStep (init p)
unfolding init update_controls
init-InStep p = record {
  announced = refl;
  marked = set_active-marked (read_language p.stored) p.buttons;
  remembered = λ w. refl;
}

switch_to-InStep : (o : Option Language) (p : Page) → InStep p → InStep (switch_to o p)
unfolding update_controls
switch_to-InStep none p s = s
switch_to-InStep (some next) p s = elim (Bool-cases (same next p.language)) [
  | inl e ↦ rw e s
  | inr e ↦ rw e (record {
    announced = refl;
    marked = set_active-marked next p.buttons;
    remembered = λ w. rw w (read_language-item next);
  })
]

pub set_language-InStep : (t : Text) (p : Page) → InStep p → InStep (set_language t p)
unfolding set_language
set_language-InStep t p s = switch_to-InStep (supported t) p s

pub clicks-InStep : (ts : List Text) (p : Page) → InStep p → InStep (clicks ts p)
unfolding clicks
clicks-InStep [] p s = s
clicks-InStep (t ∷ ts) p s = clicks-InStep ts (set_language t p) (set_language-InStep t p s)

-- After loading and any clicks, the page announces the language that it is in, marks its button
-- and no other, and a browser that stores values would load it in that language again.
pub clicks-init-InStep : (ts : List Text) (p : Page) → InStep (clicks ts (init p))
clicks-init-InStep ts p = clicks-InStep ts (init p) (init-InStep p)

-- The memos' soundness and the sources, through loading and clicks.
abbrev KeepsSources : Page → Page → Type 0
KeepsSources p q = SoundDom outside q.body × (sources q.body ≡ sources p.body)

switch_to-Keeps :
    (o : Option Language) (p q : Page) → KeepsSources p q → KeepsSources p (switch_to o q)
unfolding update_controls
switch_to-Keeps none p q s = s
switch_to-Keeps (some next) p q s = elim (Bool-cases (same next q.language)) [
  | inl e ↦ rw e s
  | inr e ↦
      rw e
        (SoundDom-apply next true outside q.body s.0, sources-apply next true outside q.body ∙ s.1)
]

clicks-Keeps : (ts : List Text) (p q : Page) → KeepsSources p q → KeepsSources p (clicks ts q)
unfolding clicks set_language
clicks-Keeps [] p q s = s
clicks-Keeps (t ∷ ts) p q s =
    clicks-Keeps ts p (set_language t q) (switch_to-Keeps (supported t) p q s)

init-Keeps : (p : Page) → SoundDom outside p.body → KeepsSources p (init p)
unfolding init update_controls
init-Keeps p s = (
  SoundDom-apply (read_language p.stored) false outside p.body s,
  sources-apply (read_language p.stored) false outside p.body,
)

to_english :
    (q : Page) → q.language ≡ russian → set_language (codes "en") q ≡ switch_to (some english) q
unfolding set_language supported
to_english q h = refl

english_shown :
    (q : Page)
    → q.language ≡ russian
    → SoundDom outside q.body
    → shown (set_language (codes "en") q).body ≡ sources q.body
unfolding update_controls set_language supported
english_shown q h s = rw h (shown-apply_english outside q.body s)

-- A page is loaded with no memos, as `shown d` has none, in whichever language is stored. Its
-- language is switched any number of times, and it is in Russian. Then the button for English
-- brings back every text and every attribute as the page was loaded.
pub english-restores :
    (p : Page) (d : Dom) (ts : List Text)
    → p.body ≡ shown d
    → (clicks ts (init p)).language ≡ russian
    → shown (set_language (codes "en") (clicks ts (init p))).body ≡ p.body
english-restores p d ts fresh h =
    let sound : SoundDom outside p.body = rw fresh (SoundDom-shown outside d) in
    let kept : KeepsSources p (clicks ts (init p)) =
      clicks-Keeps ts p (init p) (init-Keeps p sound) in
    english_shown (clicks ts (init p)) h kept.0 ∙ kept.1 ∙ (rw fresh (sources-shown d))
