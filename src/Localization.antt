-- ===== src/Localization.antt =====
-- The page translator, web/static/localization.js: the regular expressions that it uses, its two
-- tables of translations, the translation of one text, the walk over a page, and the language switch.
pub mod Spaces
pub mod Regex
pub mod Russian
pub mod Patterns
pub mod Translate
pub mod Page
pub mod Switch
mod Tests
