-- ===== src/Localization/Patterns.antt =====
-- The list `patterns` of localization.js: expressions with their replacements, tried in this order.
pub mod Part1
pub mod Part2
use xray_checker_modify.Base.{List, ◌++◌, Text}
use xray_checker_modify.Localization.Regex.{Re}
use Part1.{patterns_1}
use Part2.{patterns_2}

unfoldable pub patterns : List (Re × Text)
unfolding patterns_1 patterns_2
patterns = patterns_1 ++ patterns_2
