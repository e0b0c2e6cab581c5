-- ===== src/Localization/Russian.antt =====
-- The table `ru` of localization.js: English texts and their Russian translations. In an object
-- literal the last of two properties with one name holds.
pub mod Part1
pub mod Part2
pub mod Part3
pub mod Part4
pub mod Part5
pub mod Part6
pub mod Part7
pub mod Part8
pub mod Part9
use xray_checker_modify.Base.{
  Option, none, some, List, [], ◌∷◌, ◌++◌, String, Text, codes, text_eq, if◌then◌else◌,
}
use Part1.{part_1}
use Part2.{part_2}
use Part3.{part_3}
use Part4.{part_4}
use Part5.{part_5}
use Part6.{part_6}
use Part7.{part_7}
use Part8.{part_8}
use Part9.{part_9}

unfoldable pub ru : List (String × String)
unfolding part_1 part_2 part_3 part_4 part_5 part_6 part_7 part_8 part_9
ru =
    part_1
    ++ (part_2 ++ (part_3 ++ (part_4 ++ (part_5 ++ (part_6 ++ (part_7 ++ (part_8 ++ (part_9))))))))

-- Object.prototype.hasOwnProperty.call(ru, value) and ru[value] in one: the last entry counts.
unfoldable pub own_property : List (String × String) → Text → Option Text
own_property [] k = none
own_property ((j, v) ∷ m) k = elim (own_property m k) [
  | some w ↦ some w
  | none ↦ if text_eq (codes j) k then some (codes v) else none
]
