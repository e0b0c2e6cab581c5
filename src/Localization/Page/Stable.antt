-- ===== src/Localization/Page/Stable.antt =====
-- The observer reaches a fixed point: what the translator writes it does not translate again.
use xray_checker_modify.Base.{
  Bool, true, false, not, ◌&&◌, Option, none, some, ◌≡◌, refl, Text, text_eq_refl, if_same,
  and_true, arith, inl, inr, Bool-cases, Option-cases,
}
use xray_checker_modify.Localization.Translate.{Language}
use xray_checker_modify.Localization.Page.{
  Memo, TextNode, Context, leaves_text, unchanged, source_of, rendered, translate_text_node,
  written,
}
use xray_checker_modify.Localization.Page.Branches.{source_for, node_left, node_kept, node_written}

-- A node that the observer leaves alone.
abbrev IsSettled : Language → Context → TextNode → Type 0
IsSettled k c n = translate_text_node k false c n ≡ n

unchanged-IsSettled :
    (k : Language) (c : Context) (n : TextNode) → unchanged n.value n.memo ≡ true → IsSettled k c n
unfolding translate_text_node
unchanged-IsSettled k c n h = ground arith

blank-IsSettled :
    (k : Language) (c : Context) (n : TextNode) → rendered k n.value ≡ none → IsSettled k c n
unfolding translate_text_node
blank-IsSettled k c n h = elim (Bool-cases (leaves_text c)) [
  | inl e ↦ rw e refl
  | inr e ↦ rw (e, h) (if_same (unchanged n.value n.memo) n)
]

source_of_changed :
    (current : Text) (m : Option Memo) → unchanged current m ≡ false → source_of current m ≡ current
unfolding unchanged source_of
source_of_changed current m h = ground arith

-- Whether a text is nothing but spaces does not hang on the language.
rendered_blank : (l k : Language) (s : Text) → rendered l s ≡ none → rendered k s ≡ none
unfolding rendered
rendered_blank l k s h = ground arith

output-IsSettled :
    (k : Language) (c : Context) (source out : Text) (n : TextNode)
    → IsSettled k c (written source (some out) n)
unfolding unchanged
output-IsSettled k c source out n = unchanged-IsSettled k c _ (text_eq_refl out)

-- A node from whose source nothing is rendered.
none-IsSettled :
    (l k : Language) (force : Bool) (c : Context) (n : TextNode)
    → rendered l (source_for force n) ≡ none
    → IsSettled k c n
unfolding unchanged source_of
none-IsSettled l k false c n h = blank-IsSettled k c n (rendered_blank l k n.value h)
none-IsSettled l k true c n h = elim (Bool-cases (unchanged n.value n.memo)) [
  | inl e ↦ unchanged-IsSettled k c n e
  | inr e ↦
      blank-IsSettled k c n
        (rendered_blank l k n.value (ground (arith, source_of_changed n.value n.memo e)))
]

pub translate_text_node-IsSettled :
    (l k : Language) (force : Bool) (c : Context) (n : TextNode)
    → IsSettled k c (translate_text_node l force c n)
translate_text_node-IsSettled l k force c n = elim (Bool-cases (leaves_text c)) [
  | inl e ↦ rw (node_left l force c n e) (node_left k false c n e)
  | inr e ↦ elim (Bool-cases (not force && unchanged n.value n.memo)) [
    | inl u ↦ rw (node_kept l force c n u) (unchanged-IsSettled k c n (and_true (not force) _ u))
    | inr u ↦ elim (Option-cases (rendered l (source_for force n))) [
      | inl r ↦ rw (node_written l force c n e u, r) (none-IsSettled l k force c n r)
      | inr (out, r) ↦
          rw (node_written l force c n e u, r) (output-IsSettled k c (source_for force n) out n)
    ]
  ]
]
