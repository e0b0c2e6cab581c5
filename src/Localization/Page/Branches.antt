-- ===== src/Localization/Page/Branches.antt =====
-- The branches of translateTextNode as equations, so that proofs can leave the function shut.
use xray_checker_modify.Base.{Bool, true, false, not, ◌&&◌, ◌≡◌, Text, if◌then◌else◌, arith}
use xray_checker_modify.Localization.Translate.{Language}
use xray_checker_modify.Localization.Page.{
  TextNode, Context, leaves_text, unchanged, source_of, rendered, written, translate_text_node,
}

abbrev pub source_for : Bool → TextNode → Text
source_for force n = if force then source_of n.value n.memo else n.value

module _ (l : Language) (force : Bool) (c : Context) (n : TextNode) where
  pub node_left : leaves_text c ≡ true → translate_text_node l force c n ≡ n
  unfolding translate_text_node
  node_left h = rw h

  pub node_kept :
      (not force && unchanged n.value n.memo) ≡ true → translate_text_node l force c n ≡ n
  unfolding translate_text_node
  node_kept h = ground arith

  pub node_written :
      leaves_text c ≡ false
      → (not force && unchanged n.value n.memo) ≡ false
      → translate_text_node l force c n
        ≡ written (source_for force n) (rendered l (source_for force n)) n
  unfolding translate_text_node
  node_written e u = rw (e, u)
