-- ===== src/Localization/Page/Shown.antt =====
-- What a page shows, the texts that it had before any translation, and the soundness of its memos.
use xray_checker_modify.Base.{Bool, ◌||◌, none, List, [], ◌∷◌, map}
use xray_checker_modify.Localization.Page.{
  TextNode, Attribute, Element, Dom, text, element, document, other, Doms, nil, cons, Context,
  outside, inside,
}
use xray_checker_modify.Localization.Page.Sources.{
  SoundMemo, node_source, SoundAttribute, attribute_source,
}

-- A page without the translator's memos: what its reader sees.
abbrev pub shown_text : TextNode → TextNode
shown_text n = record { value = n.value; memo = none }

abbrev pub shown_attribute : Attribute → Attribute
shown_attribute a = record { value = a.value; memo = none }

-- The same with each text's source in its place.
abbrev pub source_text : TextNode → TextNode
source_text n = record { value = node_source n; memo = none }

abbrev pub source_attribute : Attribute → Attribute
source_attribute a = record { value = attribute_source a; memo = none }

abbrev pub on_attributes : (Attribute → Attribute) → Element → Element
on_attributes g e = record e { attributes = map g e.attributes }

unfoldable mutual
  pub map_dom : (TextNode → TextNode) → (Attribute → Attribute) → Dom → Dom
  map_dom f g (text n) = text (f n)
  map_dom f g (element e ds) = element (on_attributes g e) (map_doms f g ds)
  map_dom f g (document ds) = document (map_doms f g ds)
  map_dom f g other = other

  pub map_doms : (TextNode → TextNode) → (Attribute → Attribute) → Doms → Doms
  map_doms f g nil = nil
  map_doms f g (cons d ds) = cons (map_dom f g d) (map_doms f g ds)

unfoldable pub shown : Dom → Dom
unfolding map_dom
shown = map_dom shown_text shown_attribute

unfoldable pub sources : Dom → Dom
unfolding map_dom
sources = map_dom source_text source_attribute

-- Every memo of the page tells the truth.
abbrev pub SoundAttributes : Bool → List Attribute → Type 0
SoundAttributes skipped [] = Unit
SoundAttributes skipped (a ∷ s) = SoundAttribute skipped a × SoundAttributes skipped s

abbrev mutual
  pub SoundDom : Context → Dom → Type 0
  SoundDom c (text n) = SoundMemo c n.value n.memo
  SoundDom c (element e ds) =
      SoundAttributes (c.skip || e.skip) e.attributes × SoundDoms (inside c e) ds
  SoundDom c (document ds) = SoundDoms outside ds
  SoundDom c other = Unit

  pub SoundDoms : Context → Doms → Type 0
  SoundDoms c nil = Unit
  SoundDoms c (cons d ds) = SoundDom c d × SoundDoms c ds
