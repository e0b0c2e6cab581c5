-- ===== src/Localization/Page/Restore.antt =====
-- Translations keep the sources of a page, and English shows them again.
use xray_checker_modify.Base.{
  Bool, true, false, ◌||◌, Option, none, List, [], ◌∷◌, map, ◌≡◌, refl, ap, ap₂, inl, inr,
  Bool-cases, Text,
}
use xray_checker_modify.Localization.Translate.{Language, english}
use xray_checker_modify.Localization.Page.{
  Attribute, Element, Dom, text, element, document, other, Doms, nil, cons, Context, outside,
  inside, translate_attributes, translate_element_attributes, element_pass, element_passes,
  text_pass, text_passes, apply,
}
use xray_checker_modify.Localization.Page.Tree.{apply-passes, inside-translate_element_attributes}
use xray_checker_modify.Localization.Page.Sources.{
  node_source-translate, SoundMemo-translate, value-translate_english, attribute_source-translate,
  SoundAttribute-translate, value-translate_attribute_english, skipped-source,
}
use xray_checker_modify.Localization.Page.Shown.{
  shown_text, shown_attribute, source_text, source_attribute, on_attributes, map_dom, map_doms,
  shown, sources, SoundAttributes, SoundDom, SoundDoms,
}

module _ (l : Language) (force : Bool) where
  sources-translate_attributes :
      (s : List Attribute)
      → map source_attribute (translate_attributes l force s) ≡ map source_attribute s
  unfolding translate_attributes
  sources-translate_attributes [] = refl
  sources-translate_attributes (a ∷ s) =
      ap₂ ◌∷◌
        (ap (λ (v : Option Text). record { value = v; memo = none })
          (attribute_source-translate l force a))
        (sources-translate_attributes s)

  sources-element :
      (c : Context) (e : Element)
      → on_attributes source_attribute (translate_element_attributes l force c e)
        ≡ on_attributes source_attribute e
  unfolding translate_element_attributes
  sources-element c e = elim (Bool-cases (c.skip || e.skip)) [
    | inl h ↦ rw h refl
    | inr h ↦ rw h (
        ap (λ (s : List Attribute). record e { attributes = s })
          (sources-translate_attributes e.attributes))
  ]

  Sound-translate_attributes :
      (s : List Attribute)
      → SoundAttributes false s
      → SoundAttributes false (translate_attributes l force s)
  unfolding translate_attributes
  Sound-translate_attributes [] h = tt
  Sound-translate_attributes (a ∷ s) h =
      (SoundAttribute-translate l force a h.0, Sound-translate_attributes s h.1)

  Sound-element :
      (c : Context) (e : Element)
      → SoundAttributes (c.skip || e.skip) e.attributes
      → SoundAttributes
          (c.skip || (translate_element_attributes l force c e).skip)
          (translate_element_attributes l force c e).attributes
  unfolding translate_element_attributes
  Sound-element c e s = elim (Bool-cases (c.skip || e.skip)) [
    | inl h ↦ rw (h, h) (rw h at s)
    | inr h ↦ rw (h, h) (Sound-translate_attributes e.attributes (rw h at s))
  ]

  mutual
    unfolding element_pass text_pass map_dom

    sources-passes :
        (c : Context) (d : Dom)
        → map_dom source_text source_attribute (text_pass l force c (element_pass l force c d))
          ≡ map_dom source_text source_attribute d
    sources-passes c (text n) =
        ap (λ (v : Text). text (record { value = v; memo = none }))
          (node_source-translate l force c n)
    sources-passes c (element e ds) = ap₂ element (sources-element c e) (
        rw (inside-translate_element_attributes l force c c e) (all_sources-passes (inside c e) ds))
    sources-passes c (document ds) = ap document (all_sources-passes outside ds)
    sources-passes c other = refl

    all_sources-passes :
        (c : Context) (ds : Doms)
        → map_doms source_text source_attribute
            (text_passes l force c (element_passes l force c ds))
          ≡ map_doms source_text source_attribute ds
    all_sources-passes c nil = refl
    all_sources-passes c (cons d ds) = ap₂ cons (sources-passes c d) (all_sources-passes c ds)

  mutual
    unfolding element_pass text_pass

    Sound-passes :
        (c : Context) (d : Dom)
        → SoundDom c d
        → SoundDom c (text_pass l force c (element_pass l force c d))
    Sound-passes c (text n) s = SoundMemo-translate l force c n s
    Sound-passes c (element e ds) s = (
      Sound-element c e s.0,
      rw (inside-translate_element_attributes l force c c e) (all_Sound-passes (inside c e) ds s.1),
    )
    Sound-passes c (document ds) s = all_Sound-passes outside ds s
    Sound-passes c other s = tt

    all_Sound-passes :
        (c : Context) (ds : Doms)
        → SoundDoms c ds
        → SoundDoms c (text_passes l force c (element_passes l force c ds))
    all_Sound-passes c nil s = tt
    all_Sound-passes c (cons d ds) s = (Sound-passes c d s.0, all_Sound-passes c ds s.1)

shown-translate_attributes :
    (s : List Attribute)
    → map shown_attribute (translate_attributes english true s) ≡ map source_attribute s
unfolding translate_attributes
shown-translate_attributes [] = refl
shown-translate_attributes (a ∷ s) =
    ap₂ ◌∷◌
      (ap (λ (v : Option Text). record { value = v; memo = none })
        (value-translate_attribute_english a))
      (shown-translate_attributes s)

shown-skipped :
    (s : List Attribute) → SoundAttributes true s → map shown_attribute s ≡ map source_attribute s
shown-skipped [] h = refl
shown-skipped (a ∷ s) h =
    ap₂ ◌∷◌ (ap (λ (v : Option Text). record { value = v; memo = none }) (skipped-source a h.0))
      (shown-skipped s h.1)

shown-element :
    (c : Context) (e : Element)
    → SoundAttributes (c.skip || e.skip) e.attributes
    → on_attributes shown_attribute (translate_element_attributes english true c e)
      ≡ on_attributes source_attribute e
unfolding translate_element_attributes
shown-element c e s = elim (Bool-cases (c.skip || e.skip)) [
  | inl h ↦ rw h (
      ap (λ (t : List Attribute). record e { attributes = t })
        (shown-skipped e.attributes (rw h at s)))
  | inr h ↦ rw h (
      ap (λ (t : List Attribute). record e { attributes = t })
        (shown-translate_attributes e.attributes))
]

mutual
  unfolding element_pass text_pass map_dom

  shown-passes :
      (c : Context) (d : Dom)
      → SoundDom c d
      → map_dom shown_text shown_attribute
          (text_pass english true c (element_pass english true c d))
        ≡ map_dom source_text source_attribute d
  shown-passes c (text n) s =
      ap (λ (v : Text). text (record { value = v; memo = none })) (value-translate_english c n s)
  shown-passes c (element e ds) s = ap₂ element (shown-element c e s.0) (
      rw (inside-translate_element_attributes english true c c e)
        (all_shown-passes (inside c e) ds s.1))
  shown-passes c (document ds) s = ap document (all_shown-passes outside ds s)
  shown-passes c other s = refl

  all_shown-passes :
      (c : Context) (ds : Doms)
      → SoundDoms c ds
      → map_doms shown_text shown_attribute
          (text_passes english true c (element_passes english true c ds))
        ≡ map_doms source_text source_attribute ds
  all_shown-passes c nil s = refl
  all_shown-passes c (cons d ds) s = ap₂ cons (shown-passes c d s.0) (all_shown-passes c ds s.1)

-- `apply` in any language, with or without force, keeps every text's source.
pub sources-apply :
    (l : Language) (force : Bool) (c : Context) (d : Dom) → sources (apply l force c d) ≡ sources d
unfolding sources
sources-apply l force c d = rw (apply-passes l force c d) (sources-passes l force c d)

pub SoundDom-apply :
    (l : Language) (force : Bool) (c : Context) (d : Dom)
    → SoundDom c d
    → SoundDom c (apply l force c d)
SoundDom-apply l force c d s = rw (apply-passes l force c d) (Sound-passes l force c d s)

pub shown-apply_english :
    (c : Context) (d : Dom) → SoundDom c d → shown (apply english true c d) ≡ sources d
unfolding shown sources
shown-apply_english c d s = rw (apply-passes english true c d) (shown-passes c d s)
