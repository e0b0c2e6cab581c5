-- ===== src/Localization/Page/Fresh.antt =====
-- A page as it was loaded: it has no memos, so all of them are sound, and it shows its sources.
use xray_checker_modify.Base.{
  Option, none, some, List, [], ◌∷◌, map, ◌≡◌, refl, ap, ap₂, ◌||◌, Bool, Text,
}
use xray_checker_modify.Localization.Page.{
  Attribute, Dom, text, element, document, other, Doms, nil, cons, Context, outside, inside,
  source_of,
}
use xray_checker_modify.Localization.Page.Sources.{attribute_source}
use xray_checker_modify.Localization.Page.Shown.{
  shown_text, shown_attribute, source_text, source_attribute, map_dom, map_doms, shown, sources,
  SoundAttributes, SoundDom, SoundDoms,
}

sources-shown_attribute :
    (v : Option Text) → attribute_source (record { value = v; memo = none }) ≡ v
unfolding source_of
sources-shown_attribute none = refl
sources-shown_attribute (some v) = refl

sources-shown_attributes :
    (s : List Attribute) → map source_attribute (map shown_attribute s) ≡ map shown_attribute s
sources-shown_attributes [] = refl
sources-shown_attributes (a ∷ s) =
    ap₂ ◌∷◌
      (ap (λ (v : Option Text). record { value = v; memo = none })
        (sources-shown_attribute a.value))
      (sources-shown_attributes s)

mutual
  unfolding map_dom source_of

  sources-map_dom :
      (d : Dom)
      → map_dom source_text source_attribute (map_dom shown_text shown_attribute d)
        ≡ map_dom shown_text shown_attribute d
  sources-map_dom (text n) = refl
  sources-map_dom (element e ds) =
      ap₂ element
        (ap (λ (s : List Attribute). record e { attributes = s })
          (sources-shown_attributes e.attributes))
        (sources-map_doms ds)
  sources-map_dom (document ds) = ap document (sources-map_doms ds)
  sources-map_dom other = refl

  sources-map_doms :
      (ds : Doms)
      → map_doms source_text source_attribute (map_doms shown_text shown_attribute ds)
        ≡ map_doms shown_text shown_attribute ds
  sources-map_doms nil = refl
  sources-map_doms (cons d ds) = ap₂ cons (sources-map_dom d) (sources-map_doms ds)

pub sources-shown : (d : Dom) → sources (shown d) ≡ shown d
unfolding sources shown
sources-shown d = sources-map_dom d

Sound-shown_attributes : (b : Bool) (s : List Attribute) → SoundAttributes b (map shown_attribute s)
Sound-shown_attributes b [] = tt
Sound-shown_attributes b (a ∷ s) = (tt, Sound-shown_attributes b s)

mutual
  unfolding map_dom

  Sound-map_dom : (c : Context) (d : Dom) → SoundDom c (map_dom shown_text shown_attribute d)
  Sound-map_dom c (text n) = tt
  Sound-map_dom c (element e ds) =
      (Sound-shown_attributes (c.skip || e.skip) e.attributes, Sound-map_doms (inside c e) ds)
  Sound-map_dom c (document ds) = Sound-map_doms outside ds
  Sound-map_dom c other = tt

  Sound-map_doms : (c : Context) (ds : Doms) → SoundDoms c (map_doms shown_text shown_attribute ds)
  Sound-map_doms c nil = tt
  Sound-map_doms c (cons d ds) = (Sound-map_dom c d, Sound-map_doms c ds)

pub SoundDom-shown : (c : Context) (d : Dom) → SoundDom c (shown d)
unfolding shown
SoundDom-shown c d = Sound-map_dom c d
