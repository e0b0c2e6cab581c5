-- ===== src/Localization/Page/Tree.antt =====
-- The observer's fixed point for attributes and for whole trees, and the two passes' independence.
use xray_checker_modify.Base.{
  Bool, false, not, ◌&&◌, ◌||◌, Option, none, some, List, [], ◌∷◌, ◌≡◌, refl, ap, ap₂, Text,
  text_eq_refl, if◌then◌else◌, arith, inl, inr, Bool-cases,
}
use xray_checker_modify.Localization.Translate.{Language, translate}
use xray_checker_modify.Localization.Page.{
  Memo, Attribute, Element, Dom, text, element, document, other, Doms, nil, cons, Context, outside,
  inside, unchanged, source_of, translated_value, translate_attribute, translate_attributes,
  translate_element_attributes, element_pass, element_passes, text_pass, text_passes, apply,
}
use xray_checker_modify.Localization.Page.Stable.{translate_text_node-IsSettled}

translated_value-stable :
    (l k : Language) (force : Bool) (v : Option Text) (m : Option Memo)
    → let a = translated_value l force (record { value = v; memo = m }) v in
      translated_value k false a a.value ≡ a
unfolding unchanged
translated_value-stable l k force none m = refl
translated_value-stable l k force (some v) m = elim (Bool-cases (not force && unchanged v m)) [
  | inl e ↦ ground (arith)
  | inr e ↦ rw e (rw (text_eq_refl (translate l (if force then source_of v m else v))) refl)
]

pub translate_attribute-stable :
    (l k : Language) (force : Bool) (a : Attribute)
    → translate_attribute k false (translate_attribute l force a) ≡ translate_attribute l force a
unfolding translate_attribute
translate_attribute-stable l k force a = translated_value-stable l k force a.value a.memo

translate_attributes-stable :
    (l k : Language) (force : Bool) (s : List Attribute)
    → translate_attributes k false (translate_attributes l force s) ≡ translate_attributes l force s
unfolding translate_attributes
translate_attributes-stable l k force [] = refl
translate_attributes-stable l k force (a ∷ s) =
    ap₂ ◌∷◌ (translate_attribute-stable l k force a) (translate_attributes-stable l k force s)

-- The pass over the attributes leaves what `closest` asks about.
pub inside-translate_element_attributes :
    (l : Language) (force : Bool) (c d : Context) (e : Element)
    → inside d (translate_element_attributes l force c e) ≡ inside d e
unfolding translate_element_attributes
inside-translate_element_attributes l force c d e = ground arith

translate_element_attributes-stable :
    (l k : Language) (force : Bool) (c : Context) (e : Element)
    → translate_element_attributes k false c (translate_element_attributes l force c e)
      ≡ translate_element_attributes l force c e
unfolding translate_element_attributes
translate_element_attributes-stable l k force c e = elim (Bool-cases (c.skip || e.skip)) [
  | inl h ↦ rw (h, h) refl
  | inr h ↦
      rw (h, h)
        (ap (λ (s : List Attribute). record e { attributes = s })
          (translate_attributes-stable l k force e.attributes))
]

mutual
  unfolding element_pass

  element_pass-stable :
      (l k : Language) (force : Bool) (c : Context) (d : Dom)
      → element_pass k false c (element_pass l force c d) ≡ element_pass l force c d
  element_pass-stable l k force c (text n) = refl
  element_pass-stable l k force c (element e ds) =
      ap₂ element (translate_element_attributes-stable l k force c e) (
        rw (inside-translate_element_attributes l force c c e)
          (element_passes-stable l k force (inside c e) ds))
  element_pass-stable l k force c (document ds) =
      ap document (element_passes-stable l k force outside ds)
  element_pass-stable l k force c other = refl

  element_passes-stable :
      (l k : Language) (force : Bool) (c : Context) (ds : Doms)
      → element_passes k false c (element_passes l force c ds) ≡ element_passes l force c ds
  element_passes-stable l k force c nil = refl
  element_passes-stable l k force c (cons d ds) =
      ap₂ cons (element_pass-stable l k force c d) (element_passes-stable l k force c ds)

mutual
  unfolding text_pass

  text_pass-stable :
      (l k : Language) (force : Bool) (c : Context) (d : Dom)
      → text_pass k false c (text_pass l force c d) ≡ text_pass l force c d
  text_pass-stable l k force c (text n) = ap text (translate_text_node-IsSettled l k force c n)
  text_pass-stable l k force c (element e ds) =
      ap (element e) (text_passes-stable l k force (inside c e) ds)
  text_pass-stable l k force c (document ds) = ap document (text_passes-stable l k force outside ds)
  text_pass-stable l k force c other = refl

  text_passes-stable :
      (l k : Language) (force : Bool) (c : Context) (ds : Doms)
      → text_passes k false c (text_passes l force c ds) ≡ text_passes l force c ds
  text_passes-stable l k force c nil = refl
  text_passes-stable l k force c (cons d ds) =
      ap₂ cons (text_pass-stable l k force c d) (text_passes-stable l k force c ds)

mutual
  unfolding text_pass element_pass

  passes_comm :
      (l k : Language) (force again : Bool) (c : Context) (d : Dom)
      → element_pass k again c (text_pass l force c d)
        ≡ text_pass l force c (element_pass k again c d)
  passes_comm l k force again c (text n) = refl
  passes_comm l k force again c (element e ds) =
      ap (element (translate_element_attributes k again c e)) (
        rw (inside-translate_element_attributes k again c c e)
          (all_passes_comm l k force again (inside c e) ds))
  passes_comm l k force again c (document ds) =
      ap document (all_passes_comm l k force again outside ds)
  passes_comm l k force again c other = refl

  all_passes_comm :
      (l k : Language) (force again : Bool) (c : Context) (ds : Doms)
      → element_passes k again c (text_passes l force c ds)
        ≡ text_passes l force c (element_passes k again c ds)
  all_passes_comm l k force again c nil = refl
  all_passes_comm l k force again c (cons d ds) =
      ap₂ cons (passes_comm l k force again c d) (all_passes_comm l k force again c ds)

-- Both passes at once.
pub apply-passes :
    (l : Language) (force : Bool) (c : Context) (d : Dom)
    → apply l force c d ≡ text_pass l force c (element_pass l force c d)
unfolding apply text_pass element_pass
apply-passes l force c (text n) = refl
apply-passes l force c (element e ds) = refl
apply-passes l force c (document ds) = refl
apply-passes l force c other = refl

-- After a tree is translated into a language, with or without force, a call of `apply` without force
-- for the same tree in the same place, in any language, changes nothing: neither texts nor attributes
-- are written, so that the loop from writes to the observer and back ends after one round.
pub apply-stable :
    (l k : Language) (force : Bool) (c : Context) (d : Dom)
    → apply k false c (apply l force c d) ≡ apply l force c d
apply-stable l k force c d =
    rw (apply-passes l force c d, apply-passes k false c)
      (rw (passes_comm l k force false c, element_pass-stable l k force c d)
        (text_pass-stable l k force c (element_pass l force c d)))
