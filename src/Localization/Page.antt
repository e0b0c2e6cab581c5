-- ===== src/Localization/Page.antt =====
-- localization.js: the walk over a page. A WeakMap's entry for a node is a field of the node; the
-- map of an element's attributes is a field of each attribute.
pub mod Branches
pub mod Stable
pub mod Tree
pub mod Sources
pub mod Shown
pub mod Restore
pub mod Fresh
use xray_checker_modify.Base.{
  Bool, true, false, not, ◌&&◌, ◌||◌, Option, none, some, List, [], ◌∷◌, ◌++◌, Text, text_eq,
  if◌then◌else◌,
}
use xray_checker_modify.Localization.Spaces.{leading, drop_leading, trim, trailing}
use xray_checker_modify.Localization.Translate.{Language, translate}

-- { source, output }
pub record Memo : Type 0 where
  pub source : Text
  pub output : Text

pub record TextNode : Type 0 where
  pub value : Text
  pub memo : Option Memo

-- One of aria-label, placeholder, title and alt: its value, if the element has it.
pub record Attribute : Type 0 where
  pub value : Option Text
  pub memo : Option Memo

pub record Element : Type 0 where
  -- whether it is a script, style, code, pre or textarea, and whether it has data-i18n-skip
  pub verbatim : Bool
  pub skip : Bool
  pub attributes : List Attribute

mutual
  pub data Dom : Type 0 where
    text : TextNode → Dom
    element : Element → Doms → Dom
    -- a document or a fragment, which is no element
    document : Doms → Dom
    -- a comment or the like
    other : Dom

  pub data Doms : Type 0 where
    nil : Doms
    cons : Dom → Doms → Doms

-- What `closest` finds above a node: whether the parent is an element, whether some element from
-- the parent upwards shows its text as it is, and whether one asks to be skipped.
pub record Context : Type 0 where
  pub in_element : Bool
  pub verbatim : Bool
  pub skip : Bool

abbrev pub outside : Context
outside = record { in_element = false; verbatim = false; skip = false }

abbrev pub inside : Context → Element → Context
inside c e = record {
  in_element = true;
  verbatim = c.verbatim || e.verbatim;
  skip = c.skip || e.skip;
}

-- !parent || parent.closest("script, style, code, pre, textarea, [data-i18n-skip]")
abbrev pub leaves_text : Context → Bool
leaves_text c = not c.in_element || (c.verbatim || c.skip)

-- previous && current === previous.output
unfoldable pub unchanged : Text → Option Memo → Bool
unchanged current none = false
unchanged current (some m) = text_eq current m.output

-- force && unchanged ? previous.source : current, where the memo is known to be unchanged or not
unfoldable pub source_of : Text → Option Memo → Text
source_of current none = current
source_of current (some m) = if text_eq current m.output then m.source else current

-- The translated text between its own spaces; none where nothing but spaces stands.
abbrev between : Language → Text → Text → Text → Option Text
between l front [] back = none
between l front (c ∷ s) back = some (front ++ (translate l (c ∷ s) ++ back))

unfoldable pub rendered : Language → Text → Option Text
rendered l source = between l (leading source) (trim source) (trailing (drop_leading source))

abbrev pub written : Text → Option Text → TextNode → TextNode
written source none n = n
written source (some output) n = record {
  value = output;
  memo = some (record { source = source; output = output });
}

unfoldable pub translate_text_node : Language → Bool → Context → TextNode → TextNode
translate_text_node l force c n =
    if leaves_text c
    then n
    else if not force && unchanged n.value n.memo
    then n
    else let source = if force then source_of n.value n.memo else n.value in
      written source (rendered l source) n

abbrev pub translated_value : Language → Bool → Attribute → Option Text → Attribute
translated_value l force a none = a
translated_value l force a (some current) =
    if not force && unchanged current a.memo
    then a
    else let source = if force then source_of current a.memo else current in
      let output = translate l source in
      record { value = some output; memo = some (record { source = source; output = output }) }

unfoldable pub translate_attribute : Language → Bool → Attribute → Attribute
translate_attribute l force a = translated_value l force a a.value

unfoldable pub translate_attributes : Language → Bool → List Attribute → List Attribute
translate_attributes l force [] = []
translate_attributes l force (a ∷ rest) =
    translate_attribute l force a ∷ translate_attributes l force rest

unfoldable pub translate_element_attributes : Language → Bool → Context → Element → Element
translate_element_attributes l force c e =
    if c.skip || e.skip
    then e
    else record e { attributes = translate_attributes l force e.attributes }

-- The elements of a tree, and then its texts.
unfoldable mutual
  pub element_pass : Language → Bool → Context → Dom → Dom
  element_pass l force c (text n) = text n
  element_pass l force c (element e ds) =
      element (translate_element_attributes l force c e) (element_passes l force (inside c e) ds)
  element_pass l force c (document ds) = document (element_passes l force outside ds)
  element_pass l force c other = other

  pub element_passes : Language → Bool → Context → Doms → Doms
  element_passes l force c nil = nil
  element_passes l force c (cons d ds) =
      cons (element_pass l force c d) (element_passes l force c ds)

unfoldable mutual
  pub text_pass : Language → Bool → Context → Dom → Dom
  text_pass l force c (text n) = text (translate_text_node l force c n)
  text_pass l force c (element e ds) = element e (text_passes l force (inside c e) ds)
  text_pass l force c (document ds) = document (text_passes l force outside ds)
  text_pass l force c other = other

  pub text_passes : Language → Bool → Context → Doms → Doms
  text_passes l force c nil = nil
  text_passes l force c (cons d ds) = cons (text_pass l force c d) (text_passes l force c ds)

-- apply(root, force), for a root that stands in this context
unfoldable pub apply : Language → Bool → Context → Dom → Dom
apply l force c (text n) = text (translate_text_node l force c n)
apply l force c other = other
apply l force c d = text_pass l force c (element_pass l force c d)
