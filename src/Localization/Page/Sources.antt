-- ===== src/Localization/Page/Sources.antt =====
-- The texts that a page had before any translation: each node keeps them in its memo, and
-- translating into English puts them back.
use xray_checker_modify.Base.{
  Bool, true, false, not, ◌&&◌, Option, none, some, ◌≡◌, ◌≢◌, refl, sym, ap, ◌∙◌, Text,
  text_eq_refl, arith, inl, inr, Bool-cases, Option-cases,
}
use mathlib.Core.Option
use xray_checker_modify.Localization.Spaces.{pieces-append}
use xray_checker_modify.Localization.Translate.{Language, english, translate}
use xray_checker_modify.Localization.Page.{
  Memo, TextNode, Attribute, Context, leaves_text, unchanged, source_of, rendered, translated_value,
  translate_text_node, translate_attribute,
}
use xray_checker_modify.Localization.Page.Branches.{source_for, node_left, node_kept, node_written}

-- What a text node's memo may hold: the value that was written for a text that is not blank, and
-- only where the translator writes at all.
abbrev pub SoundMemo : Context → Text → Option Memo → Type 0
SoundMemo c v none = Unit
SoundMemo c v (some m) =
    (leaves_text c ≡ false) × (v ≡ m.output) × (rendered english m.source ≢ none)

abbrev pub node_source : TextNode → Text
node_source n = source_of n.value n.memo

rendered-some : (l k : Language) (s : Text) {o : Text} → rendered l s ≡ some o → rendered k s ≢ none
unfolding rendered
rendered-some l k s h = ground arith

-- English is written as it stands: the spaces and the text between them are put together again.
rendered-english : (s : Text) {o : Text} → rendered english s ≡ some o → o ≡ s
unfolding rendered translate
rendered-english s h = ground (arith, pieces-append s)

source_for-eq :
    (force : Bool) (n : TextNode)
    → (not force && unchanged n.value n.memo) ≡ false
    → source_for force n ≡ node_source n
unfolding unchanged source_of
source_for-eq force n u = ground arith

source_of_memo : (s o : Text) → source_of o (some (record { source = s; output = o })) ≡ s
unfolding source_of
source_of_memo s o = rw (text_eq_refl o)

pub source_of_output : (v : Text) (m : Memo) → v ≡ m.output → source_of v (some m) ≡ m.source
unfolding source_of
source_of_output v m e = ground (arith, text_eq_refl m.output)

module _ (l : Language) (force : Bool) (c : Context) (n : TextNode) where
  -- A node's source is kept, whatever is written.
  pub node_source-translate : node_source (translate_text_node l force c n) ≡ node_source n
  node_source-translate = elim (Bool-cases (leaves_text c)) [
    | inl e ↦ rw (node_left l force c n e)
    | inr e ↦ elim (Bool-cases (not force && unchanged n.value n.memo)) [
      | inl u ↦ rw (node_kept l force c n u)
      | inr u ↦ elim (Option-cases (rendered l (source_for force n))) [
        | inl r ↦ rw (node_written l force c n e u, r)
        | inr (out, r) ↦
            rw (node_written l force c n e u, r)
              (source_of_memo (source_for force n) out ∙ source_for-eq force n u)
      ]
    ]
  ]

  pub SoundMemo-translate :
      SoundMemo c n.value n.memo
      → SoundMemo c (translate_text_node l force c n).value (translate_text_node l force c n).memo
  SoundMemo-translate s = elim (Bool-cases (leaves_text c)) [
    | inl e ↦ rw (node_left l force c n e) s
    | inr e ↦ elim (Bool-cases (not force && unchanged n.value n.memo)) [
      | inl u ↦ rw (node_kept l force c n u) s
      | inr u ↦ elim (Option-cases (rendered l (source_for force n))) [
        | inl r ↦ rw (node_written l force c n e u, r) s
        | inr (out, r) ↦
            rw (node_written l force c n e u, r)
              (e, refl, rendered-some l english (source_for force n) r)
      ]
    ]
  ]

-- A node that is left alone, or whose text is blank, still shows its source.
left-source :
    (c : Context) (n : TextNode)
    → SoundMemo c n.value n.memo
    → leaves_text c ≡ true
    → n.value ≡ node_source n
unfolding source_of
left-source c n s e = ground arith

blank-source :
    (c : Context) (n : TextNode)
    → SoundMemo c n.value n.memo
    → rendered english (node_source n) ≡ none
    → n.value ≡ node_source n
unfolding source_of
blank-source c n s e = go n.memo s e
  where
    go :
        (m : Option Memo)
        → SoundMemo c n.value m
        → rendered english (source_of n.value m) ≡ none
        → n.value ≡ source_of n.value m
    go none s e = refl
    go (some m) s e =
        absurd (s.2 (ap (rendered english) (sym (source_of_output n.value m s.1)) ∙ e))

pub value-translate_english :
    (c : Context) (n : TextNode)
    → SoundMemo c n.value n.memo
    → (translate_text_node english true c n).value ≡ node_source n
value-translate_english c n s = elim (Bool-cases (leaves_text c)) [
  | inl e ↦ rw (node_left english true c n e) (left-source c n s e)
  | inr e ↦ elim (Option-cases (rendered english (node_source n))) [
    | inl r ↦ rw (node_written english true c n e refl, r) (blank-source c n s r)
    | inr (out, r) ↦
        rw (node_written english true c n e refl, r) (rendered-english (node_source n) r)
  ]
]

-- The same for an attribute: an element that is skipped has no memos.
abbrev pub SoundAttribute : Bool → Attribute → Type 0
SoundAttribute skipped a = sound_value skipped a.value a.memo
  where
    sound_value : Bool → Option Text → Option Memo → Type 0
    sound_value skipped v none = Unit
    sound_value true v (some m) = ⊥
    sound_value false none (some m) = ⊥
    sound_value false (some v) (some m) = v ≡ m.output

abbrev pub attribute_source : Attribute → Option Text
attribute_source a = Option.map (λ v. source_of v a.memo) a.value

translated_value-source :
    (l : Language) (force : Bool) (v : Option Text) (m : Option Memo)
    → attribute_source (translated_value l force (record { value = v; memo = m }) v)
      ≡ attribute_source (record { value = v; memo = m })
unfolding unchanged source_of
translated_value-source l force none m = refl
translated_value-source l force (some v) none = ground (arith, text_eq_refl (translate l v))
translated_value-source l force (some v) (some m) =
    ground (arith, text_eq_refl (translate l v), text_eq_refl (translate l m.source))

translated_value-Sound :
    (l : Language) (force : Bool) (v : Option Text) (m : Option Memo)
    → SoundAttribute false (record { value = v; memo = m })
    → SoundAttribute false (translated_value l force (record { value = v; memo = m }) v)
translated_value-Sound l force none m s = s
translated_value-Sound l force (some v) m s = elim (Bool-cases (not force && unchanged v m)) [
  | inl e ↦ rw e s
  | inr e ↦ rw e refl
]

translated_value-english :
    (v : Option Text) (m : Option Memo)
    → (translated_value english true (record { value = v; memo = m }) v).value
      ≡ attribute_source (record { value = v; memo = m })
unfolding translate
translated_value-english none m = refl
translated_value-english (some v) m = refl

module _ (l : Language) (force : Bool) (a : Attribute) where
  pub attribute_source-translate :
      attribute_source (translate_attribute l force a) ≡ attribute_source a
  unfolding translate_attribute
  attribute_source-translate = translated_value-source l force a.value a.memo

  pub SoundAttribute-translate :
      SoundAttribute false a → SoundAttribute false (translate_attribute l force a)
  unfolding translate_attribute
  SoundAttribute-translate = translated_value-Sound l force a.value a.memo

pub value-translate_attribute_english :
    (a : Attribute) → (translate_attribute english true a).value ≡ attribute_source a
unfolding translate_attribute
value-translate_attribute_english a = translated_value-english a.value a.memo

pub skipped-source : (a : Attribute) → SoundAttribute true a → a.value ≡ attribute_source a
unfolding source_of
skipped-source a s = ground arith
