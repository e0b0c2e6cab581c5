-- ===== src/VerdictLog/Journal/Recorded.antt =====
-- verdictlog/journal.go: what Record adds to the file, and what a read then finds.
use xray_checker_modify.Base.{
  ℕ, ◌+◌, ◌≤◌, ◌<◌, false, ◌||◌, Option, some, List, [], ◌∷◌, ◌++◌, ◌≡◌, ◌⊎◌, refl, sym, ◌∙◌, ap,
  Text, trim_space, is_empty, length, take, leb, ◌==◌, arith, Bool-cases, append_assoc, append-nil,
  Option-cases, inl, inr, All, length-take-le, length-append, map,
}
use xray_checker_modify.Diagnostics.Types.{Time}
use xray_checker_modify.VerdictLog.Journal.{
  Entry, Config, Line, Journal, scan, read_line, read_lines, read_file, record_verdict, bounded,
  timed, field, truncate,
}

-- Every line of the file has its end.
abbrev pub IsWhole : Text → Type 0
IsWhole file = (file ≡ []) ⊎ ((t : Text) × (file ≡ t ++ 10 ∷ []))

abbrev pub IsInLine : ℕ → Type 0
IsInLine c = (c == 10) ≡ false

scan-ended : (line t u : Text) → scan line (t ++ 10 ∷ u) ≡ scan line (t ++ 10 ∷ []) ++ scan [] u
unfolding scan
scan-ended line [] u = refl
scan-ended line (c ∷ t) u = elim (Bool-cases (c == 10)) [
  | inl e ↦ rw e (ap (λ (ls : List Line). line ∷ ls) (scan-ended [] t u))
  | inr e ↦ rw e (scan-ended (line ++ c ∷ []) t u)
]

scan-whole : (w u : Text) → IsWhole w → scan [] (w ++ u) ≡ scan [] w ++ scan [] u
unfolding scan
scan-whole w u (inl e) = rw e refl
scan-whole w u (inr (t, e)) = rw (e, append_assoc t (10 ∷ []) u) (scan-ended [] t u)

scan-line : (line l : Text) → All IsInLine l → scan line (l ++ 10 ∷ []) ≡ (line ++ l) ∷ []
unfolding scan
scan-line line [] h = rw (append-nil line) refl
scan-line line (c ∷ l) h =
    rw h.0 (scan-line (line ++ c ∷ []) l h.1 ∙ rw (append_assoc line (c ∷ []) l) refl)

pub All-append {ℓ κ} :
    {A : Type ℓ} (P : A → Type κ) (xs ys : List A) → All P xs → All P ys → All P (xs ++ ys)
All-append P [] ys h k = k
All-append P (x ∷ xs) ys h k = (h.0, All-append P xs ys h.1 k)

module _ (encode : Entry → Option Line) (decode : Line → Option Entry) where
  read-append :
      (ls ms : List Line)
      → read_lines encode decode (ls ++ ms)
        ≡ read_lines encode decode ls ++ read_lines encode decode ms
  unfolding read_lines
  read-append [] ms = refl
  read-append (l ∷ ls) ms = elim (Option-cases (read_line encode decode l)) [
    | inl e ↦ rw e (read-append ls ms)
    | inr (x, e) ↦ rw e (ap (λ (t : List Entry). x ∷ t) (read-append ls ms))
  ]

  -- What encoding.json does for an entry: a line with no newline in it and no space around it, which is read back as the
  -- same entry.
  pub record RoundTrips (e : Entry) : Type 0 where
    pub line : Line
    pub one_line : All IsInLine line
    pub encoded : encode e ≡ some line
    pub tight : trim_space line ≡ line
    pub full : is_empty line ≡ false
    pub decoded : decode line ≡ some e

  read_line-decoded :
      (e : Entry) (r : RoundTrips e)
      → (is_empty e.stable_id || e.at == 0) ≡ false
      → read_line encode decode r.line ≡ some e
  unfolding read_line
  read_line-decoded e r h = rw (r.tight, r.decoded, r.full, h) refl

  -- The line is written behind what the file has after its last newline.
  pub read_file-append :
      (w torn line : Text)
      → IsWhole w
      → All IsInLine (torn ++ line)
      → read_file encode decode ((w ++ torn) ++ (line ++ 10 ∷ []))
        ≡ read_file encode decode w ++ read_lines encode decode ((torn ++ line) ∷ [])
  unfolding read_file
  read_file-append w torn line whole h = rw (append_assoc w torn (line ++ 10 ∷ [])) (
      rw (sym (append_assoc torn line (10 ∷ []))) (
        rw (scan-whole w ((torn ++ line) ++ 10 ∷ []) whole, scan-line [] (torn ++ line) h)
          (read-append (scan [] w) ((torn ++ line) ∷ []))))

  module _ (cfg : Config) (now : Time) (e : Entry) (j : Journal)
      (complete : (is_empty (bounded e).stable_id
          || is_empty (bounded e).verdict
          || is_empty (bounded e).source)
        ≡ false)
      (r : RoundTrips (timed encode decode now (bounded e))) (early : j.appended + 1 < 500) where
    pub record_verdict-file :
        (record_verdict encode decode cfg now e j).0.file ≡ j.file ++ (r.line ++ 10 ∷ [])
    unfolding record_verdict
    record_verdict-file =
        let due : leb 500 (j.appended + 1) ≡ false = ground (arith, early) in
        rw (complete, r.encoded, due) refl

    -- An entry that names a node, a source and a verdict is recorded, where it is read back as it was
    -- encoded, its time or the present time is not zero, every line of the file has its end, and the
    -- file is not due for a compaction: a read then finds what it found before and, last, that entry
    -- with its texts bounded and its time set.
    pub record_verdict-read :
        ((timed encode decode now (bounded e)).at == 0) ≡ false
        → IsWhole j.file
        → read_file encode decode (record_verdict encode decode cfg now e j).0.file
          ≡ read_file encode decode j.file ++ timed encode decode now (bounded e) ∷ []
    unfolding read_lines
    record_verdict-read dated whole =
        let named : (is_empty (bounded e).stable_id
              || (timed encode decode now (bounded e)).at == 0)
            ≡ false =
          ground (arith, complete, dated) in
        ap (read_file encode decode) (
          record_verdict-file
          ∙ ap (λ (t : Text). t ++ (r.line ++ 10 ∷ [])) (sym (append-nil j.file)))
        ∙ read_file-append j.file [] r.line whole r.one_line
        ∙ ap (λ (t : List Entry). read_file encode decode j.file ++ t)
            (rw (read_line-decoded (timed encode decode now (bounded e)) r named) refl)

length-truncate : (t : Text) → length (truncate t) ≤ 200
unfolding truncate
length-truncate t = elim (Bool-cases (leb (length t) 200)) [
  | inl e ↦ rw e (ground (arith, e))
  | inr e ↦ rw e (omega (arith, length-append (take 199 t) (8230 ∷ []), length-take-le 199 t))
]

-- The texts of an entry.
abbrev pub texts : Entry → List Text
texts e =
    e.source ∷ e.trigger ∷ e.kind ∷ e.outcome ∷ e.stable_id ∷ e.node ∷ e.session_id ∷ e.agent_id
    ∷ e.agent_name ∷ e.region ∷ e.provider ∷ e.verdict ∷ e.detail ∷ e.local_status
    ∷ e.local_failure_code ∷ e.local_server_id ∷ e.agent_status ∷ e.agent_failure_code
    ∷ e.agent_failure_stage ∷ e.agent_server_id ∷ []

fields-short : (ts : List Text) → All (λ t. length t ≤ 200) (map field ts)
fields-short [] = tt
fields-short (t ∷ ts) = (length-truncate (trim_space t), fields-short ts)

-- No text of an entry that Record writes is longer than 200 characters.
pub bounded-short : (e : Entry) → All (λ t. length t ≤ 200) (texts (bounded e))
unfolding bounded
bounded-short e = fields-short (texts e)
