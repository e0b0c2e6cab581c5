-- ===== src/VerdictLog/Journal/Torn.antt =====
-- verdictlog/journal.go: Record after an append that did not reach the end of its line.
use xray_checker_modify.Base.{
  ◌+◌, ◌<◌, false, ◌||◌, Option, none, List, [], ◌∷◌, ◌++◌, ◌≡◌, refl, ◌∙◌, ap, Text, trim_space,
  is_empty, All, append-nil,
}
use xray_checker_modify.Diagnostics.Types.{Time}
use xray_checker_modify.VerdictLog.Journal.{
  Entry, Config, Line, Journal, read_line, read_lines, read_file, record_verdict, bounded, timed,
}
use xray_checker_modify.VerdictLog.Journal.Recorded.{
  IsWhole, IsInLine, RoundTrips, All-append, read_file-append, record_verdict-file,
}

read_lines-undecoded :
    (encode : Entry → Option Line) (decode : Line → Option Entry) (line : Line)
    → decode (trim_space line) ≡ none
    → read_lines encode decode (line ∷ []) ≡ []
unfolding read_lines read_line
read_lines-undecoded encode decode line h = rw h refl

-- After whole lines and a torn one with no newline, Record writes its entry behind the torn line. Where
-- the entry names a node, a source and a verdict and would be read back from a line of its own, the
-- file is not due for a compaction, and the torn line and the new one together cannot be decoded, a
-- read finds the entries of the whole lines and not the recorded one, though Record reports no error.
pub record_verdict-torn :
    (encode : Entry → Option Line) (decode : Line → Option Entry) (cfg : Config) (now : Time)
    (e : Entry) (j : Journal) (whole torn : Text)
    → (is_empty (bounded e).stable_id
        || is_empty (bounded e).verdict
        || is_empty (bounded e).source)
      ≡ false
    → (r : RoundTrips encode decode (timed encode decode now (bounded e))) → j.appended + 1 < 500
    → j.file ≡ whole ++ torn
    → IsWhole whole
    → All IsInLine torn
    → decode (trim_space (torn ++ r.line)) ≡ none
    → (read_file encode decode (record_verdict encode decode cfg now e j).0.file
        ≡ read_file encode decode whole)
      × ((record_verdict encode decode cfg now e j).1 ≡ none)
unfolding record_verdict
record_verdict-torn encode decode cfg now e j whole torn complete r early split ended in_line
      undecoded =
    (
      ap (read_file encode decode) (
            record_verdict-file encode decode cfg now e j complete r early
            ∙ ap (λ (t : Text). t ++ (r.line ++ 10 ∷ [])) split)
          ∙ read_file-append encode decode whole torn r.line ended
              (All-append IsInLine torn r.line in_line r.one_line)
          ∙ ap (λ (t : List Entry). read_file encode decode whole ++ t)
              (read_lines-undecoded encode decode (torn ++ r.line) undecoded)
          ∙ append-nil (read_file encode decode whole),
      rw (complete, r.encoded) refl,
    )
