-- ===== src/VerdictLog/Journal/Kept.antt =====
-- verdictlog/journal.go: what Compact keeps, and how large the file is after it.
use mathlib.Core.List.{reverse, reverse-cons}
use xray_checker_modify.Base.{
  ℕ, ◌+◌, ◌≤◌, Option, some, List, [], ◌∷◌, ◌++◌, ◌≡◌, refl, ◌∙◌, ap, byte_length, Text, All, ltb,
  arith, Bool-cases, Option-cases, inl, inr, sort_by,
}
use xray_checker_modify.Diagnostics.Types.{Time}
use xray_checker_modify.VerdictLog.Journal.{
  Entry, Config, Line, Journal, newer, file_of, read_file, keep, compact,
}

byte_length-append : (s t : Text) → byte_length (s ++ t) ≡ byte_length s + byte_length t
unfolding byte_length
byte_length-append [] t = omega arith
byte_length-append (c ∷ s) t = omega (arith, byte_length-append s t)

-- The bytes of the lines, with the end of each.
unfoldable lines_size : List Line → ℕ
lines_size [] = 0
lines_size (l ∷ ls) = byte_length l + 1 + lines_size ls

byte_length-file_of : (ls : List Line) → byte_length (file_of ls) ≡ lines_size ls
unfolding file_of lines_size byte_length
byte_length-file_of [] = refl
byte_length-file_of (l ∷ ls) =
    omega (arith, byte_length-append l (10 ∷ file_of ls), byte_length-file_of ls)

size-append : (ls ms : List Line) → lines_size (ls ++ ms) ≡ lines_size ls + lines_size ms
unfolding lines_size
size-append [] ms = omega arith
size-append (l ∷ ls) ms = omega (arith, size-append ls ms)

size-reverse : (ls : List Line) → lines_size (reverse ls) ≡ lines_size ls
unfolding lines_size
size-reverse [] = refl
size-reverse (l ∷ ls) =
    ap lines_size (reverse-cons l ls)
    ∙ omega (arith, size-append (reverse ls) (l ∷ []), size-reverse ls)

module _ (encode : Entry → Option Line) (cfg : Config) (now : Time) where
  -- A line of an entry that is not older than the retention.
  abbrev pub IsRecent : Line → Type 0
  IsRecent l = (e : Entry) × (encode e ≡ some l) × (now ≤ e.at + cfg.retention)

  keep-size :
      (decode : Line → Option Entry) (es : List Entry) (size : ℕ)
      → size ≤ cfg.max_bytes
      → size + lines_size (keep encode decode cfg now es size) ≤ cfg.max_bytes
  unfolding keep lines_size
  keep-size decode [] size h = omega (arith, h)
  keep-size decode (e ∷ es) size h = elim (Bool-cases (ltb (e.at + cfg.retention) now)) [
    | inl old ↦ rw old (keep-size decode es size h)
    | inr recent ↦ elim (Option-cases (encode e)) [
      | inl n ↦ rw (recent, n) (keep-size decode es size h)
      | inr (line, k) ↦
          let grown = size + byte_length line + 1 in
          elim (Bool-cases (ltb cfg.max_bytes grown)) [
            | inl full ↦ rw (recent, k, full) (omega (arith, h))
            | inr room ↦
                let rest = keep-size decode es grown (ground (arith, room)) in
                rw (recent, k, room) (omega (arith, rest))
          ]
    ]
  ]

  keep-IsRecent :
      (decode : Line → Option Entry) (es : List Entry) (size : ℕ)
      → All IsRecent (keep encode decode cfg now es size)
  unfolding keep
  keep-IsRecent decode [] size = tt
  keep-IsRecent decode (e ∷ es) size = elim (Bool-cases (ltb (e.at + cfg.retention) now)) [
    | inl old ↦ rw old (keep-IsRecent decode es size)
    | inr recent ↦ elim (Option-cases (encode e)) [
      | inl n ↦ rw (recent, n) (keep-IsRecent decode es size)
      | inr (line, k) ↦
          let grown = size + byte_length line + 1 in
          elim (Bool-cases (ltb cfg.max_bytes grown)) [
            | inl full ↦ rw (recent, k, full) tt
            | inr room ↦
                rw (recent, k, room) ((e, k, ground (arith, recent)), keep-IsRecent decode es grown)
          ]
    ]
  ]

All-append {ℓ} :
    {A : Type ℓ} (P : A → Type ℓ) (xs ys : List A) → All P xs → All P ys → All P (xs ++ ys)
All-append P [] ys h k = k
All-append P (x ∷ xs) ys h k = (h.0, All-append P xs ys h.1 k)

All-reverse : (P : Line → Type 0) (ls : List Line) → All P ls → All P (reverse ls)
All-reverse P [] h = tt
All-reverse P (l ∷ ls) h =
    rw (reverse-cons l ls) (All-append P (reverse ls) (l ∷ []) (All-reverse P ls h.1) (h.0, tt))

-- The file is made of whole lines, each with the end of its line, that encode entries which are not
-- older than the retention.
pub record IsKept (encode : Entry → Option Line) (cfg : Config) (now : Time) (file : Text)
    : Type 0 where
  pub lines : List Line
  pub whole : file ≡ file_of lines
  pub recent : All (IsRecent encode cfg now) lines

-- After Compact the file is no larger than the limit in bytes, and it is made of whole lines, each of
-- them the encoding of an entry that is not older than the retention, whatever the file held before.
pub compact-bounded :
    (encode : Entry → Option Line) (decode : Line → Option Entry) (cfg : Config) (now : Time)
    (j : Journal)
    → (byte_length (compact encode decode cfg now j).file ≤ cfg.max_bytes)
      × IsKept encode cfg now (compact encode decode cfg now j).file
unfolding compact
compact-bounded encode decode cfg now j =
    let es = sort_by newer (read_file encode decode j.file) in
    let lines = keep encode decode cfg now es 0 in
    (
      rw (byte_length-file_of (reverse lines), size-reverse lines)
          (omega (arith, keep-size encode cfg now decode es 0 (omega arith))),
      record {
        lines = reverse lines;
        whole = refl;
        recent =
            All-reverse (IsRecent encode cfg now) lines (keep-IsRecent encode cfg now decode es 0);
      },
    )
