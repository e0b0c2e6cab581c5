-- ===== src/VerdictLog/Journal/Found.antt =====
-- verdictlog/journal.go: what Query returns.
use mathlib.Core.Bool.{true≢false}
use mathlib.Core.List.{Perm, perm_middle}
use mathlib.Core.List.Perm as PermLaws
use xray_checker_modify.Base.{
  ℕ, zero, suc, ◌≤◌, ◌<◌, true, List, [], ◌∷◌, ◌++◌, ◌≡◌, ◌⊎◌, refl, sym, ◌∙◌, ap, Text, text_eq→eq,
  text_eq_refl, ℤ, pos, negsuc, length, take, ltb, arith, Bool-cases, inl, inr, All, sort_by,
  Sorted, sort_by-Sorted, sort_by-Perm, All-sort_by, Option, append_assoc, length-take-le,
  if◌then◌else◌,
}
use xray_checker_modify.VerdictLog.Journal.{
  Entry, Line, Journal, Filter, newer, matches, matching, query_limit, passes_text, read_file,
  query,
}

-- What a filter asks of an entry: each text that it gives, and a time that is not before its first
-- and before its last, where it gives them.
pub record IsWanted (f : Filter) (e : Entry) : Type 0 where
  pub node : (f.stable_id ≡ []) ⊎ (e.stable_id ≡ f.stable_id)
  pub source : (f.source ≡ []) ⊎ (e.source ≡ f.source)
  pub verdict : (f.verdict ≡ []) ⊎ (e.verdict ≡ f.verdict)
  pub since : (f.from ≡ 0) ⊎ (f.from ≤ e.at)
  pub until : (f.to ≡ 0) ⊎ (e.at < f.to)

passes_text-eq : (w v : Text) → passes_text w v ≡ true → (w ≡ []) ⊎ (v ≡ w)
passes_text-eq [] v h = inl refl
passes_text-eq (c ∷ w) v h = inr (text_eq→eq v (c ∷ w) h)

eq-passes_text : (w v : Text) → (w ≡ []) ⊎ (v ≡ w) → passes_text w v ≡ true
eq-passes_text w v (inl e) = rw e refl
eq-passes_text w v (inr e) = rw (e, text_eq_refl w) (ground arith)

matches-IsWanted : (f : Filter) (e : Entry) → matches f e ≡ true → IsWanted f e
unfolding matches
matches-IsWanted f e h = record {
  node = passes_text-eq f.stable_id e.stable_id (ground (arith, h));
  source = passes_text-eq f.source e.source (ground (arith, h));
  verdict = passes_text-eq f.verdict e.verdict (ground (arith, h));
  since = ground (arith, h);
  until = ground (arith, h);
}

IsWanted-matches : (f : Filter) (e : Entry) → IsWanted f e → matches f e ≡ true
unfolding matches
IsWanted-matches f e w =
    let n = eq-passes_text f.stable_id e.stable_id w.node in
    let s = eq-passes_text f.source e.source w.source in
    let v = eq-passes_text f.verdict e.verdict w.verdict in
    ground (arith, n, s, v, w.since, w.until)

-- The entries that a filter leaves out.
unfoldable unmatched : Filter → List Entry → List Entry
unfolding matches
unmatched f [] = []
unmatched f (e ∷ es) = if matches f e then unmatched f es else e ∷ unmatched f es

matching-Perm : (f : Filter) (es : List Entry) → Perm (matching f es ++ unmatched f es) es
unfolding matching unmatched
matching-Perm f [] = PermLaws.refl []
matching-Perm f (e ∷ es) = elim (Bool-cases (matches f e)) [
  | inl h ↦ rw h (PermLaws.cons e (matching-Perm f es))
  | inr h ↦ rw h (
      PermLaws.trans (perm_middle (matching f es) (unmatched f es))
        (PermLaws.cons e (matching-Perm f es)))
]

matching-IsWanted : (f : Filter) (es : List Entry) → All (IsWanted f) (matching f es)
unfolding matching
matching-IsWanted f [] = tt
matching-IsWanted f (e ∷ es) = elim (Bool-cases (matches f e)) [
  | inl h ↦ rw h (matches-IsWanted f e h, matching-IsWanted f es)
  | inr h ↦ rw h (matching-IsWanted f es)
]

unmatched-IsWanted : (f : Filter) (es : List Entry) → All (λ e. ¬ IsWanted f e) (unmatched f es)
unfolding unmatched
unmatched-IsWanted f [] = tt
unmatched-IsWanted f (e ∷ es) = elim (Bool-cases (matches f e)) [
  | inl h ↦ rw h (unmatched-IsWanted f es)
  | inr h ↦
      rw h ((λ w. absurd (true≢false (sym (IsWanted-matches f e w) ∙ h))), unmatched-IsWanted f es)
]

-- What is left of a list behind its first entries.
rest_of {ℓ} : {A : Type ℓ} → ℕ → List A → List A
rest_of zero xs = xs
rest_of (suc n) [] = []
rest_of (suc n) (x ∷ xs) = rest_of n xs

take-rest_of {ℓ} : {A : Type ℓ} (n : ℕ) (xs : List A) → take n xs ++ rest_of n xs ≡ xs
unfolding rest_of
take-rest_of zero xs = refl
take-rest_of (suc n) [] = refl
take-rest_of (suc n) (x ∷ xs) = ap (λ t. x ∷ t) (take-rest_of n xs)

rest_of-full {ℓ} :
    {A : Type ℓ} (n : ℕ) (xs : List A) → (rest_of n xs ≡ []) ⊎ (length (take n xs) ≡ n)
unfolding rest_of
rest_of-full zero xs = inr refl
rest_of-full (suc n) [] = inl refl
rest_of-full (suc n) (x ∷ xs) = elim (rest_of-full n xs) [ inl e ↦ inl e | inr e ↦ inr (ap suc e) ]

-- The number of entries that a limit stands for: 200 for none, and 2000 for more than that.
abbrev pub IsLimit : ℤ → ℕ → Type 0
IsLimit (pos zero) n = n ≡ 200
IsLimit (pos (suc k)) n = (n ≤ suc k) × (n ≤ 2000) × ((n ≡ suc k) ⊎ (n ≡ 2000))
IsLimit (negsuc k) n = n ≡ 200

query_limit-IsLimit : (l : ℤ) → IsLimit l (query_limit l)
query_limit-IsLimit (pos zero) = refl
query_limit-IsLimit (pos (suc k)) = elim (Bool-cases (ltb 2000 (suc k))) [
  | inl e ↦ rw e (ground (arith, e), omega arith, inr refl)
  | inr e ↦ rw e (omega arith, ground (arith, e), inl refl)
]
query_limit-IsLimit (negsuc k) = refl

-- The answer to a filter, of the entries that the journal has: with those wanted that are left out and
-- those not wanted it is all of them.
pub record IsAnswer (f : Filter) (known found : List Entry) : Type 0 where
  pub left_out : List Entry
  pub others : List Entry
  pub limit : ℕ
  pub parts : Perm (found ++ (left_out ++ others)) known
  pub wanted : All (IsWanted f) (found ++ left_out)
  pub unwanted : All (λ e. ¬ IsWanted f e) others
  pub ordered : Sorted (λ a b. b.at ≤ a.at) (found ++ left_out)
  pub is_limit : IsLimit f.limit limit
  pub short : length found ≤ limit
  pub full : (left_out ≡ []) ⊎ (length found ≡ limit)

-- Query returns entries that the file has and the filter asks for, none more often than the file has it,
-- the newest first, and as many as its limit allows, which is 200 if none is given and 2000 at most.
-- What it leaves out is not asked for, or is no newer than all that it returns and beyond the limit.
pub query-IsAnswer :
    (encode : Entry → Option Line) (decode : Line → Option Entry) (f : Filter) (j : Journal)
    → IsAnswer f (read_file encode decode j.file) (query encode decode f j)
unfolding query
query-IsAnswer encode decode f j =
    let known = read_file encode decode j.file in
    let sorted = sort_by newer (matching f known) in
    let n = query_limit f.limit in
    let whole = take-rest_of n sorted in
    record {
      left_out = rest_of n sorted;
      others = unmatched f known;
      limit = n;
      parts =
          rw (sym (append_assoc (take n sorted) (rest_of n sorted) (unmatched f known)), whole)
            (PermLaws.trans
              (PermLaws.append_right (unmatched f known) (sort_by-Perm newer (matching f known)))
              (matching-Perm f known));
      wanted =
          rw whole (All-sort_by newer (IsWanted f) (matching f known) (matching-IsWanted f known));
      unwanted = unmatched-IsWanted f known;
      ordered = rw whole (
          sort_by-Sorted newer (λ a b. b.at ≤ a.at) (λ a b c p q. omega (arith, p, q))
            (λ a b h. ground (arith, h)) (λ a b h. ground (arith, h)) (matching f known));
      is_limit = query_limit-IsLimit f.limit;
      short = length-take-le n sorted;
      full = rest_of-full n sorted;
    }
