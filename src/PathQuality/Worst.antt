-- ===== src/PathQuality/Worst.antt =====
-- pathquality/report.go: the choice of the worst hour, and the order of shares.
use native.Mathlib.Nat.{
  le-mul_of_pos_right, mul-le-mul_right, mul-lt-mul_of_pos_right, le_of_mul-le-mul_right,
  lt_of_mul-lt-mul_right,
}
use mathlib.Core.Path.{subst}
use xray_checker_modify.Base.{
  ℕ, ◌*◌, ◌≤◌, ◌<◌, true, false, Option, none, some, List, [], ◌∷◌, ◌++◌, ◌≡◌, ◌⊎◌, refl, sym, ap,
  ◌∙◌, append_assoc, append-nil, leb, ltb, ◌==◌, ==_iff, if◌then◌else◌, and_true, All, arith,
  Bool-cases, inl, inr,
}
use xray_checker_modify.PathQuality.Report.{
  Cell, Share, share_of, share_lt, takes_over, worst_from, worst_bad, worst_hour,
}

-- A fraction that is at most another, and one that is less.
abbrev pub IsMost : Share → Share → Type 0
IsMost x y = x.0 * y.1 ≤ y.0 * x.1

abbrev pub IsLess : Share → Share → Type 0
IsLess x y = x.0 * y.1 < y.0 * x.1

pub IsMost-trans : (x y z : Share) → 0 < y.1 → IsMost x y → IsMost y z → IsMost x z
IsMost-trans (a, b) (c, d) (e, f) pos h k =
    let first = mul-le-mul_right f h in
    let second = mul-le-mul_right b k in
    let both : a * f * d ≤ e * b * d = omega (arith, first, second) in
    le_of_mul-le-mul_right both pos

pub IsMost-IsLess : (x y z : Share) → 0 < x.1 → 0 < y.1 → IsMost x y → IsLess y z → IsLess x z
IsMost-IsLess (a, b) (c, d) (e, f) some_x pos h k =
    let first = mul-le-mul_right f h in
    let second = mul-lt-mul_of_pos_right k some_x in
    let both : a * f * d < e * b * d = omega (arith, first, second) in lt_of_mul-lt-mul_right d both

abbrev pub share : Cell → Share
share c = share_of c.runs c.bad

-- An hour with fewer than two runs is not compared.
abbrev pub IsBelow : Cell → Cell → Type 0
IsBelow w c = (c.runs < 2) ⊎ IsLess (share c) (share w)

abbrev pub IsAtMost : Cell → Cell → Type 0
IsAtMost w c = (c.runs < 2) ⊎ IsMost (share c) (share w)

-- The first of the hours with the highest share, among those with two runs at least.
pub record IsFirstWorst (cells : List Cell) (w : Cell) : Type 0 where
  pub before : List Cell
  pub after : List Cell
  pub stands : cells ≡ before ++ w ∷ after
  pub ran : 2 ≤ w.runs
  pub earlier : All (IsBelow w) before
  pub later : All (IsAtMost w) after

All-append : (P : Cell → Type 0) (xs ys : List Cell) → All P xs → All P ys → All P (xs ++ ys)
All-append P [] ys a b = b
All-append P (x ∷ xs) ys a b = (a.0, All-append P xs ys a.1 b)

All-weaken :
    (P Q : Cell → Type 0) → ((c : Cell) → P c → Q c) → (xs : List Cell) → All P xs → All Q xs
All-weaken P Q k [] a = tt
All-weaken P Q k (x ∷ xs) a = (k x a.0, All-weaken P Q k xs a.1)

-- What the search has found among the hours that it has seen.
abbrev Found : List Cell → Option Cell → Type 0
Found seen none = All (λ c. c.runs < 2) seen
Found seen (some w) = IsFirstWorst seen w

some_share : (c : Cell) → 0 < (share c).1
some_share c = ground arith

pub share-IsLess : (x y : Share) → share_lt x y ≡ true → IsLess x y
share-IsLess (a, b) (c, d) h = ground (arith, h)

pub share-IsMost : (x y : Share) → share_lt x y ≡ false → IsMost y x
share-IsMost (a, b) (c, d) h = ground (arith, h)

-- An hour that takes over has a higher share than all that were compared.
module _ (w c : Cell) (less : IsLess (share w) (share c)) where
  IsAtMost-IsBelow : (x : Cell) → IsAtMost w x → IsBelow c x
  IsAtMost-IsBelow x (inl few) = inl few
  IsAtMost-IsBelow x (inr most) =
      inr (IsMost-IsLess (share x) (share w) (share c) (some_share x) (some_share w) most less)

  IsBelow-IsBelow : (x : Cell) → IsBelow w x → IsBelow c x
  IsBelow-IsBelow x (inl few) = inl few
  IsBelow-IsBelow x (inr lower) = IsAtMost-IsBelow x (inr (omega (arith, lower)))

  over-Found :
      (seen : List Cell) → 2 ≤ c.runs → IsFirstWorst seen w → IsFirstWorst (seen ++ c ∷ []) c
  over-Found seen ran f = record {
    before = seen;
    after = [];
    stands = refl;
    ran = ran;
    earlier = subst (All (IsBelow c)) (sym f.stands) (
        All-append (IsBelow c) f.before (w ∷ f.after)
          (All-weaken (IsBelow w) (IsBelow c) IsBelow-IsBelow f.before f.earlier)
          (inr less, All-weaken (IsAtMost w) (IsBelow c) IsAtMost-IsBelow f.after f.later));
    later = tt;
  }

stay-Found :
    (w c : Cell) (seen : List Cell)
    → IsAtMost w c
    → IsFirstWorst seen w
    → IsFirstWorst (seen ++ c ∷ []) w
stay-Found w c seen most f = record {
  before = f.before;
  after = f.after ++ c ∷ [];
  stands = ap (λ l. l ++ c ∷ []) f.stands ∙ append_assoc f.before (w ∷ f.after) (c ∷ []);
  ran = f.ran;
  earlier = f.earlier;
  later = All-append (IsAtMost w) f.after (c ∷ []) f.later (most, tt);
}

over : (c w : Cell) → takes_over c (some w) ≡ true → (2 ≤ c.runs) × IsLess (share w) (share c)
over c w h = (ground (arith, h), share-IsLess (share w) (share c) (and_true (leb 2 c.runs) _ h))

not_over : (c w : Cell) → takes_over c (some w) ≡ false → IsAtMost w c
not_over c w h = elim (Bool-cases (share_lt (share w) (share c))) [
  | inl e ↦ inl (ground (arith, e, h))
  | inr e ↦ inr (share-IsMost (share w) (share c) e)
]

next-Found :
    (seen : List Cell) (found : Option Cell) (c : Cell)
    → Found seen found
    → Found (seen ++ c ∷ []) (if takes_over c found then some c else found)
next-Found seen none c f = elim (Bool-cases (leb 2 c.runs)) [
  | inl e ↦ rw e (record {
    before = seen;
    after = [];
    stands = refl;
    ran = ground (arith, e);
    earlier = All-weaken (λ x. x.runs < 2) (IsBelow c) (λ x few. inl few) seen f;
    later = tt;
  })
  | inr e ↦ rw e (All-append (λ x. x.runs < 2) seen (c ∷ []) f (ground (arith, e), tt))
]
next-Found seen (some w) c f = elim (Bool-cases (takes_over c (some w))) [
  | inl e ↦ rw e (over-Found w c (over c w e).1 seen (over c w e).0 f)
  | inr e ↦ rw e (stay-Found w c seen (not_over c w e) f)
]

worst_from-Found :
    (cs seen : List Cell) (found : Option Cell)
    → Found seen found
    → Found (seen ++ cs) (worst_from found cs)
unfolding worst_from
worst_from-Found [] seen found f = subst (λ l. Found l found) (sym (append-nil seen)) f
worst_from-Found (c ∷ cs) seen found f =
    subst (λ l. Found l (worst_from (if takes_over c found then some c else found) cs))
      (append_assoc seen (c ∷ []) cs)
      (worst_from-Found cs (seen ++ c ∷ []) _ (next-Found seen found c f))

-- What an hour is given for, and what none means.
pub data IsWorst (cells : List Cell) : Option ℕ → Type 0 where
  given : (w : Cell) → IsFirstWorst cells w → 0 < w.bad → IsWorst cells (some w.hour)
  nowhere : All (λ c. (c.runs < 2) ⊎ (c.bad ≡ 0)) cells → IsWorst cells none

zero_share : (b n c d : ℕ) → b ≡ 0 → 2 ≤ n → c * n ≤ b * d → c ≡ 0
zero_share b n c d z ran h =
    let grown = le-mul_of_pos_right {m = n} c (omega (arith, ran)) in
    let none_bad : b * d ≡ 0 = rw z (omega arith) in omega (arith, grown, none_bad, h)

pub share_pair : (n b : ℕ) → 0 < n → share_of n b ≡ (b, n)
share_pair n b h = let some_run : (n == 0) ≡ false = ground (arith, h) in rw some_run refl

cleared : (n b m d : ℕ) → 2 ≤ n → 2 ≤ m → IsMost (share_of n b) (share_of m d) → b * m ≤ d * n
cleared n b m d some_n some_m h =
    let first = share_pair n b (omega (arith, some_n)) in
    let second = share_pair m d (omega (arith, some_m)) in
    subst (λ x. IsMost x (d, m)) first (subst (IsMost (share_of n b)) second h)

never_bad : (w c : Cell) → w.bad ≡ 0 → 2 ≤ w.runs → IsAtMost w c → (c.runs < 2) ⊎ (c.bad ≡ 0)
never_bad w c z ran (inl few) = inl few
never_bad w c z ran (inr most) = elim (Bool-cases (ltb c.runs 2)) [
  | inl e ↦ inl (ground (arith, e))
  | inr e ↦
      let shown : c.bad * w.runs ≤ w.bad * c.runs =
        cleared c.runs c.bad w.runs w.bad (ground (arith, e)) ran most in
      inr (zero_share w.bad w.runs c.bad c.runs z ran shown)
]

IsBelow-IsAtMost : (w c : Cell) → IsBelow w c → IsAtMost w c
IsBelow-IsAtMost w c (inl few) = inl few
IsBelow-IsAtMost w c (inr less) = inr (omega (arith, less))

found-IsWorst : (cells : List Cell) (o : Option Cell) → Found cells o → IsWorst cells (worst_bad o)
found-IsWorst cells none f =
    nowhere
      (All-weaken (λ c. c.runs < 2) (λ c. (c.runs < 2) ⊎ (c.bad ≡ 0)) (λ c few. inl few) cells f)
found-IsWorst cells (some w) f = elim (Bool-cases (w.bad == 0)) [
  | inr e ↦ rw e (given w f (ground (arith, e)))
  | inl e ↦
      let z : w.bad ≡ 0 = (==_iff w.bad 0).0 e in
      let calm : Cell → Type 0 = λ c. (c.runs < 2) ⊎ (c.bad ≡ 0) in
      rw e (
        nowhere (
          subst (All calm) (sym f.stands) (
            All-append calm f.before (w ∷ f.after)
              (All-weaken (IsBelow w) calm (λ c b. never_bad w c z f.ran (IsBelow-IsAtMost w c b))
                f.before f.earlier)
              (
                inr z,
                All-weaken (IsAtMost w) calm (λ c b. never_bad w c z f.ran b) f.after f.later,
              ))))
]

-- The worst hour of a row is the first of those with the highest share of bad runs among the hours
-- with two runs at least, if that hour has a bad run; and a row has none only if no hour with two
-- runs has a bad one.
pub worst_hour-IsWorst : (cells : List Cell) → IsWorst cells (worst_hour cells)
unfolding worst_hour
worst_hour-IsWorst cells = found-IsWorst cells _ (worst_from-Found cells [] none tt)
