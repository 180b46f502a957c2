-- ===== src/Common/Bytes.antt =====
-- Byte strings: `std::string` and the ranges of bytes of a buffer, with the searches that the
-- code makes in them.
use Prim.Native.Char.{code}
use Prim.Native.Nat.{ℕ, suc, ◌+◌, ◌≤◌}
use Prim.Native.String.{String}
use mathlib.Core.Bool.{Bool, true, false, ◌&&◌, ◌||◌}
use mathlib.Core.List.{List, [], ◌∷◌, ◌++◌}
use mathlib.Core.Logic.{◌↔◌, ◌≢◌, inl, inr}
use mathlib.Core.Option.{Option, none, some}
use mathlib.Core.Path.{◌≡◌, refl}
use native.Mathlib.Omega.{arith}
use cyclone_httpserver.Common.Lists.{All, length}
use cyclone_httpserver.Common.Tests.{◌==◌, if◌then◌else◌, leb, Option-cases}

-- The bytes of a string, each below 256.
abbrev pub Text : Type 0
Text = List ℕ

-- The bytes of an ASCII literal.
abbrev pub codes : String → Text
codes String.[] = []
codes (String.◌∷◌ c s) = code c ∷ codes s

-- `operator==` of two strings.
abbrev pub text_eq : Text → Text → Bool
text_eq [] [] = true
text_eq [] (y ∷ ys) = false
text_eq (x ∷ xs) [] = false
text_eq (x ∷ xs) (y ∷ ys) = x == y && text_eq xs ys

pub text_eq_sound : (s t : Text) → text_eq s t ≡ true → s ≡ t
text_eq_sound [] [] h = refl
text_eq_sound [] (y ∷ ys) h = ground arith
text_eq_sound (x ∷ xs) [] h = ground arith
text_eq_sound (x ∷ xs) (y ∷ ys) h = ground (arith, text_eq_sound xs ys)

pub text_eq_refl : (s : Text) → text_eq s s ≡ true
text_eq_refl [] = refl
text_eq_refl (x ∷ xs) = ground (arith, text_eq_refl xs)

pub text_eq_iff : (s t : Text) → (text_eq s t ≡ true) ↔ (s ≡ t)
text_eq_iff s t = (text_eq_sound s t, λ e. ground (arith, e, text_eq_refl s))

abbrev pub is_empty : Text → Bool
is_empty [] = true
is_empty (x ∷ xs) = false

-- `std::find` of one byte in a range: what stands before it and what stands behind it, or `none`
-- where `std::find` returns the range's end.
abbrev pub cut : ℕ → Text → Option (Text × Text)
cut c [] = none
cut c (x ∷ xs) =
    if x == c
    then some ([], xs)
    else elim (cut c xs) [ none ↦ none | some (before, behind) ↦ some (x ∷ before, behind) ]

-- A byte that does not stand in the text.
abbrev pub Free : ℕ → Text → Type 0
Free c = All (λ x. x ≢ c)

pub cut_at : (c : ℕ) (s t : Text) → Free c s → cut c (s ++ c ∷ t) ≡ some (s, t)
cut_at c [] t h = ground arith
cut_at c (x ∷ s) t h = ground (arith, cut_at c s t h.1)

pub cut-Free-none : (c : ℕ) (s : Text) → Free c s → cut c s ≡ none
cut-Free-none c [] h = refl
cut-Free-none c (x ∷ s) h = ground (arith, cut-Free-none c s h.1)

pub Free-cut-none : (c : ℕ) (s : Text) → cut c s ≡ none → Free c s
Free-cut-none c [] h = tt
Free-cut-none c (x ∷ s) h = elim (Option-cases (cut c s)) [
  | inl e ↦ ground (arith, Free-cut-none c s e)
  | inr ((f, r), e) ↦ ground arith
]

pub cut_append :
    (c : ℕ) (s t : Text) {before behind : Text}
    → cut c s ≡ some (before, behind)
    → cut c (s ++ t) ≡ some (before, behind ++ t)
cut_append c [] t h = ground arith
cut_append c (x ∷ s) t h = elim (Option-cases (cut c s)) [
  | inl e ↦ ground arith
  | inr ((b, r), e) ↦ ground (arith, cut_append c s t e)
]

pub length-cut :
    (c : ℕ) (s : Text) {before behind : Text}
    → cut c s ≡ some (before, behind)
    → length before + length behind + 1 ≡ length s
length-cut c [] h = ground arith
length-cut c (x ∷ s) h = elim (Option-cases (cut c s)) [
  | inl e ↦ ground arith
  | inr ((b, r), e) ↦ ground (arith, length-cut c s e)
]

-- The position of the first CR LF of a text.
abbrev pub line_end : Text → Option ℕ
line_end [] = none
line_end (x ∷ []) = none
line_end (x ∷ y ∷ s) =
    if x == 13 && y == 10
    then some 0
    else elim (line_end (y ∷ s)) [ none ↦ none | some n ↦ some (suc n) ]

pub line_end_append : (s t : Text) {n : ℕ} → line_end s ≡ some n → line_end (s ++ t) ≡ some n
line_end_append [] t h = ground arith
line_end_append (x ∷ []) t h = ground arith
line_end_append (x ∷ y ∷ s) t h = elim (Option-cases (line_end (y ∷ s))) [
  | inl e ↦ ground arith
  | inr (n, e) ↦ ground (arith, line_end_append (y ∷ s) t e)
]

pub line_end-le : (s : Text) {n : ℕ} → line_end s ≡ some n → n + 2 ≤ length s
line_end-le [] h = ground arith
line_end-le (x ∷ []) h = ground arith
line_end-le (x ∷ y ∷ s) h = elim (Option-cases (line_end (y ∷ s))) [
  | inl e ↦ ground arith
  | inr (n, e) ↦ ground (arith, line_end-le (y ∷ s) e)
]

pub line_end_line : (l t : Text) → Free 13 l → line_end (l ++ 13 ∷ 10 ∷ t) ≡ some (length l)
line_end_line [] t h = ground arith
line_end_line (x ∷ []) t h = ground arith
line_end_line (x ∷ y ∷ l) t h = ground (arith, line_end_line (y ∷ l) t h.1)

-- `isspace` in the C locale.
abbrev pub is_space : ℕ → Bool
is_space c = c == 32 || leb 9 c && leb c 13

-- `while (p < end && isspace(*p)) ++p`.
abbrev pub skip_spaces : Text → Text
skip_spaces [] = []
skip_spaces (x ∷ xs) = if is_space x then skip_spaces xs else x ∷ xs

-- What stands behind `p` at the front of a text.
abbrev pub strip_prefix : Text → Text → Option Text
strip_prefix [] s = some s
strip_prefix (c ∷ p) [] = none
strip_prefix (c ∷ p) (x ∷ s) = if c == x then strip_prefix p s else none

-- `find` of a text: what stands behind its first occurrence.
abbrev pub find_behind : Text → Text → Option Text
find_behind p [] = strip_prefix p []
find_behind p (x ∷ s) = elim (strip_prefix p (x ∷ s)) [
  | some rest ↦ some rest
  | none ↦ find_behind p s
]

-- `find` of one byte and the `substr` up to it, or up to the end.
abbrev pub until : ℕ → Text → Text
until c s = elim (cut c s) [ some (front, rest) ↦ front | none ↦ s ]
