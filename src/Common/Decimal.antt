-- ===== src/Common/Decimal.antt =====
-- `std::to_string` of an unsigned number and `std::stoi`.
use Prim.Native.Nat.{ℕ, zero, suc, ◌+◌, ◌-◌, ◌*◌, ◌/◌, ◌%◌, ◌^◌, ◌≤◌, ◌<◌}
use mathlib.Core.Bool.{Bool, true, false, ◌&&◌}
use mathlib.Core.List.{[], ◌∷◌}
use mathlib.Core.Option.{Option, none, some}
use mathlib.Core.Path.{◌≡◌, ap, ◌∙◌}
use native.Mathlib.Omega.{arith}
use cyclone_httpserver.Common.Bytes.{Text, skip_spaces, is_empty}
use cyclone_httpserver.Common.Lists.{All}
use cyclone_httpserver.Common.Tests.{◌==◌, if◌then◌else◌, leb}

-- `negsuc n` is -(n + 1).
pub data ℤ : Type 0 where
  pos : ℕ → ℤ
  negsuc : ℕ → ℤ

-- The decimal digits of `n`, in front of those that are there already; the fuel bounds their count.
unfoldable pub digits_onto : ℕ → ℕ → Text → Text
digits_onto zero n acc = acc
digits_onto (suc f) n acc =
    let rest = digits_onto f (n / 10) ((b'0' + n % 10) ∷ acc) in
    if n / 10 == 0 then (b'0' + n % 10) ∷ acc else rest

unfoldable pub to_text : ℕ → Text
unfolding digits_onto
to_text n = digits_onto (suc n) n []

abbrev pub is_digit : ℕ → Bool
is_digit c = leb b'0' c && leb c b'9'

-- The value of the longest run of digits at the front, after the digits read so far.
pub read_digits : ℕ → Text → ℕ
read_digits acc [] = acc
read_digits acc (c ∷ s) = if is_digit c then read_digits (acc * 10 + (c - b'0')) s else acc

abbrev starts_digit : Text → Bool
starts_digit [] = false
starts_digit (c ∷ s) = is_digit c

abbrev pub int_max : ℕ
int_max = 2147483647

-- The conversion of a run of digits with its sign; `none` is `invalid_argument` where there is no
-- digit, and `out_of_range` where the value is no `int`.
stoi_signed : Bool → Text → Option ℤ
unfolding read_digits
stoi_signed negative s =
    if starts_digit s
    then (if negative
        then (if read_digits 0 s == 0
            then some (pos 0)
            else if leb (read_digits 0 s) (int_max + 1)
            then some (negsuc (read_digits 0 s - 1))
            else none)
        else if leb (read_digits 0 s) int_max
        then some (pos (read_digits 0 s))
        else none)
    else none

stoi_sign : Text → Option ℤ
unfolding stoi_signed
stoi_sign [] = none
stoi_sign (c ∷ s) =
    if c == b'-'
    then stoi_signed true s
    else if c == b'+'
    then stoi_signed false s
    else stoi_signed false (c ∷ s)

unfoldable pub stoi : Text → Option ℤ
unfolding stoi_sign
stoi s = stoi_sign (skip_spaces s)

-- The conversion of an `int` to `uint64_t`.
abbrev pub to_u64 : ℤ → ℕ
to_u64 (pos n) = n
to_u64 (negsuc n) = 2 ^ 64 - 1 - n

abbrev pub Digits : Text → Type 0
Digits = All (λ c. is_digit c ≡ true)

-- The digits of `n` in front of `acc` read as `n`, then on.
read_digits-digits_onto :
    (f n : ℕ) (acc : Text) → n < f → read_digits 0 (digits_onto f n acc) ≡ read_digits n acc
unfolding read_digits digits_onto
read_digits-digits_onto zero n acc h = elim h [ ]
read_digits-digits_onto (suc f) n acc h =
    ground (arith, read_digits-digits_onto f (n / 10) ((b'0' + n % 10) ∷ acc))

read_digits-to_text : (n : ℕ) → read_digits 0 (to_text n) ≡ n
unfolding to_text read_digits
read_digits-to_text n = read_digits-digits_onto (suc n) n [] (omega arith)

digits_onto-Digits : (f n : ℕ) (acc : Text) → Digits acc → Digits (digits_onto f n acc)
unfolding digits_onto
digits_onto-Digits zero n acc h = h
digits_onto-Digits (suc f) n acc h =
    ground (arith, digits_onto-Digits f (n / 10) ((b'0' + n % 10) ∷ acc))

pub to_text-Digits : (n : ℕ) → Digits (to_text n)
unfolding to_text
to_text-Digits n = digits_onto-Digits (suc n) n [] tt

digits_onto-ne-nil :
    (f n : ℕ) (acc : Text) → is_empty acc ≡ false → is_empty (digits_onto f n acc) ≡ false
unfolding digits_onto
digits_onto-ne-nil zero n acc h = h
digits_onto-ne-nil (suc f) n acc h =
    ground (arith, digits_onto-ne-nil f (n / 10) ((b'0' + n % 10) ∷ acc))

pub to_text-ne-nil : (n : ℕ) → is_empty (to_text n) ≡ false
unfolding to_text digits_onto
to_text-ne-nil n = ground (arith, digits_onto-ne-nil n (n / 10) ((b'0' + n % 10) ∷ []))

stoi-Digits :
    (s : Text)
    → Digits s
    → is_empty s ≡ false
    → read_digits 0 s ≤ int_max
    → stoi s ≡ some (pos (read_digits 0 s))
unfolding stoi
stoi-Digits [] h e le = ground arith
stoi-Digits (c ∷ s) h e le = ground arith

-- What `to_string` writes, `stoi` reads back.
pub stoi-to_text : (n : ℕ) → n ≤ int_max → stoi (to_text n) ≡ some (pos n)
stoi-to_text n h =
    stoi-Digits (to_text n) (to_text-Digits n) (to_text-ne-nil n)
      (omega (arith, read_digits-to_text n))
    ∙ ap (λ k. some (pos k)) (read_digits-to_text n)

-- `std::to_string` of an `int`.
unfoldable pub int_to_text : ℤ → Text
unfolding to_text
int_to_text (pos n) = to_text n
int_to_text (negsuc n) = b'-' ∷ to_text (n + 1)
