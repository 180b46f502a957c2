-- ===== src/Chat.antt =====
-- AIApps/ChatServer: the chat application. Here is what its parts share: how a function with exceptions
-- ends, functions that change a state, and JSON, whose library is the parameter `JsonApi`.
use cyclone_httpserver.Common.{
  refl, Bool, List, Option, none, some, ◌∷◌, ◌++◌, ℕ, if◌then◌else◌, ltb, ◌+◌, ◌/◌, ◌%◌, [], ◌≡◌,
  ◌⊎◌, inl, inr,
}
use cyclone_httpserver.Common.Bytes.{Text}
use cyclone_httpserver.Common.Decimal.{ℤ}
use cyclone_httpserver.Common.Dict.{Dict}
pub mod Strategy
pub mod Config
pub mod Tools
pub mod Escape
pub mod Helper
pub mod Server
mod Tests

-- A value, an exception with its `what()`, or undefined behaviour.
pub data Outcome (A : Type 0) : Type 0 where
  returned : A → Outcome A
  threw : Text → Outcome A
  aborted : Outcome A

-- A function that changes a state, also where it throws.
abbrev pub Act : Type 0 → Type 0 → Type 0
Act S A = S → Outcome A × S

abbrev pub pure : {S A : Type 0} → A → Act S A
pure a s = (returned a, s)

abbrev pub throw : {S A : Type 0} → Text → Act S A
throw what s = (threw what, s)

-- A part that leaves the state as it is.
abbrev pub lift : {S A : Type 0} → Outcome A → Act S A
lift o s = (o, s)

module _ {S A B : Type 0} where
  abbrev pub and_then : Outcome A × S → (A → Act S B) → Outcome B × S
  and_then (returned a, s) f = f a s
  and_then (threw what, s) f = (threw what, s)
  and_then (aborted, s) f = (aborted, s)

  infixl 5 ◌>>=◌ ◌>>◌
  abbrev pub ◌>>=◌ : Act S A → (A → Act S B) → Act S B
  m >>= f = λ s. and_then (m s) f

  abbrev pub ◌>>◌ : Act S A → Act S B → Act S B
  m >> n = m >>= λ _. n

-- A call that returned went on from a value.
pub and_then_returned :
    {S A B : Type 0} (r : Outcome A × S) (f : A → Act S B) {b : B} {s : S}
    → and_then r f ≡ (returned b, s)
    → (a : A) × (s1 : S) × (r ≡ (returned a, s1)) × (f a s1 ≡ (returned b, s))
and_then_returned (returned a, s1) f e = (a, s1, refl, e)
and_then_returned (threw what, s1) f e = cc
and_then_returned (aborted, s1) f e = cc

-- `catch (const std::exception& e)`, given `e.what()`.
abbrev pub caught : {S A : Type 0} → Outcome A × S → (Text → Act S A) → Outcome A × S
caught (returned a, s) f = (returned a, s)
caught (threw what, s) f = f what s
caught (aborted, s) f = (aborted, s)

abbrev pub try : {S A : Type 0} → Act S A → (Text → Act S A) → Act S A
try m f s = caught (m s) f

pub caught_returned :
    {S A : Type 0} (r : Outcome A × S) (f : Text → Act S A) {a : A} {s : S}
    → caught r f ≡ (returned a, s)
    → (r ≡ (returned a, s)) ⊎ (what : Text) × (s1 : S) × (f what s1 ≡ (returned a, s))
caught_returned (returned b, s1) f e = inl e
caught_returned (threw what, s1) f e = inr (what, s1, e)
caught_returned (aborted, s1) f e = cc

-- A property of the state that both parts keep.
pub and_then_holds :
    {S A B : Type 0} (P : S → Type 0) (r : Outcome A × S) (f : A → Act S B)
    → P r.1
    → ((a : A) (s : S) → P s → P (f a s).1)
    → P (and_then r f).1
and_then_holds P (returned a, s) f h k = k a s h
and_then_holds P (threw what, s) f h k = h
and_then_holds P (aborted, s) f h k = h

pub caught_holds :
    {S A : Type 0} (P : S → Type 0) (r : Outcome A × S) (f : Text → Act S A)
    → P r.1
    → ((what : Text) (s : S) → P s → P (f what s).1)
    → P (caught r f).1
caught_holds P (returned a, s) f h k = h
caught_holds P (threw what, s) f h k = k what s h
caught_holds P (aborted, s) f h k = h

-- Behind an exception nothing runs.
pub and_then_threw :
    {S A B : Type 0} (r : Outcome A × S) (f : A → Act S B) {what : Text}
    → r.0 ≡ threw what
    → (and_then r f).1 ≡ r.1
and_then_threw (returned a, s) f e = cc
and_then_threw (threw what, s) f e = refl
and_then_threw (aborted, s) f e = refl

-- What the code calls of the JSON library. `at_key` and `at_index` are `operator[]` of a constant,
-- which is undefined for a key that is not there.
pub record JsonApi : Type 1 where
  pub Json : Type 0
  pub string : Text → Json
  pub array : List Json → Json
  pub object : Dict Json → Json
  pub boolean : Bool → Json
  pub number : ℤ → Json
  pub null : Json
  pub contains : Text → Json → Bool
  pub is_string : Json → Bool
  pub is_object : Json → Bool
  pub is_array : Json → Bool
  -- `empty()`.
  pub holds_nothing : Json → Bool
  pub at_key : Text → Json → Outcome Json
  -- `operator[]` of a variable.
  pub at_variable : Text → Json → Outcome Json
  pub at_index : ℕ → Json → Outcome Json
  pub get_string : Json → Outcome Text
  -- `value(key, "")`.
  pub value : Text → Json → Outcome Text
  -- What a loop over an array and over `items()` sees.
  pub elements : Json → List Json
  pub items : Json → Dict Json
  pub parse : Text → Outcome Json
  pub dump : Json → Outcome Text
  -- `dump(4)`.
  pub dump_indented : Json → Outcome Text

-- The two literals of `escapeString` that are no C++: the label of its second case and the text of its third.
pub record Literals : Type 0 where
  pub single_quote : ℕ
  pub escaped_double : Text

-- What the application calls of other libraries and of the system; `W` is what lies outside.
pub record Outside (Json W : Type 0) : Type 0 where
  -- The milliseconds of the system clock, and the local time as `getTime` formats it.
  pub now : W → ℕ × W
  pub local_time : W → Text × W
  -- `std::getenv`.
  pub env : Text → Option Text
  -- `curl_easy_escape` and `curl_easy_init`.
  pub url_encode : Text → Option Text
  pub curl_init : W → Bool × W
  -- `curl_easy_perform`: what it writes, or the text of its error.
  pub get : Text → W → Outcome Text × W
  pub post : Text → Text → Text → W → Outcome Text × W
  -- `BasicPublish` on one of the channels.
  pub basic_publish : ℕ → Text → Text → W → Outcome (Unit {0}) × W
  -- The configuration: `none` if the file is not open, else the JSON value that `>>` reads.
  pub config_file : W → Option (Outcome Json) × W
  -- What the source does not determine.
  pub literals : Literals

-- A call that never throws.
abbrev pub call : {S A : Type 0} → (S → A × S) → Act S A
call f s = let (a, s') = f s in (returned a, s')

-- One byte of UTF-8 behind the first.
abbrev behind : ℕ → ℕ
behind n = 128 + n % 64

-- The UTF-8 bytes of a literal whose characters lie below 65536.
abbrev pub utf8 : Text → Text
utf8 [] = []
utf8 (c ∷ s) =
    let rest = utf8 s in
    if ltb c 128
    then c ∷ rest
    else if ltb c 2048
    then (192 + c / 64) ∷ behind c ∷ rest
    else (224 + c / 4096) ∷ behind (c / 64) ∷ behind c ∷ rest
