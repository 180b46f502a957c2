-- ===== src/Chat/Escape/Reading.antt =====
-- How a server of MySQL reads an INSERT statement, as the reference for the SQL of AIHelper.
use cyclone_httpserver.Common.{ℕ, Bool, Option, none, some, [], ◌∷◌, if◌then◌else◌, ◌==◌, not, ◌||◌}
use cyclone_httpserver.Common.Bytes.{Text, codes, cut, strip_prefix, text_eq}
use cyclone_httpserver.Chat.{List}

abbrev pub quote : ℕ
quote = b'\''

-- The character that a backslash and `c` stand for in a string of MySQL.
abbrev pub unescape : ℕ → ℕ
unescape c =
    if c == b'0'
    then 0
    else if c == b'b'
    then 8
    else if c == b'n'
    then 10
    else if c == b'r'
    then 13
    else if c == b't'
    then 9
    else if c == b'Z'
    then 26
    else c

abbrev pub onto_first : ℕ → List Text → List Text
onto_first c [] = []
onto_first c (s ∷ ss) = (c ∷ s) ∷ ss

abbrev pub with_char : ℕ → Option (Text × Text) → Option (Text × Text)
with_char c none = none
with_char c (some (s, rest)) = some (c ∷ s, rest)

-- A string of MySQL from behind its opening quote: its characters, and what stands behind it. A quote
-- that is doubled stands for one.
unfoldable pub read_literal : Text → Option (Text × Text)
read_literal [] = none
read_literal (c ∷ []) = if c == quote then some ([], []) else none
read_literal (c ∷ d ∷ s) =
    let next = read_literal (d ∷ s) in
    let behind = read_literal s in
    if c == b'\\'
    then with_char (unescape d) behind
    else if c == quote
    then (if d == quote then with_char quote behind else some ([], d ∷ s))
    else with_char c next

-- A value of an insertion: a string, or a text without quotes.
pub data Value : Type 0 where
  quoted bare : Text → Value

abbrev pub is_bare : ℕ → Bool
is_bare c = not (c == b',' || c == b')' || c == quote)

abbrev pub onto_left : {B : Type 0} → ℕ → Text × B → Text × B
onto_left c (s, rest) = (c ∷ s, rest)

unfoldable pub split_bare : Text → Text × Text
split_bare [] = ([], [])
split_bare (c ∷ s) = let rest = split_bare s in if is_bare c then onto_left c rest else ([], c ∷ s)

abbrev pub as_quoted : Option (Text × Text) → Option (Value × Text)
as_quoted none = none
as_quoted (some (s, rest)) = some (quoted s, rest)

abbrev pub as_bare : Text × Text → Value × Text
as_bare (s, rest) = (bare s, rest)

unfoldable pub read_value : Text → Option (Value × Text)
read_value [] = none
read_value (c ∷ s) =
    if c == quote then as_quoted (read_literal s) else some (as_bare (split_bare (c ∷ s)))

-- Names between commas; blanks do not count.
unfoldable pub read_columns : Text → List Text
read_columns [] = [] ∷ []
read_columns (c ∷ s) =
    let rest = read_columns s in
    if c == b',' then [] ∷ rest else if c == b' ' then rest else onto_first c rest

abbrev pub Row : Type 0
Row = List (Text × Value)

abbrev pub then_read : {A B : Type 0} → Option A → (A → Option B) → Option B
then_read none f = none
then_read (some a) f = f a

-- One value for each column up to the closing bracket, and what stands behind it.
unfoldable pub read_values : List Text → Text → Option (Row × Text)
read_values [] s = none
read_values (k ∷ []) s =
    then_read (read_value s)
      λ (v, s1). then_read (strip_prefix (codes ")") s1) λ rest. some ((k, v) ∷ [], rest)
read_values (k ∷ k' ∷ ks) s = then_read (read_value s) λ (v, s1).
    then_read (strip_prefix (codes ", ") s1)
      λ s2. then_read (read_values (k' ∷ ks) s2) λ (row, rest). some ((k, v) ∷ row, rest)

-- The table, the values by the names of their columns, and what stands behind the statement.
unfoldable pub read_insert : Text → Option (Text × Row × Text)
read_insert s = then_read (strip_prefix (codes "INSERT INTO ") s) λ s1.
    then_read (cut b' ' s1) λ (table, s2). then_read (strip_prefix (codes "(") s2) λ s3.
      then_read (cut b')' s3) λ (columns, s4). then_read (strip_prefix (codes " VALUES (") s4) λ s5.
        then_read (read_values (read_columns columns) s5) λ (row, rest). some (table, row, rest)

-- The value of a column.
abbrev pub value_of : Text → Row → Option Value
value_of name [] = none
value_of name ((k, v) ∷ row) = if text_eq name k then some v else value_of name row
