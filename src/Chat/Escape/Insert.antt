-- ===== src/Chat/Escape/Insert.antt =====
-- What the database server reads of the SQL of AIHelper::pushMessageToMysql.
use mathlib.Core.List.{append_assoc}
use cyclone_httpserver.Common.{
  ℕ, ◌≡◌, ◌≢◌, refl, ◌∙◌, Bool, false, some, [], ◌∷◌, ◌++◌, if◌then◌else◌, ◌==◌, arith, ◌+◌, length,
  All, ap, true,
}
use cyclone_httpserver.Common.Bytes.{Text, codes, is_empty}
use cyclone_httpserver.Common.Decimal.{ℤ, pos, negsuc, to_text, int_to_text, Digits, to_text-Digits}
use cyclone_httpserver.Chat.{Literals, List}
use cyclone_httpserver.Chat.Escape.{escape_char, escape_string, insert_sql}
use cyclone_httpserver.Chat.Escape.Reading.{
  quote, with_char, read_literal, is_bare, onto_left, split_bare, as_quoted, as_bare, read_value,
  read_columns, Row, then_read, read_values, read_insert, value_of, quoted, bare, Value,
}

-- The literals as they are meant.
abbrev pub Escapes : Literals → Type 0
Escapes l = (l.single_quote ≡ quote) × (l.escaped_double ≡ codes "\\\"")

read_literal-escape_char :
    (l : Literals) (c : ℕ) (t : Text)
    → Escapes l
    → is_empty t ≡ false
    → read_literal (escape_char l c ++ t) ≡ with_char c (read_literal t)
unfolding escape_char read_literal
read_literal-escape_char l c [] g h = ground (arith, g.0, g.1)
read_literal-escape_char l c (d ∷ t) g h = ground (arith, g.0, g.1)

append-is_empty : (s : Text) (c : ℕ) (t : Text) → is_empty (s ++ c ∷ t) ≡ false
append-is_empty [] c t = refl
append-is_empty (x ∷ s) c t = refl

read_literal-escape_string :
    (l : Literals) (s : Text) (d : ℕ) (rest : Text)
    → Escapes l
    → d ≢ quote
    → read_literal (escape_string l s ++ quote ∷ d ∷ rest) ≡ some (s, d ∷ rest)
unfolding escape_string read_literal
read_literal-escape_string l [] d rest g n = ground (arith, n)
read_literal-escape_string l (c ∷ s) d rest g n =
    rw (append_assoc (escape_char l c) (escape_string l s) (quote ∷ d ∷ rest)) (
      read_literal-escape_char l c (escape_string l s ++ quote ∷ d ∷ rest) g
        (append-is_empty (escape_string l s) quote (d ∷ rest))
      ∙ rw (read_literal-escape_string l s d rest g n) refl)

read_value_escaped :
    (l : Literals) (s : Text) (d : ℕ) (rest : Text)
    → Escapes l
    → d ≢ quote
    → read_value (quote ∷ (escape_string l s ++ quote ∷ d ∷ rest)) ≡ some (quoted s, d ∷ rest)
unfolding read_value
read_value_escaped l s d rest g n = ap as_quoted (read_literal-escape_string l s d rest g n)

split_bare_append :
    (t : Text) (d : ℕ) (rest : Text)
    → All (λ x. is_bare x ≡ true) t
    → is_bare d ≡ false
    → split_bare (t ++ d ∷ rest) ≡ (t, d ∷ rest)
unfolding split_bare
split_bare_append [] d rest h e = rw e refl
split_bare_append (x ∷ t) d rest h e =
    rw (h.0, split_bare) (ap (onto_left x) (split_bare_append t d rest h.1 e))

read_value_bare :
    (t : Text) (d : ℕ) (rest : Text)
    → All (λ x. is_bare x ≡ true) t
    → is_bare d ≡ false
    → d ≢ quote
    → read_value (t ++ d ∷ rest) ≡ some (bare t, d ∷ rest)
unfolding read_value
read_value_bare [] d rest h e n =
    let no : (d == quote) ≡ false = ground arith in
    rw (no, read_value) (ap (λ r. some (as_bare r)) (split_bare_append [] d rest h e))
read_value_bare (x ∷ t) d rest h e n =
    let x_bare : is_bare x ≡ true = h.0 in
    let no : (x == quote) ≡ false = ground arith in
    rw (no, read_value) (ap (λ r. some (as_bare r)) (split_bare_append (x ∷ t) d rest h e))

values_last :
    (k s rest : Text) (v : Value)
    → read_value s ≡ some (v, b')' ∷ rest)
    → read_values (k ∷ []) s ≡ some ((k, v) ∷ [], rest)
unfolding read_values
values_last k s rest v e = rw (e, read_values) refl

values_more :
    (k k' : Text) (ks : List Text) (s s2 : Text) (v : Value) {r : Row × Text}
    → read_value s ≡ some (v, b',' ∷ b' ' ∷ s2)
    → read_values (k' ∷ ks) s2 ≡ some r
    → read_values (k ∷ k' ∷ ks) s ≡ some ((k, v) ∷ r.0, r.1)
unfolding read_values
values_more k k' ks s s2 v e f = rw (e, read_values) (rw (f, read_values) refl)

Digits-bare : (s : Text) → Digits s → All (λ x. is_bare x ≡ true) s
Digits-bare [] d = tt
Digits-bare (x ∷ s) d = (ground (arith, d.0), Digits-bare s d.1)

int_to_text-bare : (i : ℤ) → All (λ x. is_bare x ≡ true) (int_to_text i)
unfolding int_to_text
int_to_text-bare (pos n) = Digits-bare (to_text n) (to_text-Digits n)
int_to_text-bare (negsuc n) = (refl, Digits-bare (to_text (n + 1)) (to_text-Digits (n + 1)))

-- If the two literals that are no C++ stand for the single quote and for the escaped double quote, then the
-- database server reads the statement, whatever the texts of the message are, as the insertion into
-- chat_message of one row of six columns, in which each column has, by its name, exactly the value of
-- the message, and nothing stands behind it.
pub read_insert-insert_sql :
    (l : Literals) (user_id : ℤ) (user_name : Text) (is_user : Bool) (user_input : Text) (ms : ℕ)
    (session_id : Text)
    → l.single_quote ≡ quote
    → l.escaped_double ≡ codes "\\\""
    → (row : Row) × (read_insert (insert_sql l user_id user_name is_user user_input ms session_id)
        ≡ some (codes "chat_message", row, []))
      × (length row ≡ 6)
      × (value_of (codes "id") row ≡ some (bare (int_to_text user_id)))
      × (value_of (codes "username") row ≡ some (quoted user_name))
      × (value_of (codes "session_id") row ≡ some (quoted session_id))
      × (value_of (codes "is_user") row ≡ some (bare (to_text (if is_user then 1 else 0))))
      × (value_of (codes "content") row ≡ some (quoted user_input))
      × (value_of (codes "ts") row ≡ some (bare (to_text ms)))
unfolding read_insert insert_sql read_columns
read_insert-insert_sql l user_id user_name is_user user_input ms session_id single double =
    let g : Escapes l = (single, double) in
    let flag : ℕ = if is_user then 1 else 0 in
    let number : (n : ℕ) → All (λ x. is_bare x ≡ true) (to_text n) =
      λ n. Digits-bare (to_text n) (to_text-Digits n) in
    let s6 : Text = to_text ms ++ codes ")" in
    let s5 : Text = quote ∷ (escape_string l user_input ++ (codes "', " ++ s6)) in
    let s4 : Text = to_text flag ++ (codes ", " ++ s5) in
    let s3 : Text = quote ∷ (escape_string l session_id ++ (codes "', " ++ s4)) in
    let s2 : Text = quote ∷ (escape_string l user_name ++ (codes "', " ++ s3)) in
    let s1 : Text = int_to_text user_id ++ (codes ", " ++ s2) in
    let values : read_values
          (codes "id"
            ∷ codes "username"
            ∷ codes "session_id"
            ∷ codes "is_user"
            ∷ codes "content"
            ∷ codes "ts"
            ∷ [])
          s1
        ≡ some (
          (codes "id", bare (int_to_text user_id))
              ∷ (codes "username", quoted user_name)
              ∷ (codes "session_id", quoted session_id)
              ∷ (codes "is_user", bare (to_text flag))
              ∷ (codes "content", quoted user_input)
              ∷ (codes "ts", bare (to_text ms))
              ∷ [],
          [],
        ) =
      values_more _ _ _ s1 s2 _
        (read_value_bare (int_to_text user_id) b',' (b' ' ∷ s2) (int_to_text-bare user_id) refl
          (λ e. omega arith))
        (values_more _ _ _ s2 s3 _
          (read_value_escaped l user_name b',' (b' ' ∷ s3) g (λ e. omega arith))
          (values_more _ _ _ s3 s4 _
            (read_value_escaped l session_id b',' (b' ' ∷ s4) g (λ e. omega arith))
            (values_more _ _ _ s4 s5 _
              (read_value_bare (to_text flag) b',' (b' ' ∷ s5) (number flag) refl
                (λ e. omega arith))
              (values_more _ _ _ s5 s6 _
                (read_value_escaped l user_input b',' (b' ' ∷ s6) g (λ e. omega arith))
                (values_last _ s6 [] _
                  (read_value_bare (to_text ms) b')' [] (number ms) refl (λ e. omega arith))))))) in
    (
      _,
      ap (λ r. then_read r (λ (row, rest). some (codes "chat_message", row, rest))) values,
      refl,
      refl,
      refl,
      refl,
      refl,
      refl,
      refl,
    )
