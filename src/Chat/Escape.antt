-- ===== src/Chat/Escape.antt =====
-- AIApps/ChatServer/src/AIUtil/AIHelper.cpp: `escapeString`, and the SQL of `pushMessageToMysql`. Two
-- literals there, the label of the second case and the text of the third, are no C++ and are parameters.
pub mod Reading
pub mod Insert
use cyclone_httpserver.Common.{ℕ, Bool, [], ◌∷◌, ◌++◌, if◌then◌else◌, ◌==◌}
use cyclone_httpserver.Chat.{Literals}
use cyclone_httpserver.Common.Bytes.{Text, codes}
use cyclone_httpserver.Common.Decimal.{ℤ, to_text, int_to_text}

-- What one round of the loop adds.
unfoldable pub escape_char : Literals → ℕ → Text
escape_char l c =
    if c == b'\\'
    then codes "\\\\"
    else if c == l.single_quote
    then codes "\\'"
    else if c == b'"'
    then l.escaped_double
    else if c == 10
    then codes "\\n"
    else if c == 13
    then codes "\\r"
    else if c == 9
    then codes "\\t"
    else c ∷ []

unfoldable pub escape_string : Literals → Text → Text
escape_string l [] = []
escape_string l (c ∷ s) = escape_char l c ++ escape_string l s

abbrev pub insert_start : Text
insert_start =
    codes "INSERT INTO chat_message (id, username, session_id, is_user, content, ts) VALUES ("

-- `sql` of `pushMessageToMysql`.
unfoldable pub insert_sql : Literals → ℤ → Text → Bool → Text → ℕ → Text → Text
insert_sql l user_id user_name is_user user_input ms session_id =
    insert_start
    ++ (int_to_text user_id
        ++ (codes ", '"
            ++ (escape_string l user_name
                ++ (codes "', '"
                    ++ (escape_string l session_id
                        ++ (codes "', "
                            ++ (to_text (if is_user then 1 else 0)
                                ++ (codes ", '"
                                    ++ (escape_string l user_input
                                        ++ (codes "', " ++ (to_text ms ++ codes ")")))))))))))
