-- ===== src/Http/Buffer.antt =====
-- `muduo::net::Buffer`, which the server reads from and writes to: the calls that are made, with
-- what muduo documents of each. A buffer is seen through its readable bytes, `[peek(), peek() +
-- readableBytes())`.
use cyclone_httpserver.Common.{ℕ, ◌≤◌, ◌≡◌, refl, Option, [], ◌++◌, length, drop}
use cyclone_httpserver.Common.Bytes.{Text, line_end}

pub record BufferApi : Type 1 where
  pub Buf : Type 0
  pub content : Buf → Text
  -- `findCRLF()`, as a distance from `peek()`.
  pub find_crlf : Buf → Option ℕ
  -- `retrieve(n)`, and `retrieveUntil(peek() + n)`.
  pub retrieve : ℕ → Buf → Buf
  -- A new buffer, and `append`.
  pub empty : Buf
  pub append : Text → Buf → Buf
  pub find_crlf-content : (b : Buf) → find_crlf b ≡ line_end (content b)
  pub content-retrieve :
      (n : ℕ) (b : Buf) → n ≤ length (content b) → content (retrieve n b) ≡ drop n (content b)
  pub content-empty : content empty ≡ []
  pub content-append : (s : Text) (b : Buf) → content (append s b) ≡ content b ++ s

-- The readable bytes alone are such a buffer.
abbrev pub bytes : BufferApi
bytes = record {
  Buf = Text;
  content = λ b. b;
  find_crlf = line_end;
  retrieve = drop;
  empty = [];
  append = λ s b. b ++ s;
  find_crlf-content = λ b. refl;
  content-retrieve = λ n b h. refl;
  content-empty = refl;
  content-append = λ s b. refl;
}
