-- ===== src/Ssl/Read.antt =====
-- `onRead`: what arrives for an established connection is decrypted whole.
use cyclone_httpserver.Common.{
  ℕ, zero, suc, ◌+◌, ◌≡◌, ◌≢◌, ◌<◌, ◌⊎◌, inl, inr, refl, sym, ap, ◌∙◌, Bool, true, false, some,
  List, [], ◌∷◌, ◌++◌, length, length-append, arith, Bool-cases, ◌&&◌,
}
use mathlib.Core.List.{append-nil, append_assoc}
use cyclone_httpserver.Common.Bytes.{Text}
use cyclone_httpserver.Ssl.{
  OpenSsl, SslConnection, established, error, Event, tcp_shutdown, message, SslError, no_error,
  want_read, want_write, syscall, ssl, unknown, not_want_read, get_last_error, ReadResult, got,
  zero_read, negative, read_more, read_loop, hand_over, on_data, on_read, read_by, handle_error,
}

-- How a read may end the loop.
abbrev IsEnd : ReadResult → Type 0
IsEnd r = (r ≡ zero_read) ⊎ (r ≡ negative)

result_cases : (r : ReadResult) → ((t : Text) × (r ≡ got t)) ⊎ IsEnd r
result_cases (got t) = inl (t, refl)
result_cases zero_read = inr (inl refl)
result_cases negative = inr (inr refl)

end_not_got : (r : ReadResult) → IsEnd r → (t : Text) → r ≢ got t
end_not_got r (inl e) t = cc
end_not_got r (inr e) t = cc

length_pos : (t : Text) → t ≢ [] → 0 < length t
length_pos [] h = absurd (h refl)
length_pos (b ∷ t) h = omega arith

text_cases : (t : Text) → (t ≡ []) ⊎ (t ≢ [])
text_cases [] = inl refl
text_cases (b ∷ t) = inr (λ e. cc)

pub handle_error_cases :
    {S : Type 0} (code : SslError) (c : SslConnection S)
    → (((handle_error code c).1 ≡ []) × ((handle_error code c).0.state ≡ c.state))
      ⊎ (((handle_error code c).1 ≡ tcp_shutdown ∷ []) × ((handle_error code c).0.state ≡ error))
unfolding handle_error
handle_error_cases no_error c = inl (refl, refl)
handle_error_cases want_read c = inl (refl, refl)
handle_error_cases want_write c = inl (refl, refl)
handle_error_cases syscall c = inr (refl, refl)
handle_error_cases ssl c = inr (refl, refl)
handle_error_cases unknown c = inr (refl, refl)

handle_error_object :
    {S : Type 0} (code : SslError) (c : SslConnection S)
    → (handle_error code c).0.ssl_object ≡ c.ssl_object
unfolding handle_error
handle_error_object no_error c = refl
handle_error_object want_read c = refl
handle_error_object want_write c = refl
handle_error_object syscall c = refl
handle_error_object ssl c = refl
handle_error_object unknown c = refl

module _ {S : Type 0} (openssl : OpenSsl S) where
  open openssl use {receive, ssl_read, plain, ssl_read_got, ssl_read_none, ssl_read_progress}

  -- The loop from `s` ends with all that can be decrypted.
  pub record Decrypts (fuel : ℕ) (s : S) (text : Text) : Type 0 where
    pub after : S
    pub failed : Bool
    pub runs : read_loop openssl fuel s text ≡ some (after, text ++ plain s, failed)
    pub emptied : plain after ≡ []

  -- Where the loop ends, nothing more can be decrypted.
  end_plain : (s : S) → IsEnd (ssl_read 4096 s).0 → plain s ≡ []
  end_plain s h = elim (text_cases (plain s)) [
    | inl e ↦ e
    | inr more ↦
        let (t, e) = ssl_read_progress 4096 s (omega arith) more in absurd (end_not_got _ h t e)
  ]

  read_got :
      (fuel : ℕ) (s : S) (text t : Text)
      → (ssl_read 4096 s).0 ≡ got t
      → Decrypts fuel (ssl_read 4096 s).1 (text ++ t)
      → Decrypts (suc fuel) s text
  unfolding read_loop read_more
  read_got fuel s text t e d = record {
    after = d.after;
    failed = d.failed;
    runs =
        rw (e, d.runs)
          (ap (λ u. some (d.after, u, d.failed))
            (append_assoc text t _ ∙ ap (λ u. text ++ u) (sym (ssl_read_got 4096 s t e).0)));
    emptied = d.emptied;
  }

  read_end :
      (fuel : ℕ) (s : S) (text : Text) → IsEnd (ssl_read 4096 s).0 → Decrypts (suc fuel) s text
  unfolding read_loop read_more
  read_end fuel s text (inl e) = record {
    after = (ssl_read 4096 s).1;
    failed = false;
    runs =
        rw (e, end_plain s (inl e))
          (ap (λ u. some ((ssl_read 4096 s).1, u, false)) (sym (append-nil text)));
    emptied = ssl_read_none 4096 s (end_not_got _ (inl e)) ∙ end_plain s (inl e);
  }
  read_end fuel s text (inr e) = record {
    after = (ssl_read 4096 s).1;
    failed = true;
    runs =
        rw (e, end_plain s (inr e))
          (ap (λ u. some ((ssl_read 4096 s).1, u, true)) (sym (append-nil text)));
    emptied = ssl_read_none 4096 s (end_not_got _ (inr e)) ∙ end_plain s (inr e);
  }

  pub read_loop-Decrypts :
      (fuel : ℕ) (s : S) (text : Text) → length (plain s) < fuel → Decrypts fuel s text
  read_loop-Decrypts zero s text h = absurd (omega arith)
  read_loop-Decrypts (suc fuel) s text h = elim (result_cases (ssl_read 4096 s).0) [
    | inl (t, e) ↦
        let (split, some_t) = ssl_read_got 4096 s t e in
        read_got fuel s text t e (
          read_loop-Decrypts fuel _ _ (
            omega (
              arith,
              ap length split,
              length-append t (plain (ssl_read 4096 s).1),
              length_pos t some_t,
            )))
    | inr e ↦ read_end fuel s text e
  ]

  -- What `onRead` does on an established connection, when `text` can be decrypted then.
  pub record Answers (c' : SslConnection S) (text : Text) (es : List Event) : Type 0 where
    pub handed : text ≢ [] → (es ≡ message text ∷ []) × (c'.state ≡ established)
    pub quiet :
        text ≡ []
        → ((es ≡ []) × (c'.state ≡ established)) ⊎ ((es ≡ tcp_shutdown ∷ []) × (c'.state ≡ error))
    pub emptied : plain c'.ssl_object ≡ []

  hand_over_lem :
      (c : SslConnection S) (text : Text) (failed : Bool)
      → c.state ≡ established
      → c.message_callback ≡ true
      → plain c.ssl_object ≡ []
      → Answers (hand_over openssl c text failed).0 text (hand_over openssl c text failed).1
  unfolding hand_over handle_error
  hand_over_lem c [] failed est set z = elim (Bool-cases (failed && not_want_read code)) [
    | inl e ↦ rw e (record {
      handed = λ h. absurd (h refl);
      quiet = λ _. rw (← est) (handle_error_cases code c);
      emptied = rw (handle_error_object code c) z;
    })
    | inr e ↦
        rw e (record { handed = λ h. absurd (h refl); quiet = λ _. inl (refl, est); emptied = z })
  ]
    where
      code : SslError
      code = get_last_error (openssl.get_error c.ssl_object)
  hand_over_lem c (b ∷ text) failed est set z = record {
    handed = λ h. (rw set refl, est);
    quiet = λ e. cc;
    emptied = z;
  }

  -- On an established connection with a callback, `onRead` ends; all that can be decrypted after the bytes
  -- have come in goes to the callback, in one call and in order, and the connection stays
  -- established; if nothing can be decrypted, there is no call, and an error other than WANT_READ
  -- shuts the connection down.
  pub on_read-plain :
      (c : SslConnection S) (bytes : Text)
      → c.state ≡ established
      → c.message_callback ≡ true
      → (c' : SslConnection S) × (es : List Event) × (on_read openssl c bytes ≡ some (c', es))
        × Answers c' (plain (receive bytes c.ssl_object)) es
  unfolding on_read read_by on_data
  on_read-plain c bytes est set =
      let d : Decrypts _ _ [] =
        read_loop-Decrypts (length (plain (receive bytes c.ssl_object)) + 1)
          (receive bytes c.ssl_object) [] (omega arith) in
      let after : SslConnection S = record c { ssl_object = d.after } in
      (
        _,
        _,
        ap (λ st. read_by openssl st c bytes) est ∙ rw (d.runs, on_data) refl,
        hand_over_lem after (plain (receive bytes c.ssl_object)) d.failed est set d.emptied,
      )
