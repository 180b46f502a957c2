-- ===== src/Ssl/Follows.antt =====
-- How one call of `onRead` or of `send` ends, by the state of the connection.
use cyclone_httpserver.Common.{
  ◌≡◌, ◌≢◌, ◌⊎◌, inl, inr, refl, ◌∙◌, Bool, Option, some, List, [], ◌∷◌, ◌++◌, All, All-append,
  arith, Bool-cases, ◌&&◌, length, ◌+◌,
}
use cyclone_httpserver.Common.Bytes.{Text}
use cyclone_httpserver.Ssl.{
  OpenSsl, SslConnection, SslState, handshake, established, shutdown, error, SslError, Event,
  tcp_send, tcp_shutdown, message, ErrorCode, handle_error, get_last_error, and_send_pending,
  then_do, handshake_waits, handle_handshake, on_data, read_by, encrypt, send_by, hand_over,
  not_want_read,
}
use cyclone_httpserver.Ssl.Pending.{IsPiece, send_pending_data-outgoing}
use cyclone_httpserver.Ssl.Read.{Decrypts, read_loop-Decrypts, handle_error_cases}

-- No call of the message callback.
abbrev pub IsSilent : Event → Type 0
IsSilent (message t) = ⊥
IsSilent _ = Unit

module _ {S : Type 0} (openssl : OpenSsl S) where
  -- How a call from a state ends, always: with no call of the message callback unless the state is
  -- ESTABLISHED, and never back in a state before it.
  pub record Follows (from : SslState) (r : Option (SslConnection S × List Event)) : Type 0 where
    pub next : SslConnection S
    pub events : List Event
    pub returns : r ≡ some (next, events)
    pub silent : from ≢ established → All IsSilent events
    pub forward : from ≢ handshake → next.state ≢ handshake
    pub final : from ≡ error → (next.state ≡ error) × (events ≡ [])

  IsPiece-IsSilent : (es : List Event) → All IsPiece es → All IsSilent es
  IsPiece-IsSilent [] h = tt
  IsPiece-IsSilent (tcp_send t ∷ es) h = (tt, IsPiece-IsSilent es h.1)
  IsPiece-IsSilent (tcp_shutdown ∷ es) h = absurd h.0
  IsPiece-IsSilent (message t ∷ es) h = absurd h.0

  -- What `sendPendingData` adds, after what was sent already.
  record Sends (c : SslConnection S) (sent_before : List Event) : Type 0 where
    next : SslConnection S
    events : List Event
    returns : and_send_pending openssl c sent_before ≡ some (next, events)
    same : next.state ≡ c.state
    silent : All IsSilent sent_before → All IsSilent events

  sends : (c : SslConnection S) (sent_before : List Event) → Sends c sent_before
  unfolding and_send_pending
  sends c sent_before =
      let (s', es, e, whole, emptied, pieces) = send_pending_data-outgoing openssl c.ssl_object in
      record {
        next = record c { ssl_object = s' };
        events = sent_before ++ es;
        returns = rw (e, and_send_pending) refl;
        same = refl;
        silent = λ h. All-append IsSilent sent_before es h (IsPiece-IsSilent es pieces);
      }

  handshake_waits_cases :
      (c : SslConnection S) (code : ErrorCode)
      → (handshake_waits openssl code c
          ≡ then_do openssl (and_send_pending openssl c []) (and_send_pending openssl))
        ⊎ (handshake_waits openssl code c ≡ and_send_pending openssl c (tcp_shutdown ∷ []))
  unfolding handshake_waits
  handshake_waits_cases c ErrorCode.ssl_error_want_read = inl refl
  handshake_waits_cases c ErrorCode.ssl_error_want_write = inl refl
  handshake_waits_cases c ErrorCode.ssl_error_none = inr refl
  handshake_waits_cases c ErrorCode.ssl_error_syscall = inr refl
  handshake_waits_cases c ErrorCode.ssl_error_ssl = inr refl
  handshake_waits_cases c (ErrorCode.other_code n) = inr refl

  -- A wait for more of the handshake sends what is pending, and may ask for a shutdown.
  handshake_waits-Follows :
      (code : ErrorCode) (c : SslConnection S)
      → c.state ≡ handshake
      → Follows handshake (handshake_waits openssl code c)
  handshake_waits-Follows code c h = elim (handshake_waits_cases c code) [
    | inl twice ↦
        let a : Sends c [] = sends c [] in
        let b : Sends a.next a.events = sends a.next a.events in
        record {
          next = b.next;
          events = b.events;
          returns = twice ∙ rw (a.returns, then_do) b.returns;
          silent = λ _. b.silent (a.silent tt);
          forward = λ n. absurd (n refl);
          final = λ e. cc;
        }
    | inr once ↦
        let a : Sends c (tcp_shutdown ∷ []) = sends c (tcp_shutdown ∷ []) in
        record {
          next = a.next;
          events = a.events;
          returns = once ∙ a.returns;
          silent = λ _. a.silent (tt, tt);
          forward = λ n. absurd (n refl);
          final = λ e. cc;
        }
  ]

  handle_handshake-Follows :
      (c : SslConnection S) → c.state ≡ handshake → Follows handshake (handle_handshake openssl c)
  unfolding handle_handshake
  handle_handshake-Follows c h = elim (Bool-cases (openssl.do_handshake c.ssl_object).0) [
    | inl e ↦ rw e (record {
      next = _;
      events = [];
      returns = refl;
      silent = λ _. tt;
      forward = λ n. absurd (n refl);
      final = λ e. cc;
    })
    | inr e ↦ rw e (handshake_waits-Follows _ _ h)
  ]

  handle_error-Follows :
      (code : SslError) (c : SslConnection S)
      → c.state ≡ established
      → Follows established (some (handle_error code c))
  handle_error-Follows code c h = record {
    next = (handle_error code c).0;
    events = (handle_error code c).1;
    returns = refl;
    silent = λ n. absurd (n refl);
    forward = λ _. elim (handle_error_cases code c) [ inl e ↦ λ k. cc | inr e ↦ λ k. cc ];
    final = λ e. cc;
  }

  hand_over-Follows :
      (c : SslConnection S) (text : Text) (failed : Bool)
      → c.state ≡ established
      → Follows established (some (hand_over openssl c text failed))
  unfolding hand_over
  hand_over-Follows c [] failed h =
      elim (Bool-cases
        (failed && not_want_read (get_last_error (openssl.get_error c.ssl_object)))) [
          | inl e ↦ rw e (handle_error-Follows _ c h)
          | inr e ↦ rw e (record {
            next = c;
            events = [];
            returns = refl;
            silent = λ n. absurd (n refl);
            forward = λ _ k. cc;
            final = λ k. cc;
          })
        ]
  hand_over-Follows c (b ∷ text) failed h = record {
    next = c;
    events = _;
    returns = refl;
    silent = λ n. absurd (n refl);
    forward = λ _ k. cc;
    final = λ k. cc;
  }

  on_data-Follows :
      (c : SslConnection S) (bytes : Text)
      → c.state ≡ established
      → Follows established (on_data openssl c bytes)
  unfolding on_data
  on_data-Follows c bytes h =
      let d : Decrypts openssl _ _ [] =
        read_loop-Decrypts openssl (length (openssl.plain (openssl.receive bytes c.ssl_object)) + 1)
          (openssl.receive bytes c.ssl_object) [] (omega arith) in
      rw (d.runs, on_data) (hand_over-Follows (record c { ssl_object = d.after }) _ d.failed h)

  encrypt-Follows :
      (c : SslConnection S) (bytes : Text)
      → c.state ≡ established
      → Follows established (encrypt openssl c bytes)
  unfolding encrypt
  encrypt-Follows c bytes h = elim (Bool-cases (openssl.ssl_write bytes c.ssl_object).0) [
    | inl e ↦
        let a : Sends (record c { ssl_object = (openssl.ssl_write bytes c.ssl_object).1 }) [] =
          sends _ [] in
        rw e (record {
          next = a.next;
          events = a.events;
          returns = a.returns;
          silent = λ n. absurd (n refl);
          forward = λ _ k. let same : a.next.state ≡ c.state = a.same in cc;
          final = λ k. cc;
        })
    | inr e ↦ rw e (handle_error-Follows _ _ h)
  ]

  pub read_by-Follows :
      (st : SslState) (c : SslConnection S) (bytes : Text)
      → c.state ≡ st
      → Follows st (read_by openssl st c bytes)
  unfolding read_by
  read_by-Follows handshake c bytes h = handle_handshake-Follows _ h
  read_by-Follows established c bytes h = on_data-Follows c bytes h
  read_by-Follows shutdown c bytes h = record {
    next = c;
    events = [];
    returns = refl;
    silent = λ _. tt;
    forward = λ n. rw h n;
    final = λ e. cc;
  }
  read_by-Follows error c bytes h = record {
    next = c;
    events = [];
    returns = refl;
    silent = λ _. tt;
    forward = λ n. rw h n;
    final = λ e. (h, refl);
  }

  pub send_by-Follows :
      (st : SslState) (c : SslConnection S) (bytes : Text)
      → c.state ≡ st
      → Follows st (send_by openssl st c bytes)
  unfolding send_by
  send_by-Follows handshake c bytes h = record {
    next = c;
    events = [];
    returns = refl;
    silent = λ _. tt;
    forward = λ n. absurd (n refl);
    final = λ e. cc;
  }
  send_by-Follows established c bytes h = encrypt-Follows c bytes h
  send_by-Follows shutdown c bytes h = record {
    next = c;
    events = [];
    returns = refl;
    silent = λ _. tt;
    forward = λ n. rw h n;
    final = λ e. cc;
  }
  send_by-Follows error c bytes h = record {
    next = c;
    events = [];
    returns = refl;
    silent = λ _. tt;
    forward = λ n. rw h n;
    final = λ e. (h, refl);
  }
