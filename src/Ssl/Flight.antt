-- ===== src/Ssl/Flight.antt =====
-- What an established connection sends when only its peer speaks.
use cyclone_httpserver.Common.{
  ◌≡◌, ◌≢◌, inl, inr, refl, ap, ◌∙◌, Bool, true, Option, some, List, [], ◌∷◌, ◌++◌, All, All-append,
  arith, Bool-cases, map, ◌&&◌, length, ◌+◌,
}
use cyclone_httpserver.Common.Bytes.{Text}
use cyclone_httpserver.Ssl.{
  OpenSsl, SslConnection, SslState, handshake, established, shutdown, error, SslError, Event,
  tcp_send, handle_error, get_last_error, handle_handshake, on_data, read_by, on_read, hand_over,
  not_want_read,
}
use cyclone_httpserver.Ssl.Read.{Decrypts, read_loop-Decrypts, handle_error_cases}
use cyclone_httpserver.Ssl.Run.{received, step, run, run_cons}

-- Nothing goes out.
abbrev pub IsUnsent : Event → Type 0
IsUnsent (tcp_send t) = ⊥
IsUnsent _ = Unit

module _ {S : Type 0} (openssl : OpenSsl S) where
  -- What arrives after the handshake makes nothing go out.
  record Holds (r : Option (SslConnection S × List Event)) : Type 0 where
    next : SslConnection S
    events : List Event
    returns : r ≡ some (next, events)
    unsent : All IsUnsent events
    past : next.state ≢ handshake

  handle_error_unsent :
      (code : SslError) (c : SslConnection S)
      → c.state ≢ handshake
      → Holds (some (handle_error code c))
  handle_error_unsent code c h = record {
    next = (handle_error code c).0;
    events = (handle_error code c).1;
    returns = refl;
    unsent = elim (handle_error_cases code c) [ inl e ↦ rw e.0 tt | inr e ↦ rw e.0 (tt, tt) ];
    past = elim (handle_error_cases code c) [ inl e ↦ rw e.1 h | inr e ↦ λ k. cc ];
  }

  hand_over_unsent :
      (c : SslConnection S) (text : Text) (failed : Bool)
      → c.state ≢ handshake
      → Holds (some (hand_over openssl c text failed))
  unfolding hand_over
  hand_over_unsent c [] failed h =
      elim (Bool-cases
        (failed && not_want_read (get_last_error (openssl.get_error c.ssl_object)))) [
          | inl e ↦ rw e (handle_error_unsent _ c h)
          | inr e ↦ rw e (record { next = c; events = []; returns = refl; unsent = tt; past = h })
        ]
  hand_over_unsent c (b ∷ text) failed h = record {
    next = c;
    events = _;
    returns = refl;
    past = h;
    unsent = elim (Bool-cases c.message_callback) [ inl e ↦ rw e (tt, tt) | inr e ↦ rw e tt ];
  }

  read_by_unsent :
      (st : SslState) (c : SslConnection S) (bytes : Text)
      → st ≢ handshake
      → c.state ≢ handshake
      → Holds (read_by openssl st c bytes)
  unfolding read_by on_data
  read_by_unsent handshake c bytes n h = absurd (n refl)
  read_by_unsent established c bytes n h =
      let d : Decrypts openssl _ _ [] =
        read_loop-Decrypts openssl (length (openssl.plain (openssl.receive bytes c.ssl_object)) + 1)
          (openssl.receive bytes c.ssl_object) [] (omega arith) in
      rw (d.runs, on_data) (hand_over_unsent (record c { ssl_object = d.after }) _ d.failed h)
  read_by_unsent shutdown c bytes n h = record {
    next = c;
    events = [];
    returns = refl;
    unsent = tt;
    past = h;
  }
  read_by_unsent error c bytes n h = record {
    next = c;
    events = [];
    returns = refl;
    unsent = tt;
    past = h;
  }

  step_unsent :
      (c : SslConnection S) (bytes : Text)
      → c.state ≢ handshake
      → Holds (step openssl c (received bytes))
  unfolding step on_read
  step_unsent c bytes h = read_by_unsent c.state c bytes h h

  received_unsent :
      (texts : List Text) (c : SslConnection S)
      → c.state ≢ handshake
      → Holds (run openssl (map received texts) c)
  unfolding run
  received_unsent [] c h = record { next = c; events = []; returns = refl; unsent = tt; past = h }
  received_unsent (t ∷ ts) c h =
      let a : Holds (step openssl c (received t)) = step_unsent c t h in
      let b : Holds (run openssl (map received ts) a.next) = received_unsent ts a.next a.past in
      record {
        next = b.next;
        events = a.events ++ b.events;
        returns = run_cons openssl (received t) (map received ts) c a.returns b.returns;
        unsent = All-append IsUnsent a.events b.events a.unsent b.unsent;
        past = b.past;
      }

  abbrev established_by : Text → SslConnection S → SslConnection S
  established_by first c = record c {
    ssl_object = (openssl.do_handshake (openssl.receive first c.ssl_object)).1;
    state = established;
  }

  step-established :
      (first : Text) (c : SslConnection S)
      → c.state ≡ handshake
      → (openssl.do_handshake (openssl.receive first c.ssl_object)).0 ≡ true
      → step openssl c (received first) ≡ some (established_by first c, [])
  unfolding step on_read read_by handle_handshake
  step-established first c h done =
      ap (λ st. read_by openssl st c first) h ∙ rw (done, handle_handshake) refl

  -- The bytes that end the handshake, and whatever the peer sends after them, make the connection send nothing
  -- as long as `send` is not called, whatever the end of the handshake has left outgoing.
  pub run-IsUnsent :
      (first : Text) (texts : List Text) (c : SslConnection S)
      → c.state ≡ handshake
      → (openssl.do_handshake (openssl.receive first c.ssl_object)).0 ≡ true
      → (c' : SslConnection S) × (es : List Event) × (run openssl
            (received first ∷ map received texts)
            c
          ≡ some (c', es))
        × All IsUnsent es
  run-IsUnsent first texts c h done =
      let b : Holds (run openssl (map received texts) (established_by first c)) =
        received_unsent texts (established_by first c) (λ k. cc) in
      (
        b.next,
        b.events,
        run_cons openssl (received first) (map received texts) c (step-established first c h done)
            b.returns,
        b.unsent,
      )
