-- ===== src/Ssl/Tests.antt =====
-- A transparent cipher: the plain text is what arrived, and what is written goes out as it is.
use cyclone_httpserver.Common.{
  ℕ, suc, zero, ◌≡◌, ◌≢◌, ◌<◌, refl, sym, ap, ◌∙◌, Bool, true, false, Option, some, List, [], ◌∷◌,
  ◌++◌, length, take, drop, take-append-drop, arith, All, leb, ◌||◌, ◌&&◌,
}
use cyclone_httpserver.Common.Bytes.{Text, codes}
use cyclone_httpserver.Ssl.{
  OpenSsl, SslConnection, handshake, error, Event, ReadResult, got, negative, ssl_error_want_read,
  send_pending_data, SslState,
}
use cyclone_httpserver.Ssl.Pending.{sent, IsPiece, send_pending_data-outgoing}
use cyclone_httpserver.Ssl.Follows.{IsSilent}
use cyclone_httpserver.Ssl.Run.{received, to_send, run, run-IsSilent}
use cyclone_httpserver.Ssl.Flight.{IsUnsent, run-IsUnsent}
use cyclone_httpserver.Ssl.Context.{
  ContextApi, SslOption, contains, SslConfig, default_config, initialize, configure,
  configure_fresh, load_certificates, load_key, verify_key, load_chain, after_certificates,
  setup_protocol, setup_sessions, protocol_options, SslVersion, tls_1_2,
}
use cyclone_httpserver.Ssl.Protocol.{left_on, initialize-left_on, rank}

abbrev pub Pipe : Type 0
Pipe = Text × Text

abbrev as_result : Text → ReadResult
as_result [] = negative
as_result (b ∷ t) = got (b ∷ t)

as_result_got : (s t : Text) → as_result s ≡ got t → (s ≡ t) × (t ≢ [])
as_result_got [] t h = cc
as_result_got (b ∷ s) t h = (cc, λ e. cc)

as_result_none : (s : Text) → ((t : Text) → as_result s ≢ got t) → s ≡ []
as_result_none [] h = refl
as_result_none (b ∷ s) h = absurd (h (b ∷ s) refl)

pub take_some : (n : ℕ) (p : Text) → 0 < n → p ≢ [] → (t : Text) × (as_result (take n p) ≡ got t)
take_some zero p pos h = absurd (omega arith)
take_some (suc n) [] pos h = absurd (h refl)
take_some (suc n) (b ∷ p) pos h = (b ∷ take n p, refl)

abbrev is_nonempty : Text → Bool
is_nonempty [] = false
is_nonempty (b ∷ t) = true

pub read_got :
    (n : ℕ) (s : Pipe) (t : Text)
    → as_result (take n s.0) ≡ got t
    → (s.0 ≡ t ++ drop n s.0) × (t ≢ [])
read_got n s t h =
    let (e, some_t) = as_result_got (take n s.0) t h in
    (sym (take-append-drop n s.0) ∙ ap (λ u. u ++ drop n s.0) e, some_t)

pub read_none :
    (n : ℕ) (s : Pipe) → ((t : Text) → as_result (take n s.0) ≢ got t) → drop n s.0 ≡ s.0
read_none n s h =
    ap (λ u. u ++ drop n s.0) (sym (as_result_none (take n s.0) h)) ∙ take-append-drop n s.0

-- The handshake ends with the first bytes that arrive, and leaves some of its own.
abbrev pub transparent : OpenSsl Pipe
transparent = record {
  receive = λ t s. (s.0 ++ t, s.1);
  pending = λ s. length s.1;
  bio_read = λ n s. (take n s.1, (s.0, drop n s.1));
  set_accept_state = λ s. s;
  do_handshake = λ s. (is_nonempty s.0, ([], s.1 ++ codes "fin"));
  get_error = λ s. ssl_error_want_read;
  ssl_read = λ n s. (as_result (take n s.0), (drop n s.0, s.1));
  ssl_write = λ t s. (true, (s.0, s.1 ++ t));
  outgoing = λ s. s.1;
  plain = λ s. s.0;
  pending-outgoing = λ s. refl;
  bio_read_bytes = λ n s. refl;
  bio_read_rest = λ n s. refl;
  ssl_read_got = read_got;
  ssl_read_none = read_none;
  ssl_read_progress = λ n s pos h. take_some n s.0 pos h;
}

abbrev in_state : SslState → SslConnection Pipe
in_state st = record { ssl_object = ([], []); state = st; message_callback = true }

send_pending_data-outgoing_example :
    (s' : Pipe) × (es : List Event) × (send_pending_data transparent ([], codes "abc")
      ≡ some (s', es))
    × (sent es ≡ codes "abc")
    × (s'.1 ≡ [])
    × All IsPiece es
send_pending_data-outgoing_example = send_pending_data-outgoing transparent ([], codes "abc")

run-IsSilent_example :
    (c' : SslConnection Pipe) × (es : List Event) × (run transparent
        (to_send (codes "early") ∷ received [] ∷ [])
        (in_state handshake)
      ≡ some (c', es))
    × (c'.state ≡ handshake → All IsSilent es)
    × (handshake ≢ handshake → c'.state ≢ handshake)
    × (handshake ≡ error → (c' ≡ in_state handshake) × (es ≡ []))
run-IsSilent_example =
    run-IsSilent transparent (to_send (codes "early") ∷ received [] ∷ []) (in_state handshake)

run-IsUnsent_example :
    (c' : SslConnection Pipe) × (es : List Event) × (run transparent
        (received (codes "hello") ∷ received (codes "GET") ∷ [])
        (in_state handshake)
      ≡ some (c', es))
    × All IsUnsent es
run-IsUnsent_example =
    run-IsUnsent transparent (codes "hello") (codes "GET" ∷ []) (in_state handshake) refl refl

contains-append :
    (os c : List SslOption) (o : SslOption) → contains (os ++ c) o ≡ (contains os o || contains c o)
contains-append [] c o = refl
contains-append (p ∷ os) c o = ground (arith, contains-append os c o)

-- A context that is the list of its options, with one that is there from the start.
abbrev listed : ContextApi (List SslOption)
listed = record {
  fresh = some (SslOption.no_compression ∷ []);
  set_options = λ os c. os ++ c;
  use_certificate_file = λ t c. (true, c);
  use_private_key_file = λ t c. (true, c);
  check_private_key = λ c. (true, c);
  use_certificate_chain_file = λ t c. (true, c);
  set_cipher_list = λ t c. (true, c);
  set_session_cache_mode = λ c. c;
  set_cache_size = λ n c. c;
  set_timeout = λ n c. c;
  has = contains;
  has-set_options = contains-append;
  has-certificate = λ t c o. refl;
  has-private_key = λ t c o. refl;
  has-check = λ c o. refl;
  has-chain = λ t c o. refl;
  has-cipher_list = λ t c o. refl;
  has-mode = λ c o. refl;
  has-cache_size = λ n c o. refl;
  has-timeout = λ n c o. refl;
}

abbrev from_1_2 : SslConfig
from_1_2 = record default_config {
  version = tls_1_2;
  cert_file = codes "a.pem";
  key_file = codes "a.key";
}

abbrev set_up : List SslOption
set_up =
    SslOption.no_sslv2 ∷ SslOption.no_sslv3 ∷ SslOption.no_tlsv1 ∷ SslOption.no_tlsv1_1
    ∷ SslOption.no_sslv2 ∷ SslOption.no_sslv3 ∷ SslOption.no_compression
    ∷ SslOption.cipher_server_preference ∷ SslOption.no_compression ∷ []

initialize_runs : initialize listed from_1_2 ≡ (true, some set_up)
unfolding initialize configure configure_fresh load_certificates load_key verify_key load_chain
    after_certificates setup_protocol setup_sessions protocol_options
initialize_runs = refl

initialize-left_on_example :
    (c0 : List SslOption) × (◌≡◌ {A = Option (List SslOption)}
      (some (SslOption.no_compression ∷ []))
      (some c0))
    × ((v : SslVersion) → left_on (contains set_up) v ≡ (leb 2 (rank v) && left_on (contains c0) v))
initialize-left_on_example = initialize-left_on listed from_1_2 set_up initialize_runs
