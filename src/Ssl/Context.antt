-- ===== src/Ssl/Context.antt =====
-- HttpServer/include/SslConfig.hpp, HttpServer/src/SslConfig.cpp, HttpServer/include/SslContext.hpp and
-- HttpServer/src/SslContext.cpp: the set-up of the `SSL_CTX` from a configuration.
use cyclone_httpserver.Common.{
  ℕ, ◌≡◌, Bool, true, false, ◌||◌, Option, none, some, List, [], ◌∷◌, ◌==◌,
}
use cyclone_httpserver.Common.Bytes.{Text, codes}

pub data SslVersion : Type 0 where
  tls_1_0 tls_1_1 tls_1_2 tls_1_3 : SslVersion

pub record SslConfig : Type 0 where
  pub cert_file : Text
  pub key_file : Text
  pub chain_file : Text
  pub version : SslVersion
  pub cipher_list : Text
  pub verify_client : Bool
  pub verify_depth : ℕ
  pub session_timeout : ℕ
  pub session_cache_size : ℕ

-- The constructor of `SslConfig`.
abbrev pub default_config : SslConfig
default_config = record {
  cert_file = [];
  key_file = [];
  chain_file = [];
  version = tls_1_3;
  cipher_list = codes "ECDHE+AESGCM:ECDHE+CHACHA20:DHE+AESGCM:DHE+CHACHA20:!aNULL:!MD5:!DSS";
  verify_client = false;
  verify_depth = 1;
  session_timeout = 300;
  session_cache_size = 10240;
}

-- The options of `SSL_CTX_set_options` that the code names.
pub data SslOption : Type 0 where
  no_sslv2 no_sslv3 no_compression cipher_server_preference no_tlsv1 no_tlsv1_1 no_tlsv1_2 :
      SslOption

abbrev pub option_number : SslOption → ℕ
option_number no_sslv2 = 0
option_number no_sslv3 = 1
option_number no_compression = 2
option_number cipher_server_preference = 3
option_number no_tlsv1 = 4
option_number no_tlsv1_1 = 5
option_number no_tlsv1_2 = 6

abbrev pub contains : List SslOption → SslOption → Bool
contains [] o = false
contains (p ∷ ps) o = option_number p == option_number o || contains ps o

-- The calls of OpenSSL on a context, with what is documented of its options: the ones that are set are
-- added to those that are there, and no other call here changes them. A call that can fail
-- tells whether it succeeded.
pub record ContextApi (C : Type 0) : Type 0 where
  -- `SSL_CTX_new(TLS_server_method())`.
  pub fresh : Option C
  pub set_options : List SslOption → C → C
  pub use_certificate_file : Text → C → Bool × C
  pub use_private_key_file : Text → C → Bool × C
  pub check_private_key : C → Bool × C
  pub use_certificate_chain_file : Text → C → Bool × C
  pub set_cipher_list : Text → C → Bool × C
  pub set_session_cache_mode : C → C
  pub set_cache_size : ℕ → C → C
  pub set_timeout : ℕ → C → C
  pub has : C → SslOption → Bool
  pub has-set_options :
      (os : List SslOption) (c : C) (o : SslOption)
      → has (set_options os c) o ≡ (contains os o || has c o)
  pub has-certificate :
      (t : Text) (c : C) (o : SslOption) → has (use_certificate_file t c).1 o ≡ has c o
  pub has-private_key :
      (t : Text) (c : C) (o : SslOption) → has (use_private_key_file t c).1 o ≡ has c o
  pub has-check : (c : C) (o : SslOption) → has (check_private_key c).1 o ≡ has c o
  pub has-chain :
      (t : Text) (c : C) (o : SslOption) → has (use_certificate_chain_file t c).1 o ≡ has c o
  pub has-cipher_list : (t : Text) (c : C) (o : SslOption) → has (set_cipher_list t c).1 o ≡ has c o
  pub has-mode : (c : C) (o : SslOption) → has (set_session_cache_mode c) o ≡ has c o
  pub has-cache_size : (n : ℕ) (c : C) (o : SslOption) → has (set_cache_size n c) o ≡ has c o
  pub has-timeout : (n : ℕ) (c : C) (o : SslOption) → has (set_timeout n c) o ≡ has c o

-- A call that can fail, and what follows it in the function.
abbrev pub on_success : {C : Type 0} → Bool × C → (C → Bool × C) → Bool × C
on_success (true, c) f = f c
on_success (false, c) f = (false, c)

-- A call that is made only for a text that is not empty.
abbrev pub unless_empty : {C : Type 0} → Text → (C → Bool × C) → C → Bool × C
unless_empty [] f c = (true, c)
unless_empty (b ∷ t) f c = f c

-- The protocol versions that `setupProtocol` turns off.
unfoldable pub protocol_options : SslVersion → List SslOption
protocol_options tls_1_0 = no_sslv2 ∷ no_sslv3 ∷ []
protocol_options tls_1_1 = no_sslv2 ∷ no_sslv3 ∷ no_tlsv1 ∷ []
protocol_options tls_1_2 = no_sslv2 ∷ no_sslv3 ∷ no_tlsv1 ∷ no_tlsv1_1 ∷ []
protocol_options tls_1_3 = no_sslv2 ∷ no_sslv3 ∷ no_tlsv1 ∷ no_tlsv1_1 ∷ no_tlsv1_2 ∷ []

module _ {C : Type 0} (api : ContextApi C) (config : SslConfig) where
  open api use {
    fresh, set_options, use_certificate_file, use_private_key_file, check_private_key,
    use_certificate_chain_file, set_cipher_list, set_session_cache_mode, set_cache_size,
    set_timeout,
  }

  -- The parts of `loadCertificates`, from the last one.
  unfoldable pub load_chain : C → Bool × C
  load_chain c = unless_empty config.chain_file (use_certificate_chain_file config.chain_file) c

  unfoldable pub verify_key : C → Bool × C
  verify_key c = on_success (check_private_key c) load_chain

  unfoldable pub load_key : C → Bool × C
  load_key c = on_success (use_private_key_file config.key_file c) verify_key

  unfoldable pub load_certificates : C → Bool × C
  load_certificates c = on_success (use_certificate_file config.cert_file c) load_key

  unfoldable pub setup_protocol : C → Bool × C
  setup_protocol c =
      unless_empty config.cipher_list (set_cipher_list config.cipher_list)
        (set_options (protocol_options config.version) c)

  -- The end of `initialize`.
  unfoldable pub setup_sessions : C → Bool × C
  setup_sessions c = (
    true,
    set_timeout config.session_timeout
        (set_cache_size config.session_cache_size (set_session_cache_mode c)),
  )

  -- The part of `initialize` behind `loadCertificates`.
  unfoldable pub after_certificates : C → Bool × C
  after_certificates c = on_success (setup_protocol c) setup_sessions

  unfoldable pub configure : C → Bool × C
  configure c =
      on_success
        (load_certificates
          (set_options (no_sslv2 ∷ no_sslv3 ∷ no_compression ∷ cipher_server_preference ∷ []) c))
        after_certificates

  unfoldable pub configure_fresh : Option C → Bool × Option C
  configure_fresh none = (false, none)
  configure_fresh (some c) = let (done, c') = configure c in (done, some c')

  -- `initialize`: whether it succeeds, and the context if there is one.
  unfoldable pub initialize : Bool × Option C
  initialize = configure_fresh fresh
