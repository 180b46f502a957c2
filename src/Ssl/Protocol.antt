-- ===== src/Ssl/Protocol.antt =====
-- Which versions of the protocol the options leave on after the set-up of a context.
use cyclone_httpserver.Common.{
  ℕ, ◌≡◌, refl, ap, ◌∙◌, sym, Bool, true, false, ◌||◌, not, Option, none, some, List, [], ◌∷◌, leb,
  arith, ◌&&◌,
}
use cyclone_httpserver.Common.Bytes.{Text}
use cyclone_httpserver.Ssl.Context.{
  SslVersion, tls_1_0, tls_1_1, tls_1_2, tls_1_3, SslConfig, SslOption, no_sslv2, no_sslv3,
  no_compression, cipher_server_preference, no_tlsv1, no_tlsv1_1, no_tlsv1_2, contains, ContextApi,
  on_success, unless_empty, protocol_options, load_chain, verify_key, load_key, after_certificates,
  load_certificates, setup_protocol, setup_sessions, configure, configure_fresh, initialize,
}

abbrev pub rank : SslVersion → ℕ
rank tls_1_0 = 0
rank tls_1_1 = 1
rank tls_1_2 = 2
rank tls_1_3 = 3

-- Whether a version is left on by the options that a context has.
abbrev pub left_on : (SslOption → Bool) → SslVersion → Bool
left_on has tls_1_0 = not (has no_tlsv1)
left_on has tls_1_1 = not (has no_tlsv1_1)
left_on has tls_1_2 = not (has no_tlsv1_2)
left_on has tls_1_3 = true

abbrev base : List SslOption
base = no_sslv2 ∷ no_sslv3 ∷ no_compression ∷ cipher_server_preference ∷ []

-- The options of a configured version, over the ones that are always set and those of a new context.
left_on_options :
    (w v : SslVersion) (has has0 : SslOption → Bool)
    → ((o : SslOption) → has o ≡ (contains (protocol_options w) o || (contains base o || has0 o)))
    → left_on has v ≡ (leb (rank w) (rank v) && left_on has0 v)
unfolding protocol_options
left_on_options tls_1_0 tls_1_0 has has0 h = ap not (h no_tlsv1)
left_on_options tls_1_0 tls_1_1 has has0 h = ap not (h no_tlsv1_1)
left_on_options tls_1_0 tls_1_2 has has0 h = ap not (h no_tlsv1_2)
left_on_options tls_1_0 tls_1_3 has has0 h = refl
left_on_options tls_1_1 tls_1_0 has has0 h = ap not (h no_tlsv1)
left_on_options tls_1_1 tls_1_1 has has0 h = ap not (h no_tlsv1_1)
left_on_options tls_1_1 tls_1_2 has has0 h = ap not (h no_tlsv1_2)
left_on_options tls_1_1 tls_1_3 has has0 h = refl
left_on_options tls_1_2 tls_1_0 has has0 h = ap not (h no_tlsv1)
left_on_options tls_1_2 tls_1_1 has has0 h = ap not (h no_tlsv1_1)
left_on_options tls_1_2 tls_1_2 has has0 h = ap not (h no_tlsv1_2)
left_on_options tls_1_2 tls_1_3 has has0 h = refl
left_on_options tls_1_3 tls_1_0 has has0 h = ap not (h no_tlsv1)
left_on_options tls_1_3 tls_1_1 has has0 h = ap not (h no_tlsv1_1)
left_on_options tls_1_3 tls_1_2 has has0 h = ap not (h no_tlsv1_2)
left_on_options tls_1_3 tls_1_3 has has0 h = refl

module _ {C : Type 0} (api : ContextApi C) (config : SslConfig) where
  open api use {
    fresh, use_certificate_file, use_private_key_file, check_private_key,
    use_certificate_chain_file, set_cipher_list, set_session_cache_mode, set_cache_size,
    set_timeout, set_options, has, has-set_options, has-certificate, has-private_key, has-check,
    has-chain, has-cipher_list, has-mode, has-cache_size, has-timeout,
  }

  abbrev Keeps : C → Bool × C → Type 0
  Keeps c r = (o : SslOption) → has r.1 o ≡ has c o

  on_success-Keeps :
      (c : C) (r : Bool × C) (f : C → Bool × C)
      → Keeps c r
      → ((c' : C) → Keeps c' (f c'))
      → Keeps c (on_success r f)
  on_success-Keeps c (true, c') f h k o = k c' o ∙ h o
  on_success-Keeps c (false, c') f h k o = h o

  unless_empty-Keeps :
      (t : Text) (f : C → Bool × C) (c : C) → Keeps c (f c) → Keeps c (unless_empty t f c)
  unless_empty-Keeps [] f c h o = refl
  unless_empty-Keeps (b ∷ t) f c h o = h o

  on_success-true :
      (r : Bool × C) (f : C → Bool × C) → (on_success r f).0 ≡ true → on_success r f ≡ f r.1
  on_success-true (true, c) f h = refl
  on_success-true (false, c) f h = cc

  load_chain-Keeps : (c : C) → Keeps c (load_chain api config c)
  unfolding load_chain
  load_chain-Keeps c =
      unless_empty-Keeps config.chain_file (use_certificate_chain_file config.chain_file) c
        (has-chain config.chain_file c)

  verify_key-Keeps : (c : C) → Keeps c (verify_key api config c)
  unfolding verify_key
  verify_key-Keeps c =
      on_success-Keeps c (check_private_key c) (load_chain api config) (has-check c)
        load_chain-Keeps

  load_key-Keeps : (c : C) → Keeps c (load_key api config c)
  unfolding load_key
  load_key-Keeps c =
      on_success-Keeps c (use_private_key_file config.key_file c) (verify_key api config)
        (has-private_key config.key_file c) verify_key-Keeps

  load_certificates-Keeps : (c : C) → Keeps c (load_certificates api config c)
  unfolding load_certificates
  load_certificates-Keeps c =
      on_success-Keeps c (use_certificate_file config.cert_file c) (load_key api config)
        (has-certificate config.cert_file c) load_key-Keeps

  setup_sessions-Keeps : (c : C) → Keeps c (setup_sessions api config c)
  unfolding setup_sessions
  setup_sessions-Keeps c o =
      has-timeout config.session_timeout
        (set_cache_size config.session_cache_size (set_session_cache_mode c)) o
      ∙ has-cache_size config.session_cache_size (set_session_cache_mode c) o
      ∙ has-mode c o

  setup_protocol_has :
      (c : C) (o : SslOption)
      → has (setup_protocol api config c).1 o
        ≡ (contains (protocol_options config.version) o || has c o)
  unfolding setup_protocol
  setup_protocol_has c o =
      unless_empty-Keeps config.cipher_list (set_cipher_list config.cipher_list)
        (set_options (protocol_options config.version) c)
        (has-cipher_list config.cipher_list (set_options (protocol_options config.version) c)) o
      ∙ has-set_options _ c o

  configure_has :
      (c : C)
      → (configure api config c).0 ≡ true
      → (o : SslOption)
      → has (configure api config c).1 o
        ≡ (contains (protocol_options config.version) o || (contains base o || has c o))
  unfolding configure after_certificates
  configure_has c h o =
      let loaded : Bool × C = load_certificates api config (set_options base c) in
      let e1 : configure api config c ≡ after_certificates api config loaded.1 =
        on_success-true loaded (after_certificates api config) h in
      let e2 : after_certificates api config loaded.1
          ≡ setup_sessions api config (setup_protocol api config loaded.1).1 =
        on_success-true (setup_protocol api config loaded.1) (setup_sessions api config)
          (ap (λ r. r.0) (sym e1) ∙ h) in
      ap (λ r. has r.1 o) (e1 ∙ e2)
      ∙ setup_sessions-Keeps (setup_protocol api config loaded.1).1 o
      ∙ setup_protocol_has loaded.1 o
      ∙ ap (λ b. contains (protocol_options config.version) o || b)
          (load_certificates-Keeps (set_options base c) o ∙ has-set_options base c o)

  -- Where a success comes from.
  configure_fresh-some :
      (made : Option C) (c : C)
      → configure_fresh api config made ≡ (true, some c)
      → (c0 : C) × (made ≡ some c0) × (configure api config c0 ≡ (true, c))
  unfolding configure_fresh
  configure_fresh-some none c h = cc
  configure_fresh-some (some c0) c h = (c0, refl, ground arith)

  -- If the set-up of a context succeeds, then `SSL_CTX_new` has given a context, and by its options the context
  -- that is set up leaves a version of the protocol on exactly if the version is the configured one
  -- or a later one and the new context left it on, whatever certificates, ciphers and session
  -- parameters are configured. TLS 1.3 has no option here and is always left on.
  pub initialize-left_on :
      (c : C)
      → initialize api config ≡ (true, some c)
      → (c0 : C) × (fresh ≡ some c0)
        × ((v : SslVersion)
            → left_on (has c) v ≡ (leb (rank config.version) (rank v) && left_on (has c0) v))
  unfolding initialize
  initialize-left_on c h =
      let (c0, made, e) = configure_fresh-some fresh c h in
      (
        c0,
        made,
        λ v.
            left_on_options config.version v (has c) (has c0)
              λ o. ap (λ r. has r.1 o) (sym e) ∙ configure_has c0 (ap (λ r. r.0) e) o,
      )
