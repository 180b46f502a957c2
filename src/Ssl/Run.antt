-- ===== src/Ssl/Run.antt =====
-- A connection over its life: the calls of `onRead` and `send`, in any order.
use cyclone_httpserver.Ssl.Follows.{IsSilent, Follows, read_by-Follows, send_by-Follows}
use cyclone_httpserver.Common.{
  ◌≡◌, ◌≢◌, refl, sym, ◌∙◌, Option, none, some, List, [], ◌∷◌, ◌++◌, All, All-append,
}
use cyclone_httpserver.Common.Bytes.{Text}
use cyclone_httpserver.Ssl.{
  OpenSsl, SslConnection, SslState, handshake, established, shutdown, error, read_by, send_by,
  Event, on_read, send, read_by, send_by, SslState,
}

-- What comes from outside: bytes of the peer, and calls of `send` by the HTTP layer.
pub data Input : Type 0 where
  received : Text → Input
  to_send : Text → Input

module _ {S : Type 0} (openssl : OpenSsl S) where
  unfoldable pub step : SslConnection S → Input → Option (SslConnection S × List Event)
  step c (received bytes) = on_read openssl c bytes
  step c (to_send bytes) = send openssl c bytes

  unfoldable pub run : List Input → SslConnection S → Option (SslConnection S × List Event)
  run [] c = some (c, [])
  run (i ∷ is) c = elim (step c i) [
    | none ↦ none
    | some (c', es) ↦ elim (run is c') [ none ↦ none | some (c'', fs) ↦ some (c'', es ++ fs) ]
  ]

  step-Follows : (c : SslConnection S) (i : Input) → Follows openssl c.state (step c i)
  unfolding step on_read send
  step-Follows c (received bytes) = read_by-Follows openssl c.state c bytes refl
  step-Follows c (to_send bytes) = send_by-Follows openssl c.state c bytes refl

  -- The first step and the rest of a run.
  pub run_cons :
      (i : Input) (is : List Input) (c : SslConnection S) {c' c'' : SslConnection S}
      {es fs : List Event}
      → step c i ≡ some (c', es)
      → run is c' ≡ some (c'', fs)
      → run (i ∷ is) c ≡ some (c'', es ++ fs)
  unfolding run
  run_cons i is c e f = rw (e, f, run) refl

  step-error :
      (state : SslState) (c : SslConnection S) (bytes : Text)
      → state ≡ error
      → (read_by openssl state c bytes ≡ some (c, []))
        × (send_by openssl state c bytes ≡ some (c, []))
  unfolding read_by send_by
  step-error handshake c bytes h = cc
  step-error established c bytes h = cc
  step-error shutdown c bytes h = cc
  step-error error c bytes h = (refl, refl)

  step_error : (i : Input) (c : SslConnection S) → c.state ≡ error → step c i ≡ some (c, [])
  unfolding step on_read send
  step_error (received bytes) c h = (step-error c.state c bytes h).0
  step_error (to_send bytes) c h = (step-error c.state c bytes h).1

  run-error : (is : List Input) (c : SslConnection S) → c.state ≡ error → run is c ≡ some (c, [])
  unfolding run
  run-error [] c h = refl
  run-error (i ∷ is) c h = run_cons i is c (step_error i c h) (run-error is c h)

  -- Every run of `onRead` and `send` on a connection ends. Unless the handshake has ended by then, the
  -- message callback is not called in it; the handshake is not entered again; and on a
  -- connection in state ERROR the run has no event and leaves the connection as it was, the state of
  -- OpenSSL with its BIOs included.
  pub run-IsSilent :
      (is : List Input) (c : SslConnection S)
      → (c' : SslConnection S) × (es : List Event) × (run is c ≡ some (c', es))
        × (c'.state ≡ handshake → All IsSilent es)
        × (c.state ≢ handshake → c'.state ≢ handshake)
        × (c.state ≡ error → (c' ≡ c) × (es ≡ []))
  unfolding run
  run-IsSilent [] c = (c, [], refl, λ h. tt, λ h. h, λ h. (refl, refl))
  run-IsSilent (i ∷ is) c =
      let f : Follows openssl c.state (step c i) = step-Follows c i in
      let (c', es, e, quiet, ahead, stop) = run-IsSilent is f.next in
      (
        c',
        f.events ++ es,
        run_cons i is c f.returns e,
        λ h.
            All-append IsSilent f.events es (f.silent (λ est. ahead (f.forward (λ k. cc)) h))
              (quiet h),
        λ n. ahead (f.forward n),
        λ h.
            let same : ◌≡◌ {A = Option (SslConnection S × List Event)} (some (c, []))
                (some (c', f.events ++ es)) =
              sym (run-error (i ∷ is) c h) ∙ run_cons i is c f.returns e in
            (cc, cc),
      )
