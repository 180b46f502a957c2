-- ===== src/Ssl.antt =====
-- HttpServer/include/SslTypes.hpp, HttpServer/include/SslConnection.hpp and
-- HttpServer/src/SslConnection.cpp: TLS over one TCP connection. OpenSSL is the parameter `OpenSsl`.
pub mod Pending
pub mod Read
pub mod Follows
pub mod Run
pub mod Flight
pub mod Context
pub mod Protocol
pub mod Tests
use cyclone_httpserver.Common.{
  ℕ, zero, suc, ◌+◌, ◌≡◌, ◌≢◌, Bool, true, false, Option, none, some, List, [], ◌∷◌, ◌++◌,
  if◌then◌else◌, ltb, leb, length, take, drop, ◌≤◌, ◌&&◌, ◌<◌,
}
use cyclone_httpserver.Common.Bytes.{Text}

pub data SslError : Type 0 where
  no_error want_read want_write syscall ssl unknown : SslError

pub data SslState : Type 0 where
  handshake established shutdown error : SslState

-- What `SSL_get_error` answers: the codes that the code tells apart, and the others.
pub data ErrorCode : Type 0 where
  ssl_error_none ssl_error_want_read ssl_error_want_write ssl_error_syscall ssl_error_ssl :
      ErrorCode
  other_code : ℕ → ErrorCode

-- What `SSL_read` returns: a positive count with its bytes, zero, or a negative number.
pub data ReadResult : Type 0 where
  got : Text → ReadResult
  zero_read negative : ReadResult

-- The calls of OpenSSL that are made of an `SSL` object with its two memory BIOs, and what is
-- documented of them. `outgoing` is what the write BIO holds; `plain` is the application data
-- that can be decrypted of what the read BIO has got.
pub record OpenSsl (S : Type 0) : Type 0 where
  -- `BIO_write` to the read BIO.
  pub receive : Text → S → S
  pub pending : S → ℕ
  pub bio_read : ℕ → S → Text × S
  pub set_accept_state : S → S
  -- Whether `SSL_do_handshake` returns 1.
  pub do_handshake : S → Bool × S
  pub get_error : S → ErrorCode
  pub ssl_read : ℕ → S → ReadResult × S
  -- Whether `SSL_write` returns a positive number.
  pub ssl_write : Text → S → Bool × S
  pub outgoing : S → Text
  pub plain : S → Text
  pub pending-outgoing : (s : S) → pending s ≡ length (outgoing s)
  pub bio_read_bytes : (n : ℕ) (s : S) → (bio_read n s).0 ≡ take n (outgoing s)
  pub bio_read_rest : (n : ℕ) (s : S) → outgoing (bio_read n s).1 ≡ drop n (outgoing s)
  -- What is read is a part of what can be decrypted, from its front, and not empty.
  pub ssl_read_got :
      (n : ℕ) (s : S) (t : Text)
      → (ssl_read n s).0 ≡ got t
      → (plain s ≡ t ++ plain (ssl_read n s).1) × (t ≢ [])
  pub ssl_read_none :
      (n : ℕ) (s : S) → ((t : Text) → (ssl_read n s).0 ≢ got t) → plain (ssl_read n s).1 ≡ plain s
  -- As long as something can be decrypted, something is read.
  pub ssl_read_progress :
      (n : ℕ) (s : S) → 0 < n → plain s ≢ [] → (t : Text) × ((ssl_read n s).0 ≡ got t)

-- The object, when its constructor got an `SSL` object and two BIOs; `message_callback` tells whether
-- a callback is set.
pub record SslConnection (S : Type 0) : Type 0 where
  pub ssl_object : S
  pub state : SslState
  pub message_callback : Bool

-- What the outside sees: `conn_->send`, `conn_->shutdown`, and the call of the message callback.
pub data Event : Type 0 where
  tcp_send : Text → Event
  tcp_shutdown : Event
  message : Text → Event

-- The constructor; `none` where `SSL_new` or `BIO_new` fails, and `ssl_` stays null.
unfoldable pub new_connection : {S : Type 0} → Option S → Bool → Bool → Option (SslConnection S)
new_connection none read_bio write_bio = none
new_connection (some s) read_bio write_bio =
    if read_bio && write_bio
    then some (record { ssl_object = s; state = handshake; message_callback = false })
    else none

pub set_message_callback : {S : Type 0} → SslConnection S → SslConnection S
set_message_callback c = record c { message_callback = true }

-- `getLastError`, of the code that `SSL_get_error` gives.
unfoldable pub get_last_error : ErrorCode → SslError
get_last_error ssl_error_none = no_error
get_last_error ssl_error_want_read = want_read
get_last_error ssl_error_want_write = want_write
get_last_error ssl_error_syscall = syscall
get_last_error ssl_error_ssl = ssl
get_last_error (other_code n) = unknown

abbrev pub not_want_read : SslError → Bool
not_want_read want_read = false
not_want_read _ = true

unfoldable pub handle_error :
    {S : Type 0} → SslError → SslConnection S → SslConnection S × List Event
handle_error want_read c = (c, [])
handle_error want_write c = (c, [])
handle_error ssl c = (record c { state = error }, tcp_shutdown ∷ [])
handle_error syscall c = (record c { state = error }, tcp_shutdown ∷ [])
handle_error unknown c = (record c { state = error }, tcp_shutdown ∷ [])
handle_error no_error c = (c, [])

module _ {S : Type 0} (openssl : OpenSsl S) where
  open openssl use {
    receive, pending, bio_read, set_accept_state, do_handshake, get_error, ssl_read, ssl_write,
    plain,
  }

  -- One round of `sendPendingData`, and the rest.
  unfoldable pub send_chunk : Text → Option (S × List Event) → Option (S × List Event)
  send_chunk [] rest = rest
  send_chunk bytes none = none
  send_chunk bytes (some (s, es)) = some (s, tcp_send bytes ∷ es)

  -- The loop, with fuel; `none` where it runs out.
  unfoldable pub send_loop : ℕ → S → Option (S × List Event)
  send_loop zero s = none
  send_loop (suc fuel) s =
      let n = pending s in
      let (bytes, s') = bio_read (if ltb n 16384 then n else 16384) s in
      let rest = send_loop fuel s' in if ltb 0 n then send_chunk bytes rest else some (s, [])

  unfoldable pub send_pending_data : S → Option (S × List Event)
  send_pending_data s = send_loop (pending s + 1) s

  -- What was sent before, then what is pending.
  unfoldable pub and_send_pending :
      SslConnection S → List Event → Option (SslConnection S × List Event)
  and_send_pending c sent = elim (send_pending_data c.ssl_object) [
    | none ↦ none
    | some (s, es) ↦ some (record c { ssl_object = s }, sent ++ es)
  ]

  -- `Option`'s bind, for what follows in one function.
  abbrev pub then_do :
      Option (SslConnection S × List Event)
      → (SslConnection S → List Event → Option (SslConnection S × List Event))
      → Option (SslConnection S × List Event)
  then_do none f = none
  then_do (some (c, es)) f = f c es

  -- The `switch` of `handleHandshake`, and the check for pending data behind it.
  unfoldable pub handshake_waits :
      ErrorCode → SslConnection S → Option (SslConnection S × List Event)
  handshake_waits ssl_error_want_read c = then_do (and_send_pending c []) and_send_pending
  handshake_waits ssl_error_want_write c = then_do (and_send_pending c []) and_send_pending
  handshake_waits code c = and_send_pending c (tcp_shutdown ∷ [])

  unfoldable pub handle_handshake : SslConnection S → Option (SslConnection S × List Event)
  handle_handshake c =
      let (done, s) = do_handshake c.ssl_object in
      if done
      then some (record c { ssl_object = s; state = established }, [])
      else handshake_waits (get_error s) (record c { ssl_object = s })

  unfoldable pub start_handshake : SslConnection S → Option (SslConnection S × List Event)
  start_handshake c = handle_handshake (record c { ssl_object = set_accept_state c.ssl_object })

  -- The loop of `onRead` around `SSL_read`, with fuel: what was decrypted, and whether the last
  -- return value is negative.
  unfoldable pub read_more :
      S → Text → ReadResult → (Text → Option (S × Text × Bool)) → Option (S × Text × Bool)
  read_more s decrypted (got t) rest = rest (decrypted ++ t)
  read_more s decrypted zero_read rest = some (s, decrypted, false)
  read_more s decrypted negative rest = some (s, decrypted, true)

  unfoldable pub read_loop : ℕ → S → Text → Option (S × Text × Bool)
  read_loop zero s decrypted = none
  read_loop (suc fuel) s decrypted =
      let (r, s') = ssl_read 4096 s in read_more s' decrypted r (read_loop fuel s')

  -- The end of `onRead`.
  unfoldable pub hand_over : SslConnection S → Text → Bool → SslConnection S × List Event
  hand_over c [] failed =
      if failed && not_want_read (get_last_error (get_error c.ssl_object))
      then handle_error (get_last_error (get_error c.ssl_object)) c
      else (c, [])
  hand_over c (b ∷ text) failed = (c, if c.message_callback then message (b ∷ text) ∷ [] else [])

  -- The data of an established connection. The fuel is one more than what can be decrypted, of which
  -- each round but the last takes a byte at least.
  unfoldable pub on_data : SslConnection S → Text → Option (SslConnection S × List Event)
  on_data c bytes =
      elim (read_loop (length (plain (receive bytes c.ssl_object)) + 1) (receive bytes c.ssl_object)
        []) [
          | none ↦ none
          | some (s, text, failed) ↦ some (hand_over (record c { ssl_object = s }) text failed)
        ]

  unfoldable pub read_by : SslState → SslConnection S → Text → Option (SslConnection S × List Event)
  read_by handshake c bytes =
      handle_handshake (record c { ssl_object = receive bytes c.ssl_object })
  read_by established c bytes = on_data c bytes
  read_by shutdown c bytes = some (c, [])
  read_by error c bytes = some (c, [])

  -- `onRead`, on all the readable bytes of its buffer, which it takes from it.
  unfoldable pub on_read : SslConnection S → Text → Option (SslConnection S × List Event)
  on_read c bytes = read_by c.state c bytes

  -- `send` of an established connection.
  unfoldable pub encrypt : SslConnection S → Text → Option (SslConnection S × List Event)
  encrypt c bytes =
      let (written, s) = ssl_write bytes c.ssl_object in
      if written
      then and_send_pending (record c { ssl_object = s }) []
      else some (handle_error (get_last_error (get_error s)) (record c { ssl_object = s }))

  unfoldable pub send_by : SslState → SslConnection S → Text → Option (SslConnection S × List Event)
  send_by established c bytes = encrypt c bytes
  send_by _ c bytes = some (c, [])

  unfoldable pub send : SslConnection S → Text → Option (SslConnection S × List Event)
  send c bytes = send_by c.state c bytes
