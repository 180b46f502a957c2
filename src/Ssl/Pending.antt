-- ===== src/Ssl/Pending.antt =====
-- `sendPendingData`: what the write BIO holds is sent whole, in order, in pieces of bounded size.
use cyclone_httpserver.Common.{
  ℕ, zero, suc, ◌+◌, ◌≡◌, ◌≤◌, ◌<◌, refl, sym, ap, true, some, List, [], ◌∷◌, ◌++◌, if◌then◌else◌,
  ltb, length, take, drop, arith, All, length-drop, ◌∙◌, length-take, take-append-drop, length_zero,
}
use native.Mathlib.Decide.{dec_lt}
use cyclone_httpserver.Common.Bytes.{Text}
use cyclone_httpserver.Ssl.{
  OpenSsl, Event, tcp_send, tcp_shutdown, message, send_chunk, send_loop, send_pending_data,
}

-- The bytes that go to the TCP connection.
abbrev pub sent : List Event → Text
sent [] = []
sent (tcp_send t ∷ es) = t ++ sent es
sent (tcp_shutdown ∷ es) = sent es
sent (message t ∷ es) = sent es

-- A piece of encrypted data and nothing else.
abbrev pub IsPiece : Event → Type 0
IsPiece (tcp_send t) = (0 < length t) × (length t ≤ 16384)
IsPiece tcp_shutdown = ⊥
IsPiece (message t) = ⊥

module _ {S : Type 0} (openssl : OpenSsl S) where
  open openssl use {pending, bio_read, outgoing, pending-outgoing, bio_read_bytes, bio_read_rest}

  -- The loop from `s` ends, and sends what is outgoing.
  pub record Flushes (fuel : ℕ) (s : S) : Type 0 where
    pub after : S
    pub events : List Event
    pub runs : send_loop openssl fuel s ≡ some (after, events)
    pub whole : sent events ≡ outgoing s
    pub emptied : outgoing after ≡ []
    pub pieces : All IsPiece events

  abbrev size : ℕ → ℕ
  size n = if ltb n 16384 then n else 16384

  flush_none : (fuel : ℕ) (s : S) → outgoing s ≡ [] → Flushes (suc fuel) s
  unfolding send_loop
  flush_none fuel s e =
      let z : pending s ≡ 0 = pending-outgoing s ∙ ap length e in
      record { after = s; events = []; runs = rw z refl; whole = sym e; emptied = e; pieces = tt }

  send_chunk_lem :
      (t : Text) (s : S) (es : List Event)
      → 0 < length t
      → send_chunk openssl t (some (s, es)) ≡ some (s, tcp_send t ∷ es)
  unfolding send_chunk
  send_chunk_lem [] s es h = absurd (omega arith)
  send_chunk_lem (b ∷ t) s es h = refl

  module _ (s : S) (some_out : 0 < length (outgoing s)) where
    -- One round of the loop takes a piece from the front.
    record Round : Type 0 where
      begun : ltb 0 (pending s) ≡ true
      piece :
          (0 < length (bio_read (size (pending s)) s).0)
          × (length (bio_read (size (pending s)) s).0 ≤ 16384)
      split :
          (bio_read (size (pending s)) s).0 ++ outgoing (bio_read (size (pending s)) s).1
          ≡ outgoing s
      shorter : length (outgoing (bio_read (size (pending s)) s).1) < length (outgoing s)

    round : Round
    round =
        let n : ℕ = size (pending s) in
        let e : (bio_read n s).0 ≡ take n (outgoing s) = bio_read_bytes n s in
        let r : outgoing (bio_read n s).1 ≡ drop n (outgoing s) = bio_read_rest n s in
        let p : pending s ≡ length (outgoing s) = pending-outgoing s in
        record {
          begun = ground (arith, p);
          piece = rw e (ground (arith, p, length-take n (outgoing s)));
          split = rw (e, r) (take-append-drop n (outgoing s));
          shorter = rw r (ground (arith, p, length-drop n (outgoing s)));
        }

    flush_some : (fuel : ℕ) → Flushes fuel (bio_read (size (pending s)) s).1 → Flushes (suc fuel) s
    unfolding send_loop
    flush_some fuel f = record {
      after = f.after;
      events = tcp_send (bio_read (size (pending s)) s).0 ∷ f.events;
      runs = rw (round.begun, f.runs) (send_chunk_lem _ f.after f.events round.piece.0);
      whole = ap (λ t. (bio_read (size (pending s)) s).0 ++ t) f.whole ∙ round.split;
      emptied = f.emptied;
      pieces = (round.piece, f.pieces);
    }

  pub send_loop-Flushes : (fuel : ℕ) (s : S) → length (outgoing s) < fuel → Flushes fuel s
  send_loop-Flushes zero s h = absurd (omega arith)
  send_loop-Flushes (suc fuel) s h = elim (dec_lt 0 (length (outgoing s))) [
    | yes more ↦
        flush_some s more fuel (
          send_loop-Flushes fuel _
            (let r : Round s more = round s more in omega (arith, r.shorter)))
    | no none_left ↦ flush_none fuel s (length_zero (outgoing s) (omega arith))
  ]

  -- `sendPendingData` ends, hands all that is outgoing to the TCP connection, in order and in pieces
  -- of at most 16 KB, and leaves nothing outgoing.
  pub send_pending_data-outgoing :
      (s : S)
      → (s' : S) × (es : List Event) × (send_pending_data openssl s ≡ some (s', es))
        × (sent es ≡ outgoing s)
        × (outgoing s' ≡ [])
        × All IsPiece es
  unfolding send_pending_data
  send_pending_data-outgoing s =
      let f : Flushes (pending s + 1) s =
        send_loop-Flushes (pending s + 1) s (omega (arith, pending-outgoing s)) in
      (f.after, f.events, f.runs, f.whole, f.emptied, f.pieces)
