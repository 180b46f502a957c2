-- ===== src/Session/Laws.antt =====
-- What `getSession` leaves, and the invariant of the storage.
use cyclone_httpserver.Common.{
  ℕ, zero, suc, ◌+◌, ◌≤◌, ◌<◌, ◌≡◌, refl, inl, inr, Bool, true, false, ◌||◌, ◌&&◌, some, [], ◌∷◌,
  ◌++◌, if◌then◌else◌, leb, arith, All, All-append, length, length-append, Option-cases, Bool-cases,
}
use cyclone_httpserver.Common.Bytes.{Text, text_eq_iff}
use cyclone_httpserver.Common.Dict.{lookup, assign, erase, lookup-assign, lookup-erase}
use cyclone_httpserver.Session.{
  Session, is_expired, Manager, write, save, load, set_value, hex_digit, generate_loop,
  generate_session_id,
}

abbrev pub is_hex : ℕ → Bool
is_hex c = (leb b'0' c && leb c b'9') || (leb b'a' c && leb c b'f')

module _ {R : Type 0} (draw : R → ℕ × R) (draw_le : (g : R) → (draw g).0 ≤ 15) where
  hex_digit-IsHex : (d : ℕ) → d ≤ 15 → is_hex (hex_digit d) ≡ true
  hex_digit-IsHex d h = ground arith

  generate_loop_lem :
      (i : ℕ) (ss : Text) (g : R)
      → All (λ c. is_hex c ≡ true) ss
      → (length (generate_loop draw i ss g).0 ≡ i + length ss)
        × All (λ c. is_hex c ≡ true) (generate_loop draw i ss g).0
  unfolding generate_loop
  generate_loop_lem zero ss g h = (omega arith, h)
  generate_loop_lem (suc i) ss g h =
      let d = (draw g).0 in
      let (n, a) = generate_loop_lem i (ss ++ hex_digit d ∷ []) (draw g).1 (
        All-append (λ c. is_hex c ≡ true) ss (hex_digit d ∷ []) h
          (hex_digit-IsHex d (draw_le g), tt)) in
      (omega (arith, n, length-append ss (hex_digit d ∷ [])), a)

  -- Where the distribution draws numbers from 0 to 15, an identifier is 32 lower-case hexadecimal
  -- digits.
  pub generate_session_id_lem :
      (g : R)
      → (length (generate_session_id draw g).0 ≡ 32)
        × All (λ c. is_hex c ≡ true) (generate_session_id draw g).0
  unfolding generate_session_id
  generate_session_id_lem g = generate_loop_lem 32 [] g tt

either {κ} : {A : Type 0} (P : A → Type κ) (c : Bool) {a b : A} → P a → P b → P (if c then a else b)
either P true x y = x
either P false x y = y

module _ {R : Type 0} where
  -- Every stored pointer is in use, and points to a session with the identifier it is stored under.
  pub record IsConsistent (m : Manager R) : Type 0 where
    pub named : (id : Text) (p : ℕ) → lookup id m.sessions ≡ some p → (m.heap p).session_id ≡ id
    pub used : (id : Text) (p : ℕ) → lookup id m.sessions ≡ some p → p < m.next

  pub save-IsConsistent :
      (p : ℕ) (m : Manager R) → p < m.next → IsConsistent m → IsConsistent (save p m)
  unfolding save
  save-IsConsistent p m u h = record {
    named = λ id q e. ground (
      arith,
      lookup-assign (m.heap p).session_id id p m.sessions,
      text_eq_iff (m.heap p).session_id id,
      h.named id q,
    );
    used =
        λ id q e. ground (arith, lookup-assign (m.heap p).session_id id p m.sessions, h.used id q);
  }

  erase-IsConsistent :
      (id : Text) (m : Manager R)
      → IsConsistent m
      → IsConsistent (record m { sessions = erase id m.sessions })
  erase-IsConsistent k m h = record {
    named = λ id q e. ground (arith, lookup-erase k id m.sessions, h.named id q);
    used = λ id q e. ground (arith, lookup-erase k id m.sessions, h.used id q);
  }

  -- A session that is written in place of one with its identifier.
  pub write-IsConsistent :
      (p : ℕ) (s : Session) (m : Manager R)
      → s.session_id ≡ (m.heap p).session_id
      → IsConsistent m
      → IsConsistent (write p s m)
  write-IsConsistent p s m e h = record {
    named = λ id q k. ground (arith, h.named id q);
    used = λ id q k. h.used id q k;
  }

  pub load-IsConsistent :
      (now : ℕ) (id : Text) (m : Manager R) → IsConsistent m → IsConsistent (load now id m).0
  unfolding load
  load-IsConsistent now id m h = elim (Option-cases (lookup id m.sessions)) [
    | inl e ↦ rw (e, load) h
    | inr (p, e) ↦ elim (Bool-cases (is_expired now (m.heap p))) [
      | inl x ↦ rw (e, load, x) (erase-IsConsistent id m h)
      | inr x ↦ rw (e, load, x) h
    ]
  ]

  -- A session that is made anew, at the next pointer.
  pub new-IsConsistent :
      (s : Session) (g : R) (m : Manager R)
      → IsConsistent m
      → IsConsistent (write m.next s (record m { next = m.next + 1; rng = g }))
  new-IsConsistent s g m h = record {
    named = λ id q k. ground (arith, h.named id q k, h.used id q k);
    used = λ id q k. omega (arith, h.used id q k);
  }

  -- Session::setValue keeps the storage consistent, whether or not the session has its manager.
  pub set_value-IsConsistent :
      (p : ℕ) (key value : Text) (m : Manager R)
      → p < m.next
      → IsConsistent m
      → IsConsistent (set_value p key value m)
  unfolding set_value
  set_value-IsConsistent p key value m u h =
      let s = m.heap p in
      let w = write-IsConsistent p (record s { values = assign key value s.values }) m refl h in
      either IsConsistent s.has_manager (save-IsConsistent p _ u w) w

  -- A session that load finds stands in the storage, and load changes nothing then.
  pub load-some :
      (now : ℕ) (id : Text) (m : Manager R) {p : ℕ}
      → (load now id m).1 ≡ some p
      → ((load now id m).0 ≡ m) × (lookup id m.sessions ≡ some p)
  unfolding load
  load-some now id m {p} h = elim (Option-cases (lookup id m.sessions)) [
    | inl e ↦ ground (arith, e, h)
    | inr (q, e) ↦ elim (Bool-cases (is_expired now (m.heap q))) [
      | inl x ↦ ground (arith, e, x, h)
      | inr x ↦ ground (arith, e, x, h)
    ]
  ]
