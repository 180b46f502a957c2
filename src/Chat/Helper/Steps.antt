-- ===== src/Chat/Helper/Steps.antt =====
-- What the steps of AIHelper::chat do to the history.
use mathlib.Core.List.{append_assoc}
use cyclone_httpserver.Common.{
  ℕ, ◌≡◌, ◌≢◌, refl, sym, ap, ◌∙◌, Bool, true, false, none, some, List, [], ◌∷◌, ◌++◌,
  if◌then◌else◌,
}
use cyclone_httpserver.Common.Bytes.{Text, codes, is_empty, strip_prefix}
use cyclone_httpserver.Common.Decimal.{ℤ}
use cyclone_httpserver.Common.Dict.{Dict}
use cyclone_httpserver.Chat.{
  Outcome, returned, threw, aborted, and_then, and_then_returned, lift, JsonApi, Outside, utf8,
}
use cyclone_httpserver.Chat.Strategy.{Message, Strategy}
use cyclone_httpserver.Chat.Helper.{
  Talk, pop_back, add_message, push_message_to_mysql, publish, keep, ask_prompt, execute_curl, ask,
}

-- An answer that tells of an error of the server.
abbrev pub is_error : Text → Bool
is_error a = elim (strip_prefix (codes "[Error]") a) [ none ↦ false | some rest ↦ true ]

pop_back-append : {A : Type 0} (xs : List A) (x : A) → pop_back (xs ++ x ∷ []) ≡ xs
pop_back-append [] x = refl
pop_back-append (y ∷ []) x = refl
pop_back-append (y ∷ z ∷ xs) x = ap (◌∷◌ y) (pop_back-append (z ∷ xs) x)

lift_state :
    {S A B : Type 0} (r : Outcome A × S) (g : A → Outcome B)
    → (and_then r (λ a. lift (g a))).1 ≡ r.1
lift_state (returned a, s) g = refl
lift_state (threw what, s) g = refl
lift_state (aborted, s) g = refl

module _ (api : JsonApi) {W : Type 0} (outside : Outside api.Json W)
    (arrange : Dict Text → Dict Text) (replace : Text → Text → Text → Text) (user_id : ℤ)
    (user_name session_id question : Text) where
  abbrev pub State : Type 0
  State = Talk api.Json W

  pub add_message_messages :
      (is_user : Bool) (text : Text) (s : State)
      → is_empty text ≡ false
      → (t : ℕ) × ((add_message api outside arrange replace user_id user_name is_user text
            session_id s).1.helper.messages
          ≡ s.helper.messages ++ (text, t) ∷ [])
  unfolding add_message push_message_to_mysql publish
  add_message_messages is_user text s h = ((outside.now s.world).0, rw h refl)

  -- A question and its answer behind a history.
  abbrev pub Extends : List Message → Text → List Message → Type 0
  Extends before answer after =
      (t : ℕ) × (t' : ℕ) × (after ≡ before ++ (question, t) ∷ (answer, t') ∷ [])

  pub two_more :
      (xs ys zs : List Message) (m m' : Message)
      → ys ≡ xs ++ m ∷ []
      → zs ≡ ys ++ m' ∷ []
      → zs ≡ xs ++ m ∷ m' ∷ []
  two_more xs ys zs m m' e1 e2 = e2 ∙ rw e1 (append_assoc xs (m ∷ []) (m' ∷ []))

  pub keep-Extends :
      (answer a : Text) (s s' : State)
      → keep api outside arrange replace user_id user_name session_id question answer s
        ≡ (returned a, s')
      → is_empty question ≡ false
      → is_empty a ≡ false
      → Extends s.helper.messages a s'.helper.messages
  unfolding keep
  keep-Extends answer a s s' e q n =
      let (_, s1, e1, r1) =
        and_then_returned
          (add_message api outside arrange replace user_id user_name true question session_id s) _
          e in
      let (_, s2, e2, r2) =
        and_then_returned
          (add_message api outside arrange replace user_id user_name false answer session_id s1) _
          r1 in
      let same : answer ≡ a = cc in
      let (t, h1) = add_message_messages true question s q in
      let (t', h2) = add_message_messages false answer s1 (rw same n) in
      let at1 : s1.helper.messages ≡ s.helper.messages ++ (question, t) ∷ [] =
        ap (λ r. r.1.helper.messages) (sym e1) ∙ h1 in
      let at2 : s2.helper.messages ≡ s1.helper.messages ++ (answer, t') ∷ [] =
        ap (λ r. r.1.helper.messages) (sym e2) ∙ h2 in
      let end : s'.helper.messages ≡ s1.helper.messages ++ (a, t') ∷ [] =
        sym (ap (λ r. r.1.helper.messages) r2)
        ∙ at2
        ∙ ap (λ x. s1.helper.messages ++ (x, t') ∷ []) same in
      (t, t', two_more _ _ _ (question, t) (a, t') at1 end)

  pub ask_helper :
      (strat : Strategy api.Json) (s s' : State) {answer : Text}
      → ask api outside arrange replace strat s ≡ (returned answer, s')
      → s'.helper ≡ s.helper
  unfolding execute_curl
  ask_helper strat s s' e =
      sym (ap (λ r. r.1.helper) e)
      ∙ ap (λ r. r.helper)
          (lift_state
            (execute_curl api outside arrange replace strat (strat.build_request s.helper.messages)
              s)
            strat.parse_response)

  pub ask_prompt_messages :
      (strat : Strategy api.Json) (prompt a : Text) (s s' : State)
      → ask_prompt api outside arrange replace user_id user_name session_id question strat prompt s
        ≡ (returned a, s')
      → s'.helper.messages ≡ s.helper.messages
  unfolding ask_prompt
  ask_prompt_messages strat prompt a s s' e =
      let (answer, s1, e1, r1) = and_then_returned (ask api outside arrange replace strat _) _ e in
      let kept : s1.helper.messages ≡ _ = ap (λ h. h.messages) (ask_helper strat _ s1 e1) in
      sym (ap (λ r. r.1.helper.messages) r1) ∙ rw kept (pop_back-append s.helper.messages _)

  pub not_error :
      (text a : Text) {s s' : State}
      → ◌≡◌ {A = Outcome Text × State} (returned (codes "[Error] " ++ text), s) (returned a, s')
      → is_error a ≢ false
  not_error text a e ok =
      let same : codes "[Error] " ++ text ≡ a = cc in
      let bad : true ≡ false = ap is_error same ∙ ok in cc

  pub shown :
      (answer a : Text) (s s' : State)
      → ◌≡◌ {A = Outcome Text × State}
          (returned (if is_empty answer then utf8 (codes "[Error] 无法解析响应") else answer), s)
          (returned a, s')
      → is_error a ≡ false
      → (is_empty answer ≡ false) × (answer ≡ a) × (s.helper.messages ≡ s'.helper.messages)
  shown [] a s s' e ok = absurd (
      let same : utf8 (codes "[Error] 无法解析响应") ≡ a = cc in
      let bad : true ≡ false = ap is_error same ∙ ok in cc)
  shown (x ∷ answer) a s s' e ok = (refl, cc, ap (λ r. r.1.helper.messages) e)
