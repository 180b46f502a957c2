-- ===== src/Chat/Helper/History.antt =====
-- The history of a conversation after an answer.
use cyclone_httpserver.Common.{
  ℕ, ◌≡◌, refl, sym, ap, ◌∙◌, inl, inr, Bool, true, false, Option, none, some, [], ◌∷◌, ◌++◌,
  Bool-cases,
}
use cyclone_httpserver.Common.Bytes.{Text, codes, is_empty}
use cyclone_httpserver.Common.Decimal.{ℤ}
use cyclone_httpserver.Common.Dict.{Dict}
use cyclone_httpserver.Chat.{
  Outcome, returned, threw, aborted, and_then_returned, caught_returned, lift, JsonApi, Outside,
  utf8, pure,
}
use cyclone_httpserver.Chat.Helper.Steps.{
  is_error, add_message_messages, two_more, keep-Extends, ask_helper, ask_prompt_messages,
  not_error, shown, Extends, State,
}
use cyclone_httpserver.Chat.Strategy.{Strategy}
use cyclone_httpserver.Chat.Helper.{
  add_message, ask_prompt, plain_answer, plain_chat, ask, mcp_answer, AiConfig, mcp_chat,
  set_strategy, AiToolCall, parse_ai_response, call_tool, chat_with, with_call, after_tool,
  load_from_file, build_tool_result_prompt, chat, mcp_steps, chat_by,
}

module _ (api : JsonApi) {W : Type 0} (outside : Outside api.Json W)
    (arrange : Dict Text → Dict Text) (replace : Text → Text → Text → Text) (user_id : ℤ)
    (user_name session_id question : Text) where
  plain_answer-Extends :
      (strat : Strategy api.Json) (a : Text)
      (s s0 s' : State api outside arrange replace user_id user_name session_id question) (t : ℕ)
      → plain_answer api outside arrange replace user_id user_name session_id question strat s
        ≡ (returned a, s')
      → s.helper.messages ≡ s0.helper.messages ++ (question, t) ∷ []
      → is_error a ≡ false
      → is_empty a ≡ false
      → Extends api outside arrange replace user_id user_name session_id question s0.helper.messages
          a s'.helper.messages
  unfolding plain_answer
  plain_answer-Extends strat a s s0 s' t e h ok n =
      let (answer, s1, e1, r1) = and_then_returned (ask api outside arrange replace strat s) _ e in
      let kept : s1.helper.messages ≡ s.helper.messages =
        ap (λ h. h.messages)
          (ask_helper api outside arrange replace user_id user_name session_id question strat s s1
            e1) in
      let (_, s2, e2, r2) =
        and_then_returned
          (add_message api outside arrange replace user_id user_name false answer session_id s1) _
          r1 in
      let (some_answer, same, end) =
        shown api outside arrange replace user_id user_name session_id question answer a s2 s' r2
          ok in
      let (t', h2) =
        add_message_messages api outside arrange replace user_id user_name session_id question false
          answer s1 some_answer in
      let at2 : s2.helper.messages ≡ s.helper.messages ++ (answer, t') ∷ [] =
        ap (λ r. r.1.helper.messages) (sym e2) ∙ h2 ∙ rw kept refl in
      (
        t,
        t',
        two_more api outside arrange replace user_id user_name session_id question _ _ _
            (question, t) (a, t') h
            (sym end ∙ at2 ∙ ap (λ x. s.helper.messages ++ (x, t') ∷ []) same),
      )

  plain_chat-Extends :
      (strat : Strategy api.Json) (a : Text)
      (s s' : State api outside arrange replace user_id user_name session_id question)
      → plain_chat api outside arrange replace user_id user_name session_id question strat s
        ≡ (returned a, s')
      → is_empty question ≡ false
      → is_error a ≡ false
      → is_empty a ≡ false
      → Extends api outside arrange replace user_id user_name session_id question s.helper.messages
          a s'.helper.messages
  unfolding plain_chat
  plain_chat-Extends strat a s s' e q ok n =
      let (_, s1, e1, r1) =
        and_then_returned
          (add_message api outside arrange replace user_id user_name true question session_id s) _
          e in
      let (t, h1) =
        add_message_messages api outside arrange replace user_id user_name session_id question true
          question s q in
      let at1 : s1.helper.messages ≡ s.helper.messages ++ (question, t) ∷ [] =
        ap (λ r. r.1.helper.messages) (sym e1) ∙ h1 in
      elim (caught_returned
        (plain_answer api outside arrange replace user_id user_name session_id question strat s1) _
        r1) [
          | inl done ↦ plain_answer-Extends strat a s1 s s' t done at1 ok n
          | inr (what, s2, failed) ↦ absurd (
              not_error api outside arrange replace user_id user_name session_id question
                (utf8 (codes "AI调用失败: ") ++ what) a failed ok)
        ]

  after_tool-Extends :
      (strat : Strategy api.Json) (c : AiToolCall api.Json) (o : Outcome api.Json) (a : Text)
      (s s' : State api outside arrange replace user_id user_name session_id question)
      → after_tool api outside arrange replace user_id user_name session_id question strat c o s
        ≡ (returned a, s')
      → is_empty question ≡ false
      → is_empty a ≡ false
      → Extends api outside arrange replace user_id user_name session_id question s.helper.messages
          a s'.helper.messages
  after_tool-Extends strat c (returned result) a s s' e q n =
      let (prompt, s1, e1, r1) =
        and_then_returned (lift (build_tool_result_prompt api question c.tool_name c.args result) s)
          _ e in
      let (answer, s2, e2, r2) =
        and_then_returned
          (ask_prompt api outside arrange replace user_id user_name session_id question strat prompt
            s1)
          _ r1 in
      let kept : s2.helper.messages ≡ s.helper.messages =
        ask_prompt_messages api outside arrange replace user_id user_name session_id question strat
          prompt answer s1 s2 e2
        ∙ sym (ap (λ r. r.1.helper.messages) e1) in
      let (t, t', h) =
        keep-Extends api outside arrange replace user_id user_name session_id question answer a s2
          s' r2 q n in
      (t, t', h ∙ rw kept refl)
  after_tool-Extends strat c (threw what) a s s' e q n =
      keep-Extends api outside arrange replace user_id user_name session_id question _ a s s' e q n
  after_tool-Extends strat c aborted a s s' e q n = cc

  call_tool-Extends :
      (strat : Strategy api.Json) (c : AiToolCall api.Json) (a : Text)
      (s s' : State api outside arrange replace user_id user_name session_id question)
      → call_tool api outside arrange replace user_id user_name session_id question strat c s
        ≡ (returned a, s')
      → is_empty question ≡ false
      → is_empty a ≡ false
      → Extends api outside arrange replace user_id user_name session_id question s.helper.messages
          a s'.helper.messages
  unfolding call_tool
  call_tool-Extends strat c a s s' e q n = after_tool-Extends strat c _ a _ s' e q n

  with_call-Extends :
      (strat : Strategy api.Json) (answer : Text) (c : AiToolCall api.Json) (a : Text)
      (s s' : State api outside arrange replace user_id user_name session_id question)
      → with_call api outside arrange replace user_id user_name session_id question strat answer c s
        ≡ (returned a, s')
      → is_empty question ≡ false
      → is_empty a ≡ false
      → Extends api outside arrange replace user_id user_name session_id question s.helper.messages
          a s'.helper.messages
  unfolding call_tool
  with_call-Extends strat answer c a s s' e q n = elim (Bool-cases c.is_tool_call) [
    | inl tool ↦ call_tool-Extends strat c a s s' (rw tool at e) q n
    | inr plain ↦
        keep-Extends api outside arrange replace user_id user_name session_id question answer a s s'
          (rw plain at e) q n
  ]

  mcp_answer-Extends :
      (strat : Strategy api.Json) (config : Option AiConfig) (a : Text)
      (s s' : State api outside arrange replace user_id user_name session_id question)
      → mcp_answer api outside arrange replace user_id user_name session_id question strat config s
        ≡ (returned a, s')
      → is_empty question ≡ false
      → is_error a ≡ false
      → is_empty a ≡ false
      → Extends api outside arrange replace user_id user_name session_id question s.helper.messages
          a s'.helper.messages
  unfolding mcp_answer
  mcp_answer-Extends strat none a s s' e q ok n = absurd (
      not_error api outside arrange replace user_id user_name session_id question
        (utf8 (codes "无法加载MCP配置文件")) a e ok)
  mcp_answer-Extends strat (some config) a s s' e q ok n =
      let (answer, s1, e1, r1) =
        and_then_returned
          (ask_prompt api outside arrange replace user_id user_name session_id question strat _ s) _
          e in
      let kept : s1.helper.messages ≡ s.helper.messages =
        ask_prompt_messages api outside arrange replace user_id user_name session_id question strat
          _ answer s s1 e1 in
      let (c, s2, e2, r2) = and_then_returned (lift (parse_ai_response api answer) s1) _ r1 in
      let kept2 : s2.helper.messages ≡ s.helper.messages =
        sym (ap (λ r. r.1.helper.messages) e2) ∙ kept in
      let (t, t', h) : Extends api outside arrange replace user_id user_name session_id question
          s2.helper.messages a s'.helper.messages =
        with_call-Extends strat answer c a s2 s' r2 q n in
      (t, t', h ∙ rw kept2 refl)

  mcp_steps-Extends :
      (strat : Strategy api.Json) (a : Text)
      (s s' : State api outside arrange replace user_id user_name session_id question)
      → mcp_steps api outside arrange replace user_id user_name session_id question strat s
        ≡ (returned a, s')
      → is_empty question ≡ false
      → is_error a ≡ false
      → is_empty a ≡ false
      → Extends api outside arrange replace user_id user_name session_id question s.helper.messages
          a s'.helper.messages
  unfolding mcp_steps
  mcp_steps-Extends strat a s s' e q ok n =
      let (file, w) = outside.config_file s.world in
      let (config, s1, e1, r1) =
        and_then_returned (lift (load_from_file api file) (record s { world = w }))
          (mcp_answer api outside arrange replace user_id user_name session_id question strat) e in
      let kept : s1.helper.messages ≡ s.helper.messages = sym (ap (λ r. r.1.helper.messages) e1) in
      let (t, t', h) = mcp_answer-Extends strat config a s1 s' r1 q ok n in
      (t, t', h ∙ rw kept refl)

  chat_by-Extends :
      (mcp : Bool) (strat : Strategy api.Json) (a : Text)
      (s s' : State api outside arrange replace user_id user_name session_id question)
      → chat_by api outside arrange replace user_id user_name session_id question mcp strat s
        ≡ (returned a, s')
      → is_empty question ≡ false
      → is_error a ≡ false
      → is_empty a ≡ false
      → Extends api outside arrange replace user_id user_name session_id question s.helper.messages
          a s'.helper.messages
  unfolding mcp_chat
  chat_by-Extends true strat a s s' e q ok n =
      elim (caught_returned
        (mcp_steps api outside arrange replace user_id user_name session_id question strat s)
        (λ what. pure (utf8 (codes "[Error] MCP处理失败: ") ++ what)) e) [
          | inl done ↦ mcp_steps-Extends strat a s s' done q ok n
          | inr (what, s1, failed) ↦ absurd (
              not_error api outside arrange replace user_id user_name session_id question
                (utf8 (codes "MCP处理失败: ") ++ what) a failed ok)
        ]
  chat_by-Extends false strat a s s' e q ok n = plain_chat-Extends strat a s s' e q ok n

  chat_with-Extends :
      (made : Outcome (Strategy api.Json)) (a : Text)
      (s s' : State api outside arrange replace user_id user_name session_id question)
      → chat_with api outside arrange replace user_id user_name session_id question made s
        ≡ (returned a, s')
      → is_empty question ≡ false
      → is_error a ≡ false
      → is_empty a ≡ false
      → Extends api outside arrange replace user_id user_name session_id question s.helper.messages
          a s'.helper.messages
  unfolding set_strategy
  chat_with-Extends (returned strat) a s s' e q ok n =
      chat_by-Extends strat.is_mcp_model strat a _ s' e q ok n
  chat_with-Extends (threw what) a s s' e q ok n = absurd (
      not_error api outside arrange replace user_id user_name session_id question
        (utf8 (codes "策略创建失败: ") ++ what) a e ok)
  chat_with-Extends aborted a s s' e q ok n = cc

  -- Where a call of `chat`, of either kind of model, returns an answer that is neither empty nor a text
  -- that begins with [Error], the history afterwards is the history before with the question and the
  -- answer behind it: the prompts that stood in it for a request are gone.
  pub chat-messages :
      (model : Text) (a : Text)
      (s s' : State api outside arrange replace user_id user_name session_id question)
      → chat api outside arrange replace user_id user_name session_id question model s
        ≡ (returned a, s')
      → is_error a ≡ false
      → is_empty a ≡ false
      → (t : ℕ) × (t' : ℕ) × (s'.helper.messages
          ≡ s.helper.messages ++ (question, t) ∷ (a, t') ∷ [])
  unfolding chat
  chat-messages model a s s' e ok n = elim (Bool-cases (is_empty question)) [
    | inl empty ↦ absurd (
        not_error api outside arrange replace user_id user_name session_id question
          (utf8 (codes "用户问题不能为空")) a (rw empty at e) ok)
    | inr some_question ↦ chat_with-Extends _ a s s' (rw some_question at e) some_question ok n
  ]
