-- ===== src/Chat/Helper.antt =====
-- AIApps/ChatServer/*/AIUtil/AIHelper.* and MQManager::publish: one conversation. Its calls for one
-- object come one after the other here.
pub mod Steps
pub mod History
use cyclone_httpserver.Common.{
  ℕ, ◌+◌, ◌%◌, ◌^◌, Bool, true, false, Option, none, some, List, [], ◌∷◌, ◌++◌, if◌then◌else◌,
}
use cyclone_httpserver.Common.Bytes.{Text, codes, is_empty}
use cyclone_httpserver.Common.Decimal.{ℤ}
use cyclone_httpserver.Common.Dict.{Dict}
use cyclone_httpserver.Chat.{
  Outcome, returned, threw, aborted, Act, pure, throw, lift, call, try, JsonApi, Outside, utf8,
  ◌>>=◌, ◌>>◌,
}
use cyclone_httpserver.Chat.Strategy.{Message, Strategy, create, registered}
use cyclone_httpserver.Chat.Config.{
  AiConfig, AiToolCall, load_from_file, build_prompt, parse_ai_response, build_tool_result_prompt,
}
use cyclone_httpserver.Chat.Tools.{new_registry, invoke}
use cyclone_httpserver.Chat.Escape.{insert_sql}

pub record AiHelper (Json : Type 0) : Type 0 where
  pub strategy : Strategy Json
  pub messages : List Message

-- The conversation with what it shares: the counter of the MQManager, and the world outside.
pub record Talk (Json W : Type 0) : Type 0 where
  pub helper : AiHelper Json
  pub counter : ℕ
  pub world : W

-- The number of channels of the MQManager.
abbrev pub pool_size : ℕ
pool_size = 5

abbrev pub pop_back : {A : Type 0} → List A → List A
pop_back [] = []
pop_back (x ∷ []) = []
pop_back (x ∷ y ∷ xs) = x ∷ pop_back (y ∷ xs)

module _ (api : JsonApi) {W : Type 0} (outside : Outside api.Json W)
    (arrange : Dict Text → Dict Text) (replace : Text → Text → Text → Text) where
  open api use {Json, parse, dump}

  abbrev pub State : Type 0
  State = Talk Json W

  abbrev pub in_world : {A : Type 0} → Act W A → Act State A
  in_world act s = let (o, w) = act s.world in (o, record s { world = w })

  -- The constructor; `what` is the text of the exception inside.
  abbrev initialized : Outcome (Strategy Json) → Outcome (AiHelper Json)
  initialized (returned s) = returned (record { strategy = s; messages = [] })
  initialized (threw what) = threw (codes "AIHelper initialization failed: " ++ what)
  initialized aborted = aborted

  unfoldable pub new_helper : Outcome (AiHelper Json)
  new_helper = initialized (create api (registered api) (codes "aliyun") outside.env)

  unfoldable pub set_strategy : Strategy Json → Act State (Unit {0})
  set_strategy strat s = (returned tt, record s { helper = record s.helper { strategy = strat } })

  abbrev push_back : Message → Act State (Unit {0})
  push_back m s = (
    returned tt,
    record s { helper = record s.helper { messages = s.helper.messages ++ m ∷ [] } },
  )

  abbrev pop_message : Act State (Unit {0})
  pop_message s =
      (returned tt, record s { helper = record s.helper { messages = pop_back s.helper.messages } })

  -- `MQManager::publish`.
  unfoldable pub publish : Text → Text → Act State (Unit {0})
  publish queue msg s =
      let (o, w) = outside.basic_publish (s.counter % pool_size) queue msg s.world in
      (o, record s { counter = (s.counter + 1) % 2 ^ 64; world = w })

  unfoldable pub push_message_to_mysql : ℤ → Text → Bool → Text → ℕ → Text → Act State (Unit {0})
  push_message_to_mysql user_id user_name is_user user_input ms session_id =
      publish (codes "sql_queue")
        (insert_sql outside.literals user_id user_name is_user user_input ms session_id)

  unfoldable pub add_message : ℤ → Text → Bool → Text → Text → Act State (Unit {0})
  add_message user_id user_name is_user user_input session_id =
      if is_empty user_input then pure tt else (do
        ms ← in_world (call outside.now)
        push_back (user_input, ms)
        push_message_to_mysql user_id user_name is_user user_input ms session_id)

  unfoldable pub restore_message : Text → ℕ → Act State (Unit {0})
  restore_message user_input ms =
      if is_empty user_input then pure tt else push_back (user_input, ms)

  abbrev ready_or_throw : Bool → Act W (Unit {0})
  ready_or_throw true = pure tt
  ready_or_throw false = throw (codes "Failed to initialize curl")

  -- What `executeCurl` makes of the end of the transfer.
  abbrev response_of : Outcome Text → Outcome Json
  response_of (returned buffer) = elim (parse buffer) [
    | returned j ↦ returned j
    | threw what ↦
        threw
          (codes "Failed to parse JSON response: " ++ (what ++ (10 ∷ codes "Response: " ++ buffer)))
    | aborted ↦ aborted
  ]
  response_of (threw what) = threw (codes "curl_easy_perform() failed: " ++ what)
  response_of aborted = aborted

  abbrev posted : Text → Text → Text → Act W Json
  posted url authorization payload w =
      let (o, w') = outside.post url authorization payload w in (response_of o, w')

  unfoldable pub execute_curl : Strategy Json → Json → Act State Json
  execute_curl strat payload = in_world (do
    ready ← call outside.curl_init
    ready_or_throw ready
    shown ← lift strat.get_api_url
    text ← lift (dump payload)
    url ← lift strat.get_api_url
    posted url (codes "Authorization: Bearer " ++ strat.get_api_key) text)

  -- One request: the strategy's text of the response.
  abbrev ask : Strategy Json → Act State Text
  ask strat s =
      (do
        response ← execute_curl strat (strat.build_request s.helper.messages)
        lift (strat.parse_response response))
        s

  module _ (user_id : ℤ) (user_name session_id question : Text) where
    abbrev add_user : Act State (Unit {0})
    add_user = add_message user_id user_name true question session_id

    abbrev add_answer : Text → Act State (Unit {0})
    add_answer answer = add_message user_id user_name false answer session_id

    -- The `try` block of a model that is no MCP model.
    unfoldable pub plain_answer : Strategy Json → Act State Text
    plain_answer strat = do
      answer ← ask strat
      add_answer answer
      pure (if is_empty answer then utf8 (codes "[Error] 无法解析响应") else answer)

    unfoldable pub plain_chat : Strategy Json → Act State Text
    plain_chat strat = do
      add_user
      try (plain_answer strat) (λ what. pure (utf8 (codes "[Error] AI调用失败: ") ++ what))

    -- A request with a prompt that stands among the messages for its time only.
    unfoldable pub ask_prompt : Strategy Json → Text → Act State Text
    ask_prompt strat prompt = do
      ms ← in_world (call outside.now)
      push_back (prompt, ms)
      answer ← ask strat
      pop_message
      pure answer

    -- The question and an answer go to the history.
    unfoldable pub keep : Text → Act State Text
    keep answer = do add_user; add_answer answer; pure answer

    abbrev after_tool : Strategy Json → AiToolCall Json → Outcome Json → Act State Text
    after_tool strat c (returned result) = do
      prompt ← lift (build_tool_result_prompt api question c.tool_name c.args result)
      answer ← ask_prompt strat prompt
      keep answer
    after_tool strat c (threw what) = keep (utf8 (codes "[工具调用失败] ") ++ what)
    after_tool strat c aborted = lift aborted

    unfoldable pub call_tool : Strategy Json → AiToolCall Json → Act State Text
    call_tool strat c s =
        let (o, w) = invoke api outside (new_registry api outside) c.tool_name c.args s.world in
        after_tool strat c o (record s { world = w })

    abbrev with_call : Strategy Json → Text → AiToolCall Json → Act State Text
    with_call strat answer c = if c.is_tool_call then call_tool strat c else keep answer

    unfoldable pub mcp_answer : Strategy Json → Option AiConfig → Act State Text
    mcp_answer strat none = pure (utf8 (codes "[Error] 无法加载MCP配置文件"))
    mcp_answer strat (some config) = do
      answer ← ask_prompt strat (build_prompt arrange replace question config)
      c ← lift (parse_ai_response api answer)
      with_call strat answer c

    -- The `try` block of an MCP model.
    unfoldable pub mcp_steps : Strategy Json → Act State Text
    mcp_steps strat = do
      file ← in_world (call outside.config_file)
      config ← lift (load_from_file api file)
      mcp_answer strat config

    unfoldable pub mcp_chat : Strategy Json → Act State Text
    mcp_chat strat = try (mcp_steps strat) (λ what. pure (utf8 (codes "[Error] MCP处理失败: ") ++ what))

    abbrev chat_by : Bool → Strategy Json → Act State Text
    chat_by true strat = mcp_chat strat
    chat_by false strat = plain_chat strat

    abbrev chat_with : Outcome (Strategy Json) → Act State Text
    chat_with (returned strat) = do set_strategy strat; chat_by strat.is_mcp_model strat
    chat_with (threw what) = pure (utf8 (codes "[Error] 策略创建失败: ") ++ what)
    chat_with aborted = lift aborted

    unfoldable pub chat : Text → Act State Text
    chat model_type =
        if is_empty question
        then pure (utf8 (codes "[Error] 用户问题不能为空"))
        else chat_with (create api (registered api) model_type outside.env)
