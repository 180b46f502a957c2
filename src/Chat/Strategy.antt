-- ===== src/Chat/Strategy.antt =====
-- AIApps/ChatServer/*/AIUtil/AIStrategy.* and AIFactory.*: the services that answer, and the table of
-- their names. A message is its text with its time; `env` is what `std::getenv` reads.
use cyclone_httpserver.Common.{
  ℕ, ◌+◌, ◌%◌, Bool, true, false, Option, none, some, List, [], ◌∷◌, ◌++◌, if◌then◌else◌, ◌==◌,
}
use cyclone_httpserver.Common.Bytes.{Text, codes}
use cyclone_httpserver.Common.Dict.{Dict, lookup, assign}
use cyclone_httpserver.Chat.{Outcome, returned, threw, aborted, JsonApi}

abbrev pub Message : Type 0
Message = Text × ℕ

-- What an object of a class derived from AIStrategy answers.
pub record Strategy (Json : Type 0) : Type 0 where
  pub get_api_url : Outcome Text
  pub get_api_key : Text
  pub get_model : Text
  pub is_mcp_model : Bool
  pub build_request : List Message → Json
  pub parse_response : Json → Outcome Text

abbrev pub Env : Type 0
Env = Text → Option Text

-- The message at an even index is the user's.
abbrev pub role_of : ℕ → Text
role_of i = if i % 2 == 0 then codes "user" else codes "assistant"

abbrev then_read : {A B : Type 0} → Outcome A → (A → Outcome B) → Outcome B
then_read (returned a) f = f a
then_read (threw what) f = threw what
then_read aborted f = aborted

module _ (api : JsonApi) where
  open api use {Json, string, array, object, contains, holds_nothing, at_key, at_index, get_string}

  -- The loop of `buildRequest`, from an index on.
  unfoldable pub request_loop : ℕ → List Message → List Json
  request_loop i [] = []
  request_loop i ((content, ms) ∷ messages) =
      object ((codes "role", string (role_of i)) ∷ (codes "content", string content) ∷ [])
      ∷ request_loop (i + 1) messages

  -- `buildRequest` of all classes but AliyunRAGStrategy.
  unfoldable pub build_request : Text → List Message → Json
  build_request model messages =
      object
        ((codes "model", string model) ∷ (codes "messages", array (request_loop 0 messages)) ∷ [])

  unfoldable pub build_rag_request : List Message → Json
  build_rag_request messages = object (
      (codes "input", object ((codes "messages", array (request_loop 0 messages)) ∷ []))
      ∷ (codes "parameters", object [])
      ∷ [])

  -- `response["choices"][0]["message"]["content"]`, if there are choices.
  unfoldable pub parse_response : Json → Outcome Text
  parse_response response =
      if contains (codes "choices") response
      then then_read (at_key (codes "choices") response) (λ choices.
        if holds_nothing choices
        then returned []
        else then_read (at_index 0 choices) (λ choice.
          then_read (at_key (codes "message") choice)
            (λ message. then_read (at_key (codes "content") message) get_string)))
      else returned []

  unfoldable pub parse_rag_response : Json → Outcome Text
  parse_rag_response response =
      if contains (codes "output") response
      then then_read (at_key (codes "output") response) (λ output.
        if contains (codes "text") output
        then then_read (at_key (codes "text") output) get_string
        else returned [])
      else returned []

  -- The constructors; a key that is not set is an exception.
  abbrev with_key : Text → Option Text → (Text → Strategy Json) → Outcome (Strategy Json)
  with_key missing none make = threw missing
  with_key missing (some key) make = returned (make key)

  unfoldable pub aliyun_strategy : Env → Outcome (Strategy Json)
  aliyun_strategy env =
      with_key (codes "Aliyun API Key not found!") (env (codes "DASHSCOPE_API_KEY")) (λ key.
        record {
          get_api_url =
              returned (codes "https://dashscope.aliyuncs.com/compatible-mode/v1/chat/completions");
          get_api_key = key;
          get_model = codes "qwen-plus";
          is_mcp_model = false;
          build_request = build_request (codes "qwen-plus");
          parse_response = parse_response;
        })

  unfoldable pub dou_bao_strategy : Env → Outcome (Strategy Json)
  dou_bao_strategy env =
      with_key (codes "DOUBAO API Key not found!") (env (codes "DOUBAO_API_KEY")) (λ key. record {
        get_api_url = returned (codes "https://ark.cn-beijing.volces.com/api/v3/chat/completions");
        get_api_key = key;
        get_model = codes "doubao-seed-1-6-thinking-250715";
        is_mcp_model = false;
        build_request = build_request (codes "doubao-seed-1-6-thinking-250715");
        parse_response = parse_response;
      })

  abbrev rag_url : Option Text → Outcome Text
  rag_url none = threw (codes "Knowledge_Base_ID not found!")
  rag_url (some id) =
      returned (codes "https://dashscope.aliyuncs.com/api/v1/apps/" ++ (id ++ codes "/completion"))

  unfoldable pub aliyun_rag_strategy : Env → Outcome (Strategy Json)
  aliyun_rag_strategy env =
      with_key (codes "Aliyun API Key not found!") (env (codes "DASHSCOPE_API_KEY")) (λ key.
        record {
          get_api_url = rag_url (env (codes "Knowledge_Base_ID"));
          get_api_key = key;
          get_model = [];
          is_mcp_model = false;
          build_request = build_rag_request;
          parse_response = parse_rag_response;
        })

  unfoldable pub aliyun_mcp_strategy : Env → Outcome (Strategy Json)
  aliyun_mcp_strategy env =
      with_key (codes "Aliyun API Key not found!") (env (codes "DASHSCOPE_API_KEY")) (λ key.
        record {
          get_api_url =
              returned (codes "https://dashscope.aliyuncs.com/compatible-mode/v1/chat/completions");
          get_api_key = key;
          get_model = codes "qwen-plus";
          is_mcp_model = true;
          build_request = build_request (codes "qwen-plus");
          parse_response = parse_response;
        })

  abbrev pub Creator : Type 0
  Creator = Env → Outcome (Strategy Json)

  -- `registerStrategy`, on `creators`.
  unfoldable pub register_strategy : Text → Creator → Dict Creator → Dict Creator
  register_strategy name creator creators = assign name creator creators

  abbrev created : Text → Option Creator → Env → Outcome (Strategy Json)
  created name none env = threw (codes "Unknown strategy: " ++ name)
  created name (some creator) env = creator env

  -- `StrategyFactory::create`.
  unfoldable pub create : Dict Creator → Text → Env → Outcome (Strategy Json)
  create creators name env = created name (lookup name creators) env

  -- `creators` after the constructors of the four static StrategyRegister objects.
  unfoldable pub registered : Dict Creator
  registered = register_strategy (codes "4") aliyun_mcp_strategy (
      register_strategy (codes "3") aliyun_rag_strategy (
        register_strategy (codes "2") dou_bao_strategy
          (register_strategy (codes "1") aliyun_strategy [])))
