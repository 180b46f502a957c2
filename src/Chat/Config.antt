-- ===== src/Chat/Config.antt =====
-- AIApps/ChatServer/*/AIUtil/AIConfig.*: the template of the prompts with the tools that it offers, and
-- the calls of tools in an answer. `arrange` is the order in which an `std::unordered_map` is gone
-- through, and `replace` is `std::regex_replace` of a text, a pattern and a replacement.
use cyclone_httpserver.Common.{
  Bool, true, false, Option, none, some, List, [], ◌∷◌, ◌++◌, if◌then◌else◌,
}
use cyclone_httpserver.Common.Bytes.{Text, codes}
use cyclone_httpserver.Common.Dict.{Dict, assign}
use cyclone_httpserver.Chat.{Outcome, returned, threw, aborted, JsonApi, utf8}

pub record AiTool : Type 0 where
  pub name : Text
  pub params : Dict Text
  pub desc : Text

pub record AiToolCall (Json : Type 0) : Type 0 where
  pub tool_name : Text
  pub args : Json
  pub is_tool_call : Bool

pub record AiConfig : Type 0 where
  pub prompt_template : Text
  pub tools : List AiTool

abbrev pub then_read : {A B : Type 0} → Outcome A → (A → Outcome B) → Outcome B
then_read (returned a) f = f a
then_read (threw what) f = threw what
then_read aborted f = aborted

abbrev no_tool : {A : Type 0} → Outcome A → A → Outcome A
no_tool (threw what) a = returned a
no_tool o a = o

-- The loop over the parameters of a tool in `buildToolList`.
unfoldable pub list_params : Bool → Dict Text → Text
list_params first [] = []
list_params first ((key, desc) ∷ params) =
    (if first then [] else codes ", ") ++ (key ++ list_params false params)

unfoldable pub build_tool_list : (Dict Text → Dict Text) → List AiTool → Text
build_tool_list arrange [] = []
build_tool_list arrange (t ∷ tools) =
    t.name
    ++ (codes "("
        ++ (list_params true (arrange t.params)
            ++ (utf8 (codes ") ¡ú ") ++ (t.desc ++ 10 ∷ build_tool_list arrange tools))))

unfoldable pub build_prompt :
    (Dict Text → Dict Text) → (Text → Text → Text → Text) → Text → AiConfig → Text
build_prompt arrange replace user_input config =
    replace (replace config.prompt_template (codes "\\{user_input\\}") user_input)
      (codes "\\{tool_list\\}") (build_tool_list arrange config.tools)

module _ (api : JsonApi) where
  open api use {
    Json, null, contains, is_string, is_object, is_array, at_key, get_string, value, elements,
    items, parse, dump, dump_indented,
  }

  -- The loop over the items of `params`.
  unfoldable pub read_params : Dict Json → Dict Text → Outcome (Dict Text)
  read_params [] params = returned params
  read_params ((key, val) ∷ rest) params =
      then_read (get_string val) (λ v. read_params rest (assign key v params))

  unfoldable pub read_tool : Json → Outcome AiTool
  read_tool tool = then_read (value (codes "name") tool) (λ name.
      then_read (value (codes "desc") tool) (λ desc.
        if contains (codes "params") tool
        then then_read (at_key (codes "params") tool) (λ params.
          if is_object params
          then then_read (read_params (items params) [])
              (λ ps. returned (record { name = name; params = ps; desc = desc }))
          else returned (record { name = name; params = []; desc = desc }))
        else returned (record { name = name; params = []; desc = desc })))

  unfoldable pub read_tools : List Json → Outcome (List AiTool)
  read_tools [] = returned []
  read_tools (tool ∷ rest) =
      then_read (read_tool tool) (λ t. then_read (read_tools rest) (λ ts. returned (t ∷ ts)))

  abbrev with_tools : Text → Outcome (List AiTool) → Outcome (Option AiConfig)
  with_tools template tools =
      then_read tools (λ ts. returned (some (record { prompt_template = template; tools = ts })))

  -- `loadFromFile` of a new object: the object, or none where it returns false.
  unfoldable pub load_from_file : Option (Outcome Json) → Outcome (Option AiConfig)
  load_from_file none = returned none
  load_from_file (some read) = then_read read (λ j.
      if contains (codes "prompt_template") j
      then then_read (at_key (codes "prompt_template") j) (λ template.
        if is_string template
        then then_read (get_string template) (λ text.
          if contains (codes "tools") j
          then then_read (at_key (codes "tools") j) (λ tools.
            with_tools text (if is_array tools then read_tools (elements tools) else returned []))
          else with_tools text (returned []))
        else returned none)
      else returned none)

  abbrev plain_answer : AiToolCall Json
  plain_answer = record { tool_name = []; args = null; is_tool_call = false }

  abbrev tool_call : Text → Json → AiToolCall Json
  tool_call name args = record { tool_name = name; args = args; is_tool_call = true }

  -- The `try` block of `parseAIResponse`.
  unfoldable pub read_call : Text → Outcome (AiToolCall Json)
  read_call response = then_read (parse response) (λ j.
      if contains (codes "tool") j
      then then_read (at_key (codes "tool") j) (λ tool.
        if is_string tool
        then then_read (get_string tool) (λ name.
          if contains (codes "args") j
          then then_read (at_key (codes "args") j)
              (λ args. returned (tool_call name (if is_object args then args else null)))
          else returned (tool_call name null))
        else returned plain_answer)
      else returned plain_answer)

  unfoldable pub parse_ai_response : Text → Outcome (AiToolCall Json)
  parse_ai_response response = no_tool (read_call response) plain_answer

  unfoldable pub build_tool_result_prompt : Text → Text → Json → Json → Outcome Text
  build_tool_result_prompt user_input tool_name tool_args tool_result =
      then_read (dump tool_args) (λ args. then_read (dump_indented tool_result) (λ result.
        returned (
          utf8 (codes "下面是用户说的话：")
          ++ (user_input
              ++ (10 ∷ utf8 (codes "我刚才调用了工具 [")
                  ++ (tool_name
                      ++ (utf8 (codes "] ，参数为：")
                          ++ (args
                              ++ (10 ∷ utf8 (codes "工具返回的结果如下：")
                                  ++ (10 ∷ result
                                      ++ (10 ∷ utf8 (codes "请根据以上信息，用自然语言回答用户。"))))))))))))
