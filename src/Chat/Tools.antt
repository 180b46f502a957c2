-- ===== src/Chat/Tools.antt =====
-- AIApps/ChatServer/*/AIUtil/AIToolRegistry.*: the tools that a model may call.
use cyclone_httpserver.Common.{Bool, true, false, Option, none, some, [], ◌∷◌, ◌++◌, if◌then◌else◌}
use cyclone_httpserver.Common.Bytes.{Text, codes}
use cyclone_httpserver.Common.Dict.{Dict, lookup, assign}
use cyclone_httpserver.Chat.{
  Outcome, returned, Act, pure, throw, lift, call, JsonApi, Outside, ◌>>=◌,
}

module _ (api : JsonApi) {W : Type 0} (outside : Outside api.Json W) where
  open api use {Json, string, object, contains, at_key, get_string}

  abbrev error_of : Text → Json
  error_of text = object ((codes "error", string text) ∷ [])

  -- What `getWeather` makes of the end of its request.
  abbrev weather_of : Text → Outcome Text → Json
  weather_of city (returned response) =
      object ((codes "city", string city) ∷ (codes "weather", string response) ∷ [])
  weather_of city _ = error_of (codes "CURL request failed")

  abbrev fetch_weather : Text → Text → Bool → Act W Json
  fetch_weather city encoded false w = (returned (error_of (codes "Failed to init CURL")), w)
  fetch_weather city encoded true w =
      let (o, w') =
        outside.get (codes "https://wttr.in/" ++ (encoded ++ codes "?format=3&lang=zh")) w in
      (returned (weather_of city o), w')

  abbrev ask_weather : Text → Option Text → Act W Json
  ask_weather city none = pure (error_of (codes "URL encode failed"))
  ask_weather city (some encoded) = do
    ready ← call outside.curl_init
    fetch_weather city encoded ready

  unfoldable pub get_weather : Json → Act W Json
  get_weather args =
      if contains (codes "city") args
      then (do
        given ← lift (at_key (codes "city") args)
        city ← lift (get_string given)
        ask_weather city (outside.url_encode city))
      else pure (error_of (codes "Missing parameter: city"))

  unfoldable pub get_time : Json → Act W Json
  get_time args = do
    time ← call outside.local_time
    pure (object ((codes "time", string time) ∷ []))

  abbrev pub ToolFunc : Type 0
  ToolFunc = Json → Act W Json

  -- `registerTool`, on `tools_`.
  unfoldable pub register_tool : Text → ToolFunc → Dict ToolFunc → Dict ToolFunc
  register_tool name func tools = assign name func tools

  -- The constructor.
  unfoldable pub new_registry : Dict ToolFunc
  new_registry =
      register_tool (codes "get_time") get_time (register_tool (codes "get_weather") get_weather [])

  abbrev run_tool : Text → Option ToolFunc → Json → Act W Json
  run_tool name none args = throw (codes "Tool not found: " ++ name)
  run_tool name (some func) args = func args

  unfoldable pub invoke : Dict ToolFunc → Text → Json → Act W Json
  invoke tools name args = run_tool name (lookup name tools) args

  unfoldable pub has_tool : Dict ToolFunc → Text → Bool
  has_tool tools name = elim (lookup name tools) [ none ↦ false | some func ↦ true ]
