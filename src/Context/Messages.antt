-- ===== src/Context/Messages.antt =====
-- The messages of a conversation, of langchain_core, and JSON values, as far as
-- src/shared/runtime/core and src/shared/runtime/execution/structured_tool_loop.py look into them.
use multiagents.Prelude.{
  Bool, true, false, ◌||◌, Option, none, some, List, String, str_eq, if◌then◌else◌,
}

-- A value that `json.loads` makes. A number is kept as its `str`.
mutual
  pub data Json : Type 0 where
    null : Json
    boolean : Bool → Json
    number : String → Json
    str : String → Json
    list : JsonList → Json
    dict : JsonDict → Json

  pub data JsonList : Type 0 where
    no_items : JsonList
    item : Json → JsonList → JsonList

  pub data JsonDict : Type 0 where
    no_entries : JsonDict
    entry : String → Json → JsonDict → JsonDict

-- `payload.get(key)`
unfoldable pub dict_get : String → JsonDict → Option Json
dict_get key no_entries = none
dict_get key (entry k v rest) =
    let found = dict_get key rest in if str_eq k key then some v else found

-- `str(value or "")`, where `show` is `str` of what is no text
unfoldable pub or_text : (Json → String) → Option Json → String
or_text show none = ""
or_text show (some null) = ""
or_text show (some (boolean false)) = ""
or_text show (some (boolean true)) = "True"
or_text show (some (number n)) = if str_eq n "0" || str_eq n "0.0" || str_eq n "-0.0" then "" else n
or_text show (some (str s)) = s
or_text show (some (list no_items)) = ""
or_text show (some (list (item x l))) = show (list (item x l))
or_text show (some (dict no_entries)) = ""
or_text show (some (dict (entry k v d))) = show (dict (entry k v d))

-- a string, or a list of blocks
pub data Content : Type 0 where
  text : String → Content
  blocks : JsonList → Content

-- What stands in `tool_calls`; the arguments are `none` where they are no dict.
pub data ToolCall : Type 0 where
  call_not_dict : ToolCall
  call : String → String → Option JsonDict → ToolCall

-- The `args` of an entry of `invalid_tool_calls`.
pub data RawArgs : Type 0 where
  dict_args : JsonDict → RawArgs
  text_args : String → RawArgs
  other_args : RawArgs

-- What stands in `invalid_tool_calls`, with its `id` and `name`.
pub data InvalidCall : Type 0 where
  invalid_not_dict : InvalidCall
  invalid_call : String → String → RawArgs → InvalidCall

pub record AiMessage : Type 0 where
  pub content : Content
  pub tool_calls : List ToolCall
  pub invalid_tool_calls : List InvalidCall

pub record ToolMessage : Type 0 where
  pub content : String
  pub tool_call_id : String
  pub name : Option String
  pub status : String

pub data Message : Type 0 where
  system : String → Message
  human : String → Message
  ai : AiMessage → Message
  tool : ToolMessage → Message
