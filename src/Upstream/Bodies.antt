-- ===== src/Upstream/Bodies.antt =====
-- The request of the envelope and the JSON values that `ChatBody` of the three dialects makes of it.
-- A `map[string]interface{}` is an object whose members are written in the order of the code; a
-- fragment of JSON is read by the argument `parse`, which is `json.Unmarshal`.
pub mod OpenAi
pub mod Anthropic
pub mod Responses
use claw_proxy_hub_next.Base.{
  ℕ, ◌+◌, ltb, String, str_eq, append, Bool, Option, none, some, List, [], ◌∷◌, GoMap, lookup,
  if◌then◌else◌,
}

-- An integer and a `float64` are the patterns of their bits; a `json.Number` is its text.
mutual
  pub data Json : Type 0 where
    null : Json
    bool : Bool → Json
    integer : ℕ → Json
    double : (bits : ℕ) → Json
    numeral : String → Json
    text : String → Json
    array : Items → Json
    object : Members → Json

  pub data Items : Type 0 where
    nil : Items
    cons : Json → Items → Items

  pub data Members : Type 0 where
    none_more : Members
    member : String → Json → Members → Members

pub record ToolCall : Type 0 where
  pub id : String
  pub name : String
  pub arguments : String

pub record EnvelopeMessage : Type 0 where
  pub role : String
  pub text : String
  pub content_json : String
  pub tool_calls : List ToolCall
  pub tool_call_id : String

pub record ToolDef : Type 0 where
  pub name : String
  pub description : String
  pub parameters_schema : String

pub record ToolChoice : Type 0 where
  pub type : String
  pub tool_name : String

-- `max_tokens` is an `int32`, `temperature` a `double`.
pub record ChatRequest : Type 0 where
  pub model : String
  pub messages : List EnvelopeMessage
  pub tools : List ToolDef
  pub tool_choice : Option ToolChoice
  pub max_tokens : ℕ
  pub temperature : ℕ
  pub extra : GoMap String

-- `m[name] = v`
unfoldable pub put_member : String → Json → Members → Members
put_member name v none_more = member name v none_more
put_member name v (member k w rest) =
    if str_eq k name then member k v rest else member k w (put_member name v rest)

-- A write under a condition.
abbrev pub put_if : Bool → String → Json → Members → Members
put_if c name v m = if c then put_member name v m else m

-- `extra[key]`, where a missing key is empty.
abbrev pub or_empty : Option String → String
or_empty none = ""
or_empty (some s) = s

abbrev pub extra_of : ChatRequest → String → String
extra_of req key = or_empty (lookup key req.extra)

-- `if v, ok := req.Extra[key]; ok && v != ""`
abbrev pub put_extra : (String → Json) → String → String → ChatRequest → Members → Members
put_extra read key name req m =
    let v = extra_of req key in if str_eq v "" then m else put_member name (read v) m

abbrev pub is_empty {ℓ} : {A : Type ℓ} → List A → Bool
is_empty [] = Bool.true
is_empty (x ∷ xs) = Bool.false

abbrev pub items_of {ℓ} : {A : Type ℓ} → (A → Json) → List A → Items
items_of f [] = nil
items_of f (x ∷ xs) = cons (f x) (items_of f xs)

-- A slice that was never appended to is `null`.
abbrev pub array_or_null : Items → Json
array_or_null nil = null
array_or_null (cons x xs) = array (cons x xs)

abbrev pub append_items : Items → Items → Items
append_items nil ys = ys
append_items (cons x xs) ys = cons x (append_items xs ys)

-- `v > 0` of an `int32` and of a `double`
abbrev pub positive32 : ℕ → Bool
positive32 n = if ltb 0 n then ltb n 2147483648 else Bool.false

abbrev pub positive_double : ℕ → Bool
positive_double f = if ltb 0 f then ltb f 9223372036854775808 else Bool.false
