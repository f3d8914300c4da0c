-- ===== src/Tools.antt =====
-- internal/tools: the allowlist of policy.go and the registry of tool.go. A set of names is a list of
-- which only membership counts.
pub mod Registered
pub mod Executor
pub mod Runs
use xarlatan.Common.{
  ℕ, Bool, true, false, not, ◌||◌, Option, none, some, List, [], ◌∷◌, ◌++◌, map, if◌then◌else◌,
}
use xarlatan.Common.Text.{Text, codes, is_empty, text_eq}

unfoldable pub contains : List Text → Text → Bool
contains [] name = false
contains (n ∷ ns) name = text_eq n name || contains ns name

abbrev pub default_allowed_tools : List Text
default_allowed_tools = codes "web_search" ∷ codes "web_fetch" ∷ []

pub record ToolPolicy : Type 0 where
  pub allowed : List Text
  pub allow_all : Bool

-- The loop that enters the names that are not empty.
unfoldable pub add_names : List Text → List Text → List Text
add_names allowed [] = allowed
add_names allowed (name ∷ names) =
    if is_empty name then add_names allowed names else add_names (name ∷ allowed) names

unfoldable pub new_tool_policy : List Text → ToolPolicy
unfolding add_names
new_tool_policy names = record { allowed = add_names [] names; allow_all = false }

unfoldable pub default_tool_policy : ToolPolicy
unfolding new_tool_policy
default_tool_policy = new_tool_policy default_allowed_tools

unfoldable pub allow_all_tool_policy : ToolPolicy
allow_all_tool_policy = record { allowed = []; allow_all = true }

unfoldable pub with_allowed : ToolPolicy → List Text → ToolPolicy
unfolding add_names
with_allowed p names =
    if p.allow_all then p else record { allowed = add_names p.allowed names; allow_all = false }

unfoldable pub allows : ToolPolicy → Text → Bool
unfolding contains
allows p name = p.allow_all || contains p.allowed name

pub record Property : Type 0 where
  pub property_type : Text
  pub description : Text
  pub enum : List Text

pub record ParameterSchema : Type 0 where
  pub schema_type : Text
  pub properties : List (Text × Property)
  pub required : List Text

pub record Result : Type 0 where
  pub content : Text
  pub is_error : Bool

-- The interface `Tool`; arguments are raw JSON, and `execute` may change the world.
pub record Tool (W : Type 0) : Type 0 where
  pub name : Text
  pub description : Text
  pub schema : ParameterSchema
  pub execute : Text → W → W × Result

pub record Definition : Type 0 where
  pub definition_type : Text
  pub name : Text
  pub description : Text
  pub parameters : ParameterSchema

pub record Registry (W : Type 0) : Type 0 where
  pub tools : List (Tool W)
  pub policy : ToolPolicy
  pub denied : List Text

pub data RegisterError : Type 0 where
  tool_denied already_registered : Text → RegisterError

unfoldable pub new_registry : {W : Type 0} → Option ToolPolicy → Registry W
unfolding default_tool_policy
new_registry none = record { tools = []; policy = default_tool_policy; denied = [] }
new_registry (some policy) = record { tools = []; policy = policy; denied = [] }

unfoldable pub find : {W : Type 0} → List (Tool W) → Text → Option (Tool W)
find [] name = none
find (t ∷ ts) name = if text_eq t.name name then some t else find ts name

-- `Get`
unfoldable pub get : {W : Type 0} → Registry W → Text → Option (Tool W)
unfolding find
get r name = find r.tools name

unfoldable pub is_denied : {W : Type 0} → Registry W → Text → Bool
unfolding contains
is_denied r name = contains r.denied name

unfoldable pub register : {W : Type 0} → Registry W → Tool W → Registry W × Option RegisterError
unfolding allows get
register r t =
    if not (allows r.policy t.name)
    then (record r { denied = t.name ∷ r.denied }, some (tool_denied t.name))
    else elim (get r t.name) [
      | some other ↦ (r, some (already_registered t.name))
      | none ↦ (record r { tools = r.tools ++ t ∷ [] }, none)
    ]

unfoldable pub define : {W : Type 0} → Tool W → Definition
define t = record {
  definition_type = codes "function";
  name = t.name;
  description = t.description;
  parameters = t.schema;
}

unfoldable pub definitions : {W : Type 0} → Registry W → List Definition
unfolding define
definitions r = map define r.tools

unfoldable pub names : {W : Type 0} → Registry W → List Text
names r = map (λ t. t.name) r.tools
