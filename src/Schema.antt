-- ===== src/Schema.antt =====
-- The closed schema language of crates/core/src/lib.rs: `SchemaKind` and `CompiledSchema`. The parts of a
-- compiled schema that hold schemas, `properties` and `items`, are types of their own.
pub mod Regex
pub mod Keywords
pub mod Compile
pub mod Validate
use agent_capability_gate.Prelude.{
  ℕ, String, Bool, true, false, Option, none, some, List, [], ◌∷◌, Map,
}
use agent_capability_gate.Json.{Value}
use agent_capability_gate.Json.Numbers.{Number}

pub data SchemaKind : Type 0 where
  an_object an_array a_string an_integer a_number a_boolean a_null : SchemaKind

abbrev pub is_object_kind : SchemaKind → Bool
is_object_kind an_object = true
is_object_kind _ = false

abbrev pub is_array_kind : SchemaKind → Bool
is_array_kind an_array = true
is_array_kind _ = false

abbrev pub is_string_kind : SchemaKind → Bool
is_string_kind a_string = true
is_string_kind _ = false

abbrev pub is_integer_kind : SchemaKind → Bool
is_integer_kind an_integer = true
is_integer_kind _ = false

abbrev pub is_numeric_kind : SchemaKind → Bool
is_numeric_kind an_integer = true
is_numeric_kind a_number = true
is_numeric_kind _ = false

-- The name that `{:?}` prints.
abbrev pub kind_name : SchemaKind → String
kind_name an_object = "Object"
kind_name an_array = "Array"
kind_name a_string = "String"
kind_name an_integer = "Integer"
kind_name a_number = "Number"
kind_name a_boolean = "Boolean"
kind_name a_null = "Null"

-- The fields of `CompiledSchema` that hold no schema. `pattern` is the text of the compiled regex.
pub record SchemaNode : Type 0 where
  pub kind : SchemaKind
  pub required : List String
  pub min_items : Option ℕ
  pub max_items : Option ℕ
  pub unique_items : Bool
  pub min_length : Option ℕ
  pub max_length : Option ℕ
  pub minimum : Option Number
  pub maximum : Option Number
  pub enum_values : List Value
  pub pattern : Option String
  pub public_json : Value

mutual
  pub data CompiledSchema : Type 0 where
    schema : SchemaNode → SchemaProperties → SchemaItems → CompiledSchema

  pub data SchemaProperties : Type 0 where
    no_property : SchemaProperties
    property : String → CompiledSchema → SchemaProperties → SchemaProperties

  pub data SchemaItems : Type 0 where
    no_items : SchemaItems
    each_item : CompiledSchema → SchemaItems

abbrev pub node_of : CompiledSchema → SchemaNode
node_of (schema n ps is) = n

abbrev pub kind_of : CompiledSchema → SchemaKind
kind_of s = (node_of s).kind

abbrev pub properties_list : SchemaProperties → Map CompiledSchema
properties_list no_property = []
properties_list (property k s ps) = (k, s) ∷ properties_list ps

abbrev pub properties_of : CompiledSchema → Map CompiledSchema
properties_of (schema n ps is) = properties_list ps

abbrev pub items_schema : SchemaItems → Option CompiledSchema
items_schema no_items = none
items_schema (each_item s) = some s

abbrev pub items_of : CompiledSchema → Option CompiledSchema
items_of (schema n ps is) = items_schema is
