-- ===== src/Config/Listing.antt =====
-- `tools_json` of crates/core/src/lib.rs, and the JSON of a tool's annotations.
use agent_capability_gate.Prelude.{String, Bool, Option, none, some, [], map, Map, insert, values}
use agent_capability_gate.Json.{Value, bool, string, of_map, of_list}
use agent_capability_gate.Schema.{node_of}
use agent_capability_gate.Config.{Annotations, CompiledTool, ValidatedConfig}

-- A field that is left out where there is nothing to put in it.
abbrev insert_some : String → Option Value → Map Value → Map Value
insert_some key none m = m
insert_some key (some v) m = insert key v m

abbrev hint : Option Bool → Option Value
hint none = none
hint (some b) = some (bool b)

abbrev text_of : Option String → Option Value
text_of none = none
text_of (some s) = some (string s)

unfoldable pub annotations_json : Annotations → Value
unfolding insert
annotations_json a = of_map (
    insert_some "readOnlyHint" (hint a.read_only_hint) (
      insert_some "destructiveHint" (hint a.destructive_hint) (
        insert_some "idempotentHint" (hint a.idempotent_hint)
          (insert_some "openWorldHint" (hint a.open_world_hint) []))))

unfoldable pub tool_json : CompiledTool → Value
unfolding insert annotations_json
tool_json tool =
    let named = insert "name" (string tool.name) [] in
    let titled = insert_some "title" (text_of tool.title) named in
    let described = insert_some "description" (text_of tool.description) titled in
    let shaped = insert "inputSchema" (node_of tool.schema).public_json described in
    of_map (insert "annotations" (annotations_json tool.annotations) shaped)

unfoldable pub tools_json : ValidatedConfig → Value
unfolding insert values tool_json
tools_json config = of_map (insert "tools" (of_list (map tool_json (values config.tools))) [])
