-- ===== src/Lib.antt =====
-- Verification of Capability Gate, the MCP broker that lets a client call only the commands and upstream
-- MCP tools that an administrator has configured. The pure core of the program is crates/core/src/lib.rs:
-- it compiles the JSON schema of each tool, validates the input of a call against it, and resolves the
-- call to a fixed command line. crates/boundary reads requests, keeps catalogs of the upstream tools and
-- answers the requests; crates/runtime starts the processes. Both call the core.
--
-- Which file models which part of crates/core/src/lib.rs:
--   Prelude, Prelude/*      results, sorted maps (BTreeMap and serde_json's Map), texts and integers
--   Json                    serde_json's Value; an object is its entries in key order
--   Json/Numbers            serde_json's Number: an integer, or an f64 given exactly as num / 2 ^ shift
--   Json/Order              numeric_value, compare_integer_float, numeric_compare
--   Json/Equal              schema_values_equal
--   Json/Limits             value_exceeds_depth, contains_nul, canonicalize
--   Pointer                 escape_ptr, decode_ptr
--   Diagnostics             BrokerErrorCode, Diagnostic, ValidationIssue, the size limits
--   Schema                  SchemaKind, CompiledSchema
--   Schema/Keywords         validate_schema_keyword_applicability, schema_value_compatible, usize_value,
--                           numeric_bound
--   Schema/Compile          compile_schema, compile_schema_permissive, compile_schema_impl
--   Schema/Validate         validate_value, validate_input
--   Config                  the validated configuration and the resolved invocations
--   Config/Checks           validate_id, absolute_path, validate_limits, validate_environment and others
--   Config/Rules            validate_restriction_constraint, validate_v3_property_rules
--   Raw                     RawConfig and the structures in it
--   Raw/Targets, Raw/Tools, Raw/ExposuresV2, Raw/ExposuresV3
--                           the loops of validate_raw
--   Raw/Validate            validate_raw, parse_config
--   Faults                  how a resolution ends: a diagnostic, or a panic of an unwrap or an index
--   Binding                 schema_at_pointer, compile_bindings, value_at, value_to_arg, resolve_cli
--   Binding/Mcp             compile_mcp_bindings, resolve_mcp_binding, resolve_mcp
--   Exposure/Intersect      intersect_property_schema
--   Exposure/Project        derive_v3_public_tool
--   Exposure/V3             resolve_v3_mcp
--   Exposure/V2             resolve_v2_mcp
--   Exposure/Restrict       derive_restricted_public_tool, restricted_compatibility
--   Config/Listing          tools_json
--   Exposure/Sealed         the derivation of a public tool and the resolution of its calls together
--
-- Which file models which part of crates/boundary/src:
--   Boundary/Framing        read_bounded_message of main.rs
--   Boundary/Limits         request_within_limits of main.rs
--   Boundary/Envelope       validate_envelope, validate_params of main.rs
--   Boundary/Messages       the messages that main.rs writes
--   Boundary/Handler        handle_request of main.rs, with Handler/Call and Handler/Request
--   Boundary/Serve          serve_stdio of main.rs: the passes of its loop, and the tasks that it spawns, as
--                           steps in any order
--   Catalog/Outside         what the catalogs and the handler ask of the world
--   Catalog/V2Operations    the operations of v2_catalog.rs that the handler uses
--   Catalog/V2              v2_catalog.rs, with its refreshes in Catalog/V2/Refresh
--   Catalog/Files           catalog_cache.rs and upstream_definition_cache.rs: Files/Snapshots,
--                           Files/Definitions, and sha256_hex in Files/Digest
--   Catalog/V3              v3_catalog.rs, with its refreshes in Catalog/V3/Refresh
--
-- Which file models which part of crates/runtime/src/lib.rs:
--   Runtime                 McpCallError, map_mcp_call_error
--   Runtime/Results         adapt_result, bounded_json
--   Runtime/Wire            read_message, read_reply
--   Runtime/Session         send_message, and the pages of McpSession::list_tools
--
-- Conventions. A `Result<T, Diagnostic>` is a value of `Checked T`; the `?` operator is the bind of a do
-- block. A panic of an `unwrap` is the value `panicked` of `Fault`. A loop that pushes to a vector or
-- returns early is a recursion. `compile_schema_impl`, `compile_mcp_binding` and `value_exceeds_depth`
-- count `depth` up to a limit of 32; the models recurse on the levels that are left, 33 - depth, and stop
-- with the source's own answer when none is left, so no other bound is put on them. sha256_hex takes 64
-- rounds for its zeros, which are at most 63. Texts are native strings; `s.len()` is
-- the number of UTF-8 bytes and `chars().count()` the number of characters.
--
-- Parameters. The regex crate is a record of two functions (whether a pattern compiles within its size
-- limit, and whether it matches a text), and the decimal form that serde_json gives a number that is not
-- zero is a function. No theorem assumes anything of them. The YAML reader is a function from bytes to a raw
-- configuration or a message; a BTreeMap that it returns has no key twice, which its type guarantees.
-- The JSON reader of a request and the decoding of an upstream message are functions from bytes to a value or
-- none, and the cache files that the version-2 catalog is given are a record of two functions; no theorem
-- assumes anything of them. The theorems on storing and loading assume of the file system that a file holds
-- the bytes after a successful rename and is otherwise unchanged, and of serde_json that it reads back the
-- value that was written. What the cancellation of the broker changes is a function on the world; the
-- theorem on what is executed assumes that it keeps the property of the world.
--
-- Not modelled: parsing of configuration texts and requests (serde_json, serde); in crates/boundary the
-- opening of the configuration file, the command line, signals and the debug log; in crates/runtime the
-- commands and processes, their timers, the reader of stderr, the slots of admission, and how a session is
-- negotiated and ended. Boundary/Serve runs the tasks of the
-- requests in any order, each in one step; what other tasks do between two awaits of a request is not
-- modelled, nor is the failure of a write. The world may answer a request anything.
pub mod Prelude
pub mod Json
pub mod Pointer
pub mod Diagnostics
pub mod Runtime
pub mod Schema
pub mod Config
pub mod Faults
pub mod Binding
pub mod Exposure
pub mod Raw
pub mod Catalog
pub mod Boundary
pub mod Tests
