-- ===== src/Lib.antt =====
-- casdoor-aiguard is a policy enforcement point for AI agents. Its proxy reads each HTTP request of an
-- agent, recognizes what the agent intends, rules on that by a local policy or asks Casdoor, and then
-- forwards or refuses the request and records an event. Beside the proxy, agents that are patched ask
-- for a verdict on each operation, which the enabled Casbin policy sets give, and report what they do
-- as records; a person may correct the verdict of a record. A web UI reads and changes the settings.
--
-- Files, and the code each is about:
--   * Common and below: what the other modules share: tests on numbers, lists, byte strings with Go's
--     `strings` functions, maps as association lists, stable sorting.
--   * Float, Json, Http: what the program uses of Go's float64, of encoding/json and of net/http.
--   * Intent, Recognizers: recognizers/recognizer.go, registry.go, mcp.go, payment.go, llm.go;
--     Recognizers/Registry, ToolCalls, Payments and Prompts: what they answer.
--   * Policy: object/policy.go. Event: object/event.go; Event/Capture: the capture buffer of
--     proxy/http_handler.go. Pdp: casdoorclient/client.go.
--   * Proxy: `Default` of recognizers/registry.go; Proxy/Decision: proxy/decision.go; Proxy/Serve:
--     `serveOneRequest` and `forwardRequest` of proxy/http_handler.go; Proxy/Laws: what both guarantee.
--   * Settings: object/settings.go, with its laws in Settings/Active, Settings/Providers and
--     Settings/Update.
--   * PolicyHub: object/policyhub.go; PolicyHub/Gate and PolicyHub/Toggle: controllers/policyhub.go.
--   * Enforce: object/enforce.go; Enforce/State: the same with object/policyset_state.go;
--     Enforce/Cache and Enforce/Verdict: what they guarantee; Enforce/Endpoint:
--     controllers/enforce.go.
--   * Record: object/record.go; Record/Store and Record/Sessions: object/record_store.go; Record/Laws,
--     Record/Corrections and the modules below Record/Sessions: what they guarantee.
--   * SelfLearn: object/selflearn.go, with the patterns' laws in SelfLearn/Literals;
--     SelfLearn/Feedback: controllers/selflearn.go, with its laws below.
--   * Patch/CodexToml: patch/codex_toml.go: Scan (the lexing of a line), Lines, Document
--     (`parseCodexTOML`), Value (`replaceTOMLValue`), Edit (`apply`), Verify (`editCodexTOML` and its
--     checks); Located, Whole, Kept, Edited and Said: what they guarantee.
--   * Patch/State: patch/state.go: Os (the calls to the operating system), Journal; Undone and
--     Restored: what a rollback and a revert bring back.
--   * Patch/ClaudeCode: patch/claude_code.go: Handlers, Install, Remove and Status; Flat, Installed,
--     Events, Removed and Active: what they guarantee.
--   * McpServer: mcpserver: Protocol (protocol.go and the answer to one request), Serve (`Serve`),
--     Reporter (the queue of records); Answers, Served, Quiet and Posted: what they guarantee.
--   * Files: util/atomicfile.go and fileowner_unix.go; Files/Atomic: what a write leaves.
--   * Patch/CodexLlm: patch/codex_llm.go: Update (`updateCodexLLMConfig`), Provider (`ApplyProvider` and
--     `ClearProvider`); Switched and Pointed: what they guarantee.
--   * Sanitize: auditutil/sanitize.go, with the redaction's laws in Sanitize/Redaction, MCP tool
--     names in Sanitize/ToolNames and sensitive files in Sanitize/Files; Sanitize/Writes: what is
--     recorded of a write.
--   * Tests: the theorems at concrete inputs.
--
-- A string is the list of its bytes. State is passed and returned explicitly: the PDP client's token
-- cache (`Client`), the enforcer's cache and enabled sets (`EnforceState`), the record table (`Table`),
-- the settings in memory and on disk (`Store`). A mutex makes each operation one step, so an operation
-- is one function from state to state. The enabled sets are an exception: `SetPolicySetEnabled` writes
-- their file behind the unlock, so what is said of a toggle is of toggles that do not
-- overlap. A function that acts on sockets and logs returns the list of its effects, in order. Every
-- loop of the modelled code runs over a list and is structural recursion, so no fuel is needed; where
-- an index jumps ahead (past a string of a TOML line, past the lines of a value), the recursion carries
-- how much it has still to pass over. A patcher is a tree of the calls that it makes, each with what it
-- does at each outcome.
--
-- Parameters: the JSON parser and serializer (`unmarshal` : bytes to a value, none on an error), the
-- HTTP exchanges with Casdoor and with the upstream (`Network`, `Upstream`, with the dial's failure),
-- Casbin, the errors of the database (`DbErrors`), the file system's answers (`HubFile`, `FailedWrite`
-- with what a write that fails leaves, `Os`, `Outcomes`, `Calls`), go-toml's parser, the clock, in
-- nanoseconds for a token, and fresh ids, time parsing, `%q`, the redaction of texts by regular
-- expressions. `Dict` keeps a map's keys in the order of insertion where Go leaves the order open; the
-- modelled code sorts them, or only looks keys up. In the record table an insert of a known id fails, as the primary key makes
-- it, and may fail for any other reason. Lower case and case folding (`lower_text`,
-- `equal_fold`) are Go's in a comparison with a text of ASCII, such as a field's name or an agent's id:
-- of the letters beyond ASCII they read those that fold into it. The database's LOWER folds ASCII alone
-- (`to_lower`).
--
-- Not modelled: certificates, sockets, packet redirection and process lookup (proxy, localserver), the
-- configuration and the database (conf, util/env.go, object/store.go), the scan for installed agents
-- (agent), the other patchers (patch), their hooks and monitors (agenthook, agentmonitor), the flags
-- of the MCP server (mcpserver), the web endpoints but those for a verdict, for a policy set's toggle
-- and for learned rules (controllers, routers, auth), the text of the generated policy set
-- (object/selflearn.go, object/employee.go), the reads of sensitive files and the bounded encoding of
-- auditutil, and the web UI (web).
pub mod Common
pub mod Files
pub mod Float
pub mod Json
pub mod Intent
pub mod Policy
pub mod Settings
pub mod Http
pub mod Event
pub mod Pdp
pub mod Recognizers
pub mod Proxy
pub mod PolicyHub
pub mod Enforce
pub mod Record
pub mod SelfLearn
pub mod Sanitize
pub mod Patch
pub mod McpServer
pub mod Tests
