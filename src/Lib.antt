-- ===== src/Lib.antt =====
-- The Kubernetes MCP server: a development about its policy, its tools and its HTTP front.
--
-- The program takes tool calls of MCP clients and turns them into calls of the Kubernetes API. A
-- configuration (internal/config) is validated and made into a policy (internal/security). The server
-- (internal/mcpserver) registers the tools that the policy lets through. A tool's handler validates its
-- arguments (internal/rpc), asks the policy, records its target for the audit log (internal/audit) and
-- calls the API; the toolkit (internal/tools) wraps every handler with a slot, the audit line, the
-- capture of panics and the cap on the size of its text.
--
-- Which file models what:
--   Base and its children: the shared names: Boolean tests, lists over native numbers, integers,
--     texts as code points with the case folding that the program uses, maps as association lists.
--   Err: one constructor for each error that the modelled code makes, over the values that it
--     formats; the wording is left out.
--   Config: internal/config/config.go. `validate` returns the configuration that `Validate` leaves
--     and its error. Config/Flags: flags.go and env.go, where a variable of the environment is
--     the default of a flag.
--   Security: internal/security/policy.go, one function for each method of `Policy`.
--   Rpc: internal/rpc/args.go; Rpc/Regex matches its two regular expressions by derivatives.
--     Rpc/Truncate: `TruncateText` of result.go, over any marker; the program's is `omitted_marker`.
--     Rpc/Table: table.go.
--   Kube: the calls that handlers make, as a tree: a handler is a result, or a call and what follows
--     each of its answers. Kube/Objects has the objects that the tools which read are given, one record
--     for each type of the API with the fields that are read, and Kube/Dynamic the values of JSON of the
--     dynamic client. Kube/Rules runs such a tree against any server, and carries the audit record from
--     call to call. Kube/Fixtures is a server for runs on concrete inputs.
--   Tools/Handler: the steps of a handler (guards, the settling of an API error), and
--     internal/tools/errors.go. Tools/Util: util.go and common.go. Tools/Listing: the steps that the
--     tools which read share. Tools/Discovery: discovery.go. Tools/Toolkit: the wrapper of toolkit.go,
--     with its semaphore in Tools/Toolkit/Slots.
--   Audit: internal/audit/audit.go.
--   Core: internal/tools/core. Its parent is core.go; Format: format.go. Health: health.go.
--   Workloads: internal/tools/workloads. Its parent is workloads.go; Format and Controllers: format.go
--     and helpers.go.
--   Network: internal/tools/network. Its parent is network.go; Format and Slices: helpers.go and the
--     rendering of network.go. Connectivity: connectivity.go.
--   Configstore: internal/tools/configstore/configstore.go, the four lists in Configstore/Lists.
--   Troubleshoot: internal/tools/troubleshoot. Findings, Pods, Nodes and Diagnose: diagnose.go. Rollout
--     and History: rollout.go. Logs: logs.go. Top: top.go. Describe: describe.go.
--   Operations: internal/tools/operations. Scale and Undo: scale.go. Meta: the label and annotate
--     tools of scale.go. Resources: resources.go. Manifest: operations.go. Delete: delete.go. Nodes:
--     nodes.go. Calls gathers the tools as one type of calls. Safety and Nodes/Evictions are about the
--     writes of their runs.
--   Debug: internal/tools/debug. Exec: exec.go. Pods: ephemeral.go. Forward: portforward.go, with
--     the interleavings of its counter in Forward/Slots.
--   Server: internal/mcpserver/server.go. Register: the registration, with the names of the tools of
--     every category. ReadCalls and ToolCalls: the calls of the tools by those names. Http: bearer
--     authentication, CORS, TLS and the transport. Oauth: internal/mcpserver/oauth.go.
--   The children called Reads say where the tools of a component read, those called Laws hold the
--     components' other properties, and those called Tests run the definitions on concrete inputs.
--
-- Conventions. A text is the native String where it is compared whole, and its bytes or code points
-- where the code walks it. A check returns `none` for a nil error. A map of Go is an association list;
-- where the code walks a map, the order of the list stands for any order, and where it sorts the keys
-- first they are sorted here. A handler of two results is one outcome: a text, an error result, or a
-- returned error; a dereference of nil or a failed type assertion is the outcome `panics`. The error of
-- a call that the code drops makes its result the empty one. A namespace that is empty is all
-- namespaces, as in the client. An age is the time since a timestamp that is not in the future.
-- sort.Slice may reorder equals; here they keep their order. Recursion is structural, but for the
-- decimal digits of a number n, which take fuel n + 1: a number has no more digits than that. Go's int
-- is not bounded, except by strconv.Atoi, which clamps, and where a percentage is computed in int64.
--
-- Parameters: the environment and the values of the command line, strconv.Atoi and ParseFloat where
-- a variable is parsed, the decoder of YAML manifests and the encoder, time.ParseDuration, the
-- parser of RFC 3339 times, the contents of token and PEM files, the formats of an error and of a
-- duration, SHA-256, the printing of URLs, the addition of quantities, the two limits of the
-- configuration on logs and output, the time that a call takes, and every answer of the API server.
-- Nothing is assumed about them.
--
-- Not modelled: the client library and the API server, the MCP and HTTP libraries, logging and
-- telemetry, tracing, the parsing of the command line, the time-outs of contexts (also the one that
-- ends the following of a log), the names and schemas that the MCP library is told of each tool's
-- arguments, the clients that the tests use, and the command that wires the parts.
pub mod Base
pub mod Err
pub mod Config
pub mod Rpc
pub mod Security
pub mod Kube
pub mod Tools
pub mod Audit
pub mod Configstore
pub mod Operations
pub mod Debug
pub mod Troubleshoot
pub mod Workloads
pub mod Core
pub mod Network
pub mod Server
