-- ===== src/Lib.antt =====
-- DevPlane: a verification library of the workspace operator and its gateway.
--
-- The program. A Workspace resource describes one user's development environment. The operator
-- (main.go, controllers/, pkg/workspace, pkg/security, pkg/observability) turns each Workspace into
-- RBAC objects, network policies, a volume claim, a pod and a service, stops pods that are idle, and
-- reports a status. The gateway (cmd/gateway, pkg/gateway) authenticates users, creates or restarts
-- their Workspaces, waits for them and forwards their connections. The two meet only in the
-- Workspace resource at the Kubernetes API server: the gateway writes specs, the phase and the time
-- of the last access, and the operator everything else.
--
-- The files.
-- - Base and its children: Boolean tests, lists, integers, texts as bytes with the functions of
--   package strings that are used, and errors with what the source asks of them.
-- - Api: the types of api/v1alpha1/workspace_types.go.
-- - Platform: the object types of Kubernetes and the library calls that the program makes, as the
--   parameters of the model: resource.ParseQuantity, time.ParseDuration, json.Marshal, %q,
--   Unicode's lower case, SetControllerReference and SetStatusCondition.
-- - Resources: pkg/workspace/resources.go. Names has the names and labels (PVCName, Labels, ...) and
--   dnsLabelRegex, Build the builders (BuildPVC, BuildPod, BuildHeadlessService), Validate the
--   checks of ValidateSpec.
-- - Diagnostics and Status: pkg/workspace/diagnostics.go and pkg/workspace/status_summary.go.
-- - Security: Policy is the documented meaning of a NetworkPolicy, Netpol is
--   pkg/security/netpol.go, Rbac is pkg/security/rbac.go.
-- - Observability: pkg/observability, with PhaseLabel, the keys and the audit line of a change of
--   phase.
-- - Operator: controllers/workspace_controller.go. Env has the reconciler's configuration, the API
--   server's answers during one call, and the requests that the call makes; Helpers has updateStatus,
--   effectiveIdleTimeout and isPodReady; Ensure has ensureRBAC and ensureNetworkPolicies; PodStages
--   and Reconcile have Reconcile and reconcileDelete, one function for each stage of the source's
--   method: PodStages those that look at the pod, Reconcile the others and the whole.
-- - Operator/Cluster: calls of Reconcile in sequence, over a cluster as a parameter: its states, what
--   its API server answers in each, what a request does to it, and the laws of these for a server
--   that accepts the writes. The relation Run has the calls, and between them what others do: the
--   gateway sets lastAccessed, the kubelet changes the status of a pod, time passes.
-- - Gateway: UserId is sanitizeUserID of pkg/gateway/auth.go, Lifecycle is pkg/gateway/lifecycle.go,
--   TokenCache has the sections of Validate and evictExpired (pkg/gateway/auth.go) that the mutex
--   protects, with the index and the list apart; requests interleave as sequences of sections.
--   RateLimit is the EndpointLimiter of pkg/gateway/ratelimit.go over the buckets of x/time/rate.
--   Auth has Validate as a whole over the OIDC library's answers, with the sections of other calls
--   that come between its own, the classification of errors (pkg/gateway/auth.go), auth_dev.go,
--   auth_http.go, and extractToken and parseOIDCClockSkew of cmd/gateway/main.go. Audit is
--   pkg/gateway/audit.go and requestid.go. Recording is pkg/gateway/session_recording.go: its Chain
--   checks the lines of a recording the way an auditor does. Proxy is pkg/gateway/proxy.go: the two
--   copyFrames loops of a tunnel are a step relation, in which either advances to its next call.
--   Activity is the callback onActivity of cmd/gateway/main.go.
-- - Gateway/Web: the handlers of cmd/gateway/main.go, each as the list of its effects in their order:
--   Login has handleLogin and handleCallback, Workspaces has handleWorkspaceAPI and handleProxy,
--   Sessions has handleWS over Audit, Activity and Recording, Css has injectFullWidthTerminalCSS.
--   Confined is what they ask of a workspaceLifecycle, and Manager is the one of Lifecycle.
--   The interfaces tokenValidator, workspaceLifecycle, wsProxy and oauthConfig are records of what
--   their calls answer, as the handlers take them.
-- - Gateway/Program: the main program of cmd/gateway/main.go, from its environment to what it serves
--   with, and the routes. Metrics is pkg/gateway/metrics.go over an interface of counters.
-- - Operator/Settings: how main.go reads LLM_NAMESPACES, EGRESS_PORTS, IDLE_TIMEOUT and the other
--   variables.
-- - Examples: concrete parameters, tests, and the theorems at concrete inputs.
-- A theorem stands in a child of the module that it is about, named for what it says.
--
-- The model. A call is a function of the answers that it gets: the API server and the clock are a
-- record of functions, and nothing is assumed of them but what a theorem names, so a theorem holds
-- for each state of the cluster and each interleaving with other writers. A reconcile returns its
-- requests in their order, whatever they were answered, with its result and error. Reads, log
-- lines and contexts that are cancelled are left out of the operator; the gateway's wait has its
-- context. An error is its text with the answers to IsNotFound and the like. Durations are
-- integers in nanoseconds; time.Since stops at the ends of int64. Strings are bytes. Maps are their
-- entries. A nil pointer is `none`.
--
-- Fuel. waitForRunning has fuel for 31 rounds: a round begins within a minute of the call, and two
-- rounds are two seconds apart at least, so the thirty-first finds the end. Decimal numbers have
-- fuel for twenty digits, which a 64-bit number needs at most; TrimSpace has a unit for each byte,
-- and the eviction from the token cache one for each element.
--
-- Not modelled. Log lines that are not audit records, and the fields that a logger adds to each
-- line; the registration of metrics; the configuration of the WebSocket library and the network call
-- of BackendReady (pkg/gateway/proxy.go); JSON encoding and the template of the loading page; the
-- listener of the gateway with its shutdown, the flags and the manager of the operator (main.go) and
-- SetupWithManager; and the generated code of api/v1alpha1. The activity callback is modelled for
-- calls one after the other, although the two goroutines of a tunnel may call it at once. In
-- Operator/Cluster nobody else deletes an object of the workspace or changes its spec, and no write
-- fails; single calls are modelled for every answer.
pub mod Base
pub mod Api
pub mod Platform
pub mod Resources
pub mod Diagnostics
pub mod Status
pub mod Security
pub mod Observability
pub mod Operator
pub mod Gateway
mod Examples
