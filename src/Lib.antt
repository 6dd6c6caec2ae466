-- ===== src/Lib.antt =====
-- The control plane of a private AI workspace: its request handlers, their in-memory state, and the
-- guards around tools and outbound calls.
--
-- A request passes authentication (Auth), then the checks of its handler, then the state that the
-- handler owns. Tools run behind an allow-list and a rate limiter (AgentTools, RateLimiter), either
-- in a child process or by the tool-runner; outbound calls pass the URL guard (Outbound); handlers
-- tell users what happened through the notification store (Notifications).
--
-- - Prelude: what the files share: tests into Bool, equality as an instance, lists, dicts, text.
-- - Json: the values of Python's `json`, and `Python`, what is taken from its standard library.
-- - Http: responses, the early return of a handler as a monad, and what a body says (Http/Body).
-- - Auth: app/control_plane/token_verifier.py (claims) and `_verify_and_extract`,
--   `_extract_tenant_id` of app/control_plane/notifications.py.
-- - RateLimiter: class `RateLimiter` of app/control_plane/agent_tools.py. A call is one step under
--   the lock; a run of calls is a list.
-- - Notifications: app/control_plane/notifications.py. `Store` is `InMemoryNotificationStore`, and
--   each method a function from a store to a store.
-- - SandboxTools, AgentTools: app/sandbox/tools.py and app/control_plane/agent_tools.py. `State` holds
--   all that a request may change: the limiter, the audit log, the feed of events, and the
--   executions that were started. A job tool without a dispatcher starts none.
-- - Outbound: app/control_plane/outbound.py.
-- - ModelRequests: app/control_plane/model_requests.py: the store, the checks and the handlers for
--   users and for the installer, with what a request may change in `State`. A handler is one step,
--   but for the creation of a request: what other threads do between its count of the open requests
--   and the creation is an argument, `meanwhile` of `Moment`.
-- - ModelInstaller: app/model_installer/reconciler.py. `run_once` gives the list of its actions on the
--   control plane and the cluster; `Clients` says how these answer. A `set_model` that raises may
--   have changed the ConfigMap before.
-- - Dispatcher: app/dispatcher/jobspec.py (names, manifest), jobrunner.py (the run of a job) and
--   server.py (`Server`).
-- - Integrations: app/control_plane/integrations.py, the executor: `_send`,
--   `_ensure_access_token` and `invoke`, and the operator's switch for each tenant. A step gives the
--   token cache that it leaves and the targets that it connected to.
-- - SandboxRunner: app/sandbox/runner.py, the child process, on the text of its request.
-- - JobExecutor: app/control_plane/job_executor.py, the client of Dispatcher/Server, which is
--   app/dispatcher/server.py.
-- - AgentLoop: app/control_plane/agent_loop.py. `World` is the model and the clock; `RunState` has the
--   transcript, the tokens, the audit log and the tools that ran.
-- - OwnedItems: the lists for each owner that Notes and Memory keep, with the partial map that they
--   stand for.
-- - Notes, Conversations: app/control_plane/notes.py and conversations.py.
-- - Ranking, Embeddings: what Memory and Retrieval share: a stable sort, best first, and the
--   similarity of two vectors over any `Floats`.
-- - Memory, Retrieval: app/control_plane/memory.py and retrieval.py.
-- - DeepResearch: app/control_plane/deep_research.py, over Retrieval and the reading of AgentLoop.
-- - Mcp: app/control_plane/mcp.py, one exchange with a server and the invoke handler.
-- - Tests: concrete runs.
--
-- Numbers are natural numbers: Python's integers do not overflow. Loops are recursion on the list
-- that they walk through; the polling loop of Dispatcher runs on fuel, of which one unit for each
-- poll up to the deadline is enough. The agent loop is recursion on the steps that are left.
--
-- Not modelled: the Postgres stores, HTTP routing, logging, metrics and tracing, since they are
-- calls of drivers and frameworks; the JWT verifier, the child process and its limits, the URL
-- parser, the resolver and the socket, the model server, the embedding client and floats, which are parameters of the definitions that use them.
pub mod Prelude
pub mod Json
pub mod Http
pub mod Auth
pub mod RateLimiter
pub mod Notifications
pub mod SandboxTools
pub mod AgentTools
pub mod Outbound
pub mod ModelRequests
pub mod ModelInstaller
pub mod Dispatcher
pub mod Integrations
pub mod SandboxRunner
pub mod JobExecutor
pub mod Ranking
pub mod Embeddings
pub mod OwnedItems
pub mod Notes
pub mod Conversations
pub mod Memory
pub mod Retrieval
pub mod DeepResearch
pub mod Mcp
pub mod AgentLoop
pub mod Tests
