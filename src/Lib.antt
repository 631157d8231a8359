-- ===== src/Lib.antt =====
-- The inference platform: a control plane that keeps a fleet of model workers and routes to them,
-- and a request plane in front of it that authenticates, queues and dispatches client requests.
--
-- Parts, and how they interact:
--   * Queue: request-plane/queue/queue.go. One bounded channel a priority; the gateway pushes, the
--     dispatcher's workers pop. Queue/Order has the order of service, Queue/Bounds the capacities,
--     Queue/History sequences of operations, Queue/Refinement their specification over one list in
--     the order of arrival, Queue/Blocking the whole of Pop as a relation.
--   * Registry: control-plane/registry/registry.go and the messages of proto/registry.proto. The
--     state is a map of entries. Every method holds the lock for its body and is one step; its
--     clock readings are arguments. Registry/Operations has the other methods and the deadline
--     timer, Registry/Queries the read methods; Registry/Invariant, Lifecycle and Histories speak
--     of any sequence of calls, Registry/Transitions of validTransition, Registry/Deadline of death
--     by silence, Registry/Exile and Bystanders of a worker that is dead and of one that other
--     calls spare, and Registry/Catalog and Models of what the read methods return.
--   * Router: control-plane/router/router.go. Router.antt has pickWorker and the in-flight
--     counters, Router/Handler has ServeHTTP, handleInference and proxy; it reads the registry's
--     healthy workers. Router/Minimum and Choice are about pickWorker, Untried and Retry about the
--     loop, Healthy about the workers that are asked, Balance about the counters, Unpriced about
--     costs that are no numbers, Unsteady about counts that change during a choice.
--   * Dispatcher: request-plane/dispatcher/dispatcher.go. Buffered dispatch in Dispatcher.antt,
--     streaming in Dispatcher/Stream; Budget, Agreement and Abandoned are about the calls made,
--     about the two ways of dispatch, and about a stream without a receiver. Dispatcher/WorkerLoop
--     is one worker on what the queue holds, Dispatcher/Pool the workers that Run starts, which
--     share the queue, as a step relation: Conserved, Staffing, Bound, Drained and Jammed are about
--     the requests in the pool, its workers, the length of a run, a pool at rest, and workers that
--     nobody receives from.
--   * Auth: request-plane/auth/keystore.go and ratelimiter.go; Auth/Buckets for one call and
--     Auth/RateBudget for sequences of calls.
--   * Slo: request-plane/slo/tracker.go and estimator.go; Backpressure:
--     request-plane/backpressure/policy.go.
--   * Common: what they share. Go's maps are association lists (Common/Maps), channels a buffer
--     with a capacity (Common/Chan), float64 its bit pattern with < and == (Common/Float), requests
--     and responses of net/http records (Common/Http), strconv's decimal texts are in
--     Common/Decimal, Split, SplitN and Join of strings in Common/Text, and int is ℤ where it may
--     be negative (Common/Int).
--   * Gateway: request-plane/gateway/gateway.go. Gateway/Begin has ServeHTTP and handleInference up
--     to the select, Gateway/Finish the rest, with streamResponse. Admission and Access are about
--     what reaches the queue, Estimates about the estimated wait, Keys about the key store,
--     Reporting about the hook and tracker, Sessions about many requests in any order.
--   * Admin: request-plane/admin/stats.go and admin.go, with the routes in Admin/Routes;
--     Admin/Reports compares the reports with the parts.
--   * Server: request-plane/cmd/server/main.go. Server.antt has the parsers of the two flags that
--     are texts, Server/Flags their round trips, Server/Assembly how main makes the queue, the
--     gateway and the dispatcher, Staffing and Secrets what the parts make of the flags.
--   * Scaler: control-plane/scaler/scaler.go, one sweep over a snapshot of the registry;
--     Scaler/Sweeps has undisturbed sweeps, Scaler/Races a registry that changes meanwhile,
--     Scaler/Rounds the loop of Run. Provisioner: control-plane/provisioner/provisioner.go, the
--     command that replaces an evicted worker.
--   * Overview: control-plane/api/admin.go and control-plane/metrics/metrics.go. Overview.antt has
--     the summary and the counts by state, which Overview/Agreement compares with the registry,
--     Overview/Fleet the lists of workers and models, Overview/Routes the routes and the drain
--     handler, Overview/Metrics the whole of Collect, and Overview/Loads is about the in-flight
--     totals.
--   * Worker: worker/cmd/mock/main.go and worker/cmd/ollama/main.go. Worker.antt has the process
--     from its registration to its end as events against the registry, which Mock and Ollama start.
--     Serving and Undisturbed are about a worker that is left alone, Hearing about its heartbeats,
--     Draining and Shutdown about a drain, Exile about a worker that was taken for dead, and
--     Replacement about the arguments that the provisioner passes.
--   * ControlPlane: control-plane/cmd/server/main.go, the parts that its flags make.
-- The Examples module of a part has concrete runs.
--
-- Bounds and loops: a loop over a slice is recursion on the list; the retry loops are recursion on
-- the number of attempts that are left, which the source computes before the loop (at most three in
-- the router, maxAttempts a model in the dispatcher), so none needs other fuel. A decimal text is
-- printed with at most 19 digits, which hold every int64, and read with any number of them. The
-- counter of the router wraps at 2^64. Counts, lengths and times are ℕ: that an int or int64 does
-- not overflow, that a configured duration is not negative and that the monotonic clock does not
-- run back is assumed.
--
-- Not modelled: the rounding of float64 in the rate limiter (a bucket counts in exact units
-- instead); the hand-over of a request to a waiting worker by a channel of capacity 0; the float64
-- arithmetic of the estimates (a parameter with the laws of IEEE 754); JSON, HTTP clients and the
-- workers behind them (parameters); logging and the wording of most messages; gRPC transport. Of
-- the mains, the listeners, the signals and flag.Parse; of the routes, the redirects of net/http;
-- of the metrics, the Prometheus client with the counter of requests. Tickers and goroutines are
-- sequences of events, in any order.
pub mod Common
pub mod Queue
pub mod Registry
pub mod Scaler
pub mod Provisioner
pub mod Router
pub mod Overview
pub mod Dispatcher
pub mod Auth
pub mod Slo
pub mod Backpressure
pub mod Gateway
pub mod Admin
pub mod Server
pub mod Worker
pub mod ControlPlane
