-- ===== src/Lib.antt =====
-- kwarm is a Kubernetes operator that pulls container images onto nodes before they are needed. This
-- library models its own logic and proves what makes it correct.
--
-- The parts, and how they interact. The deployment controller (internal/controller/
-- deployment_controller.go) compares the images of a Deployment with an annotation on it, finds the
-- PrePullPolicy that selects the Deployment, and creates a PrePullImage for each changed image, with
-- the names of the ready nodes. The PrePullImage controller (internal/controller/
-- prepullimage_controller.go) takes such a resource from Pending over InProgress to Completed or
-- Failed: for each node it takes a slot of the rate limiter (internal/ratelimiter/ratelimiter.go),
-- starts a Job (internal/puller/job.go), follows it, retries it, and gives the slot back. The
-- PrePullPolicy controller (internal/controller/prepullpolicy_controller.go) counts the Deployments
-- of a policy. The operator binary (cmd/main.go) makes one rate limiter and registers the three with
-- the manager of controller-runtime. All report to the metrics (internal/metrics/metrics.go).
--
-- Which file models what:
--   * Base: native numbers, lists, texts, maps as association lists, and Go's int32.
--   * RateLimiter: `NewRateLimiter`, `TryAcquire` and `Release`, each one step, as the mutex makes it;
--     RateLimiter/Bounds has the limits, RateLimiter/Slots the refinement of a bag of slots, and
--     RateLimiter/Views what the controllers need of the limiter: a bag of slots, as an interface
--     that each reading of the limiter fills.
--   * Kube, Api: the Kubernetes objects as far as the code uses them, and the custom resources of
--     api/v1alpha1.
--   * Metrics: the calls of the collectors, as a sequence.
--   * Cluster: what is not in the repository. `Client` is the API server behind the controller-runtime
--     client, a record of functions on a world of any type; `Library` is sha256, durations, label
--     selectors, finalizers, conditions and JSON. Both are parameters of all that uses them. `Sys` is
--     the state of the operator (limiter, metrics, events) and the world, and `M` passes it on.
--   * Nodes: which nodes are ready. Puller: the jobs. Puller/Names: their names.
--     Puller/Cleanup: what is left after their clean-up.
--   * PullImage: Node is the loop of `handleInProgress` over the nodes, Handlers is the rest of the
--     reconciler, with a child for each group of handlers; `advance` is `handleInProgress` up to the
--     update of the status. Census reads the statuses of the nodes; Summary, Keeps, Slots, Steps,
--     Passes, Phases, Targets, Lifecycle and Reports prove. Fleet has several resources that share the
--     limiter, as a step relation, and Restarts the runs of an operator that is started again.
--     Stored is what the controller relies on of the API server, and Reconciles the calls of
--     `Reconcile` one after the other. Measure and Effort have the work that is left of a resource,
--     Alone a resource that is alone, and Termination the end of its reconciles. Others has what a
--     reconcile leaves of the other resources, and Fair the turns of several that share the limiter.
--   * Deploy: Images, Match and Handlers are the deployment controller; Current, Recorded, Changes, Names,
--     Create and Idle prove. Storage is what it relies on of the API server, Complete the creation for one
--     image, Rounds the loop over the images, Finished the whole reconcile, Limiter that it leaves the
--     rate limiter alone, Handover the way of a changed image through both controllers, and Fleet that of
--     all of them. Policy is the policy controller; Policy/Count and Policy/Report prove.
--   * Operator: Options has the flags and the options of the servers and the manager, and Start is
--     `main` from the manager on, with the three `SetupWithManager`; Tls and Order prove.
--   * Memory: the copies of zz_generated.deepcopy.go. Types has the resources once more, by how their
--     memory is read: in memory a pointer, a slice or a map is nil or a place with an address, and as a
--     value the addresses are forgotten. DeepCopy has the functions; their state is the first address
--     that is free. Copier is what a copy promises, which the copies of the types of other packages
--     are taken to keep. Layout has the value and the addresses of each type; Parts proves the promise
--     for slices, maps, pointers and structs, Copied for each type, and Apart for an object.
--   * Examples: a small cluster, with each result at a concrete input.
--
-- Numbers. An int32 keeps its wrap-around: a counter is a number below 2 ^ 32 that stands for the
-- bits, `inc32` adds modulo 2 ^ 32, and `slt32` compares as signed. A time is a number of
-- nanoseconds. The counters of the limiter are Go ints that are only raised below a limit, so they
-- are plain numbers. A text is its bytes, as far as lengths and cuts go.
--
-- Termination. Every loop of the code runs over a list that it has been given, and is a structural
-- recursion. What comes back in time is a sequence of calls (RateLimiter, `run`), of passes
-- (PullImage/Passes), or of steps (PullImage/Fleet). `reconciles` is a number of calls of `Reconcile`
-- for one resource, and `rounds` a number of rounds over several; PullImage/Termination and
-- PullImage/Fair/Rounds prove numbers that are enough.
--
-- Simplifications. Go visits a map in any order, and the model in the order of an association list.
-- A nil map and an empty one are told apart where the code does. Log lines are left out, and so are
-- the Go context and the duration in seconds of a metric, which is given by its two ends. In Memory an
-- empty slice counts as having an address of its own, and what nothing refers to is not kept.
--
-- The laws of Deploy/Storage, PullImage/Stored and Puller/Cleanup speak of reads that show
-- what is stored; a cache that lags behind is outside them.
--
-- Not modelled: the parsing of the command line, the loggers and the scheme in cmd/main.go
-- and api/v1alpha1/groupversion_info.go; tests, charts and manifests. In the other modules a resource
-- is a value without addresses, since no theorem there depends on what two of them share.
pub mod Base
pub mod RateLimiter
pub mod Kube
pub mod Api
pub mod Metrics
pub mod Cluster
pub mod Puller
pub mod PullImage
pub mod Nodes
pub mod Deploy
pub mod Policy
pub mod Examples
pub mod Operator
pub mod Memory
