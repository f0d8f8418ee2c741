-- ===== src/Lib.antt =====
-- The leader of Opod: the admission gate, which decides what request gets a worker slot, waits, or is
-- answered 503; the router, which picks the worker or the gang that serves it, keeps failing workers
-- from new requests and orders the fallbacks; the index of what the workers' prefix caches hold; the
-- response cache; the rule that says whether a node takes work; and of the scheduler, what keeps two
-- creates of one model's gangs apart, how a gang is split, where its parts go and which ports they get.
--
-- A request arrives at the leader with a class and a flow. The gate grants it a slot of its model's
-- pool, holds it in the queue of its class, or sheds it. A completion gives its slot back and grants
-- whoever waits first. All of it runs under one lock, so each operation is a function on the state
-- that the lock guards.
--
-- Files, and the code each is about (paths from the repository's root):
--   Base: numbers, tests, lists, maps, key sets and sorting that the components share.
--   Admission.Classes: classes, the policy's admission half and the share of a class
--   (internal/leader/admission_classes.go: parseClass, effectiveClass, newClassConfig, shareCap).
--   Admission.Flows: one class's waiting room, deficit round robin over flows (drrQueue, same file).
--     Inv is its well-formedness and the line of flows it stands for; Pop, Push, Remove, Shed and Turn
--     are about one operation each; Ring, Order, Moves, Visit, Replace, Leave and Found carry
--     their lemmas.
--   Admission.Queues: the queues of all classes (classQueues, same file); Rank and Order beneath it.
--   Admission.Pool: the slots of one model (internal/leader/admission.go: pool, canGrant, take, give,
--     dispatch, shed). Inv, Dispatch, Capacity and Give are about its counters and its slots.
--   Admission.Gate: what a request and a capacity change do with a pool (enqueue, withdraw, setCap,
--     releaser, admit). Counts, Enqueue, Caps and Safe are about the hold and the whole gate, Shedding
--     and Capacity about setCap.
--   Admission.Wait: how a wait ends (the rest of admit); Ends is about it, Flags about when a
--     request's flag is true.
--   Admission.Classes.Laws: what a policy and a header can make of a class.
--   Store.Live: whether a node takes work, and the state shown for it (internal/store/nodelive.go).
--   Scheduler.GangId, Scheduler.Forms: gang ids and the guard of creates
--     (internal/scheduler/gangs.go: validGangID, resolveGang; sharding.go: createGuard, CreateSharded up to its
--     claim, in Forms.Begin).
--   Scheduler.Shape: the part count and the split of a gang (sharding.go: Parallelism.resolve,
--     shardCountFor); Fits beneath it.
--   Scheduler.Ports: the ports of one create (placement.go: portAllocator); FirstFit beneath it.
--   Scheduler.Placement: which nodes get the parts and the coordinator (placement.go: WorkerFor,
--     pickWorkersByID, pickWorkers, pickCoordinatorHost; autoshard.go: strongerWorker); Choice beneath it.
--   Cache.Memory: the response cache (internal/cache/memory.go). Sound is about its map and its list,
--     Evict and Uses about one operation, Runs and Keeps about whole runs.
--   Prefix.Index: what the workers' prefix caches hold (internal/leader/prefixindex.go). Sets is about
--     the two sets of a worker, Ghosts and Evictions about its ghost list, Holds about a heartbeat and a lookup.
--   Router.Cooldown: the penalty box of workers (internal/router/cooldown.go); Breaker is about its laws.
--   Router.Latency: rolling windows of latencies and the order of a fallback chain
--     (internal/router/latency.go, sort.go); Window is about the ring, Percentile about p95, Reorder about
--     the chain.
--   Router.Candidates: how the candidates of a pick are narrowed (nextworker.go, roles.go,
--     revisions.go, sticky.go: preferNode); Revisions and Steps are about the groups and the steps.
--   Router.Pick: the choice of a worker for a request (pick.go: pick, takesRequests, takingRequests,
--     staleEpisode; load.go: slotsFull, loadRank, prefixPick). Filter is about who takes requests, Fit
--     about who is picked, Free about the order.
--   Router.Gangs: the choice among a sharded model's gangs and the whole pick with it (pick.go:
--     shardCoordinator, gangRank, shardGroupRoutable); Turns beneath it. Counted is about the gangs that
--     the leader counts as serving (internal/leader/liveness.go: gangServable).
--   Router.Fallback: the chain of models that a request is tried on (router.go: applyCap;
--     fallback_run.go: chainFor, maybeSwapTypedChain, waitBackoff).
--   Tests, of each part: concrete queues, gates, nodes, creates and workers.
--
-- A Go panic (an index out of range, a nil flow) is the result `none`, so a theorem that gives a
-- result says that there is no panic. Pointers to requests and grants are numbers. Counters are
-- natural numbers: an int that the code never lets below 0 stays so here. float64 is a parameter: the
-- record `Floats` of the gate, whose laws are what IEEE arithmetic gives for a factor between 0 and 1
-- and a count up to 2 ^ 53,
-- and the record `Scores` of the router, whose law is the order of scores without NaN. The place of
-- each request in the cluster, which the router's trace tells, is a parameter function, as are the dice
-- of a revision split and what a worker registered of itself. Go's stable sort is an insertion sort.
--
-- The loop of `dispatch` runs on fuel, the number of requests that wait; each round grants one of
-- them. A search for ports runs on one more than the ports taken on the node, each round passing one
-- of them; the eviction of the cache on one more than its keys. The loops of `setCap` run on the
-- number that waits in a class.
--
-- A request that the gate lets through is picked for by Router.Gangs and Router.Pick, which read the
-- nodes by Store.Live and the penalty box; the scheduler places parts by the same rule of Store.Live.
--
-- Not modelled: metrics, the context plumbing of a request's identity, timers, the map of pools with
-- its idle sweep, the computation of a pool's capacity from the store, which is an argument, the calls
-- of engines and workers, the tables of pins, the processes of the agent, the HTTP interfaces, the store
-- and the command line, which are input and output.
pub mod Base
pub mod Admission
pub mod Store
pub mod Scheduler
pub mod Router
pub mod Cache
pub mod Prefix
