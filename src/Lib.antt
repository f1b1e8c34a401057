-- ===== src/Lib.antt =====
-- stack-deploy runs stacks of applications on a Mesos cluster. A stack is a yaml file of
-- applications with dependencies; the server stores stacks, merges a stack with those that it
-- extends, and runs it: Marathon applications through Marathon, and run-once applications as Mesos
-- tasks on the offers of the cluster.
--
-- Parts and files:
--   Prelude, Map      shared names, Go's int, float64 and string operations, and Go's maps
--   Constraints       constraints/constraints.go: ParseConstraint and the Matches of the five
--                     constraints; Constraints/Placement says what they want of all values together
--   Variables         framework/variables.go: the three layers, Get, All, and the JSON form
--   Docker            framework/docker.go: what a container is for Marathon
--   Application       framework/application.go: Validate, GetInstances, createApplication, the wait
--                     for a healthy application, resolveVariables and Run with its hooks, one child
--                     module for each
--   Stack             framework/stack.go: Merge, Validate and Run; Stack/Merge/Fields says what the
--                     fields of a merged application are
--   Layers            framework/layer.go and layerToInt
--   Storage           InMemoryStorage of framework/storage.go; Storage/Layering has GetLayersStack,
--                     which is the same for either storage, and Storage/Cassandra CassandraStorage
--                     over a parameter for the session
--   StateStorage      InMemoryStateStorage of framework/state_storage.go; StateStorage/Ledger has what
--                     it promises, and StateStorage/Cassandra CassandraStateStorage
--   Users             framework/user_storage.go over a parameter for the Cassandra session
--   RunOnce           mesosrunners/run_once_application_context.go; RunOnce/Runner has
--                     mesosrunners/run_once_runner.go
--   Runners           runners/: FillContext and RunTask of each product, one child module for each;
--                     Runners/Registry has taskRunners of main.go
--   Scheduler         framework/scheduler.go over a record of the methods of a Mesos task runner;
--                     Scheduler/Timed has mesosrunners/time_scheduler.go
--   Mesos             framework/mesos_state.go and framework/framework_storage.go
--   Client            framework/client.go
--   Server            framework/server.go: runStack, and in Server/Handlers the middlewares, every
--                     handler and the routes
--
-- How they are modelled. A method that changes a struct is a function from the old value to the
-- new one, and Go's `(value, error)` a result type of the module. A mutex makes a method one
-- step. The goroutines of Stack.Run are events: `finishes` is the end of an application's
-- goroutine with its send on the channel, and `receives` one round of the main loop; a run is
-- any list of events from the state that Run has before its loop. A send on a full channel is an
-- event that changes nothing, and a send on the closed channel makes the run panic. Maps are
-- lists of entries, and a theorem about a map holds for every order of the entries; a stack
-- tells whether its map is nil, where Merge panics, which ends a call of a storage like an error
-- (`merge_panics`) and crashes the handler of a request. Marathon, Mesos, Cassandra, yaml,
-- regular expressions, hashing, HTTP and JSON are parameters, and so is the order in which Go
-- visits the labels of STACK_LABELS. The wait of Exhibitor's runner has no end in the program:
-- it is looked at for a number of rounds, after which it is `waiting`.
--
-- Bounds. The recursion of a forced removal is on fuel, which bounds the depth of the tree of
-- stacks; `none` stands for a recursion that is deeper or has no end, which a stack that is its own
-- ancestor leads to; GetStack of CassandraStorage is on such fuel too, for the length of the line
-- of ancestors. `int` is an integer without a bound where the program only counts or compares; Atoi
-- refuses what does not fit 64 bits. GroupBy's start value 2^31 - 1 is kept, which bounds the
-- number of values that it can compare. A finite float64 is an exact multiple of 2^-1074.
--
-- Not modelled: the command line (command/), the driver's connection to Mesos, the texts that make the
-- tables of Cassandra, and everything vendored. Stacks that are aliased after a merge are values here,
-- not shared objects.
pub mod Prelude
pub mod Map
pub mod Constraints
pub mod Variables
pub mod Docker
pub mod Application
pub mod Stack
pub mod Layers
pub mod Storage
pub mod RunOnce
pub mod StateStorage
pub mod Users
pub mod Runners
pub mod Server
pub mod Scheduler
pub mod Mesos
pub mod Client
