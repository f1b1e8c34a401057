-- ===== src/Runners/Exhibitor.antt =====
-- runners/exhibitor_task_runner.go
use stack_deploy.Prelude.{
  ℕ, zero, suc, ◌+◌, eqb, length, Bool, String, List, [], ◌∷◌, Option, none, some, ◌==◌,
  if◌then◌else◌,
}
use stack_deploy.Prelude.Text.{concat, join}
use stack_deploy.Prelude.Decimal.{print_nat}
use stack_deploy.Map.{Map, lookup}
use stack_deploy.Runners.Results.{Result, ok, or_panic}
use stack_deploy.Runners.Responses.{ApiResponse, check_exhibitor}
use stack_deploy.Runners.Parameters.{only, all_but}
use stack_deploy.Runners.{
  Request, get_request, Reply, Step, waiting, ◌>>=◌, ◌>>◌, return, lift, must_get, set_variable,
  send,
}

-- The pointers that JSON may leave nil are options, and only the fields that are read are kept.
pub record ServerConfig : Type 0 where
  pub shared_config_override : Map String
  pub hostname : String

pub record ExhibitorServer : Type 0 where
  pub id : String
  pub config : Option ServerConfig

pub record Cluster : Type 0 where
  pub servers : List (Option ExhibitorServer)

pub record ZookeeperStatus : Type 0 where
  pub description : String

pub record ExhibitorStatus : Type 0 where
  pub cluster_view : List (Option ZookeeperStatus)

pub record ClusterStatus : Type 0 where
  pub server_statuses : List (Option ExhibitorStatus)

abbrev port_or_default : Option String → String
port_or_default none = "2181"
port_or_default (some port) = port

unfoldable pub get_client_port : ServerConfig → String
unfolding lookup
get_client_port config = port_or_default (lookup "client-port" config.shared_config_override)

-- `host:port` of each server; a nil pointer panics.
unfoldable pub servers_of : List (Option ExhibitorServer) → Step (List String)
unfolding get_client_port
servers_of [] = return []
servers_of (pointer ∷ pointers) = do
  server ← lift (or_panic pointer)
  config ← lift (or_panic server.config)
  servers ← servers_of pointers
  return (concat (config.hostname ∷ ":" ∷ get_client_port config ∷ []) ∷ servers)

unfoldable pub set_servers : String → ℕ → List String → Step (Unit {0})
set_servers id n [] = return tt
set_servers id n (host ∷ hosts) = do
  set_variable (concat (id ∷ ".exhibitor-" ∷ print_nat n ∷ [])) host
  set_servers id (n + 1) hosts

unfoldable pub fill_task_context : String → Cluster → Step (Unit {0})
unfolding servers_of set_servers
fill_task_context id cluster = do
  servers ← servers_of cluster.servers
  set_servers id 0 servers
  set_variable (concat (id ∷ ".zkConnect" ∷ [])) (join servers ",")

unfoldable pub add_request : String → Map String → Request
unfolding only
add_request api fields = get_request (concat (api ∷ "/api/add" ∷ [])) (
    only ("id" ∷ "cpu" ∷ "mem" ∷ "constraints" ∷ "configchangebackoff" ∷ "port" ∷ "docker" ∷ [])
      fields)

unfoldable pub update_request : String → Map String → Request
unfolding all_but
update_request api fields = get_request (concat (api ∷ "/api/config" ∷ [])) (
    all_but
      ("cpu" ∷ "mem" ∷ "constraints" ∷ "configchangebackoff" ∷ "port" ∷ "docker" ∷ "timeout" ∷ [])
      fields)

unfoldable pub start_request : String → Map String → Request
unfolding only
start_request api fields =
    get_request (concat (api ∷ "/api/start" ∷ [])) (only ("id" ∷ "timeout" ∷ []) fields)

unfoldable pub status_request : String → Request
status_request api = get_request (concat (api ∷ "/api/status" ∷ [])) []

-- The count, with one more Zookeeper in front.
abbrev pub with_one : ZookeeperStatus → Result ℕ → Result ℕ
with_one zk (ok n) = ok (if zk.description == "serving" then suc n else n)
with_one zk (Result.err e) = Result.err e
with_one zk Result.panic = Result.panic

-- The inner loop of AwaitZookeeperRunning.
unfoldable pub count_serving : List (Option ZookeeperStatus) → Result ℕ
count_serving [] = ok 0
count_serving (none ∷ view) = Result.panic
count_serving (some zk ∷ view) = with_one zk (count_serving view)

-- The result of the servers, with one more in front that counts so many.
abbrev pub with_server : ℕ → Result ℕ → Result Bool → Result Bool
with_server target (ok running) rest = if eqb target running then rest else ok Bool.false
with_server target (Result.err e) rest = Result.err e
with_server target Result.panic rest = Result.panic

-- Whether the servers, in turn, all see `target` of them serving; the first that does not ends the
-- round.
unfoldable pub all_serving : ℕ → List (Option ExhibitorStatus) → Result Bool
unfolding count_serving
all_serving target [] = ok Bool.true
all_serving target (none ∷ statuses) = Result.panic
all_serving target (some status ∷ statuses) =
    with_server target (count_serving status.cluster_view) (all_serving target statuses)

module _ (web : List Request → Reply) (parse_cluster : String → Option (ApiResponse Cluster))
    (parse_status : String → Option (ApiResponse ClusterStatus)) where
  unfoldable pub get_cluster : Request → Step Cluster
  unfolding check_exhibitor
  get_cluster request = do answer ← send web request; lift (check_exhibitor parse_cluster answer)

  unfoldable pub status : String → Step ClusterStatus
  unfolding status_request check_exhibitor
  status api = do answer ← send web (status_request api); lift (check_exhibitor parse_status answer)

  -- The loop polls for ever; here it is `waiting` after a number of rounds.
  unfoldable pub await_zookeeper_running : String → ℕ → Step (Unit {0})
  unfolding status all_serving
  await_zookeeper_running api zero = λ s. waiting s
  await_zookeeper_running api (suc rounds) = do
    answer ← status api
    running ← lift (all_serving (length answer.server_statuses) answer.server_statuses)
    if running then return tt else await_zookeeper_running api rounds

  unfoldable pub run_task : ℕ → String → Map String → Step (Unit {0})
  unfolding must_get get_cluster add_request update_request start_request fill_task_context
      await_zookeeper_running
  run_task rounds id fields = do
    api ← must_get (concat (id ∷ ".api" ∷ []))
    get_cluster (add_request api fields)
    get_cluster (update_request api fields)
    response ← get_cluster (start_request api fields)
    fill_task_context id response
    await_zookeeper_running api rounds
