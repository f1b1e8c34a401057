-- ===== src/Runners/Quiet.antt =====
-- What the runners do with an answer sets variables and sends nothing.
use stack_deploy.Prelude.{ℕ, ◌+◌, String, refl, Option, List, [], ◌∷◌}
use stack_deploy.Prelude.Int.{ℤ}
use stack_deploy.Map.{Map}
use stack_deploy.Runners.Zipkin
use stack_deploy.Runners.Dse
use stack_deploy.Runners.Dse02x
use stack_deploy.Runners.Exhibitor
use stack_deploy.Runners.Results.{Result, Values, no_values, value, Entries}
use stack_deploy.Runners.{Request, Reply, Step, ◌>>=◌, return, lift, set_variable}
use stack_deploy.Runners.Sending.{Sends, nothing, lift-Sends, quiet-Sends}

-- A record, so that a goal names its step.
pub record IsQuiet (web : List Request → Reply) (Accepted : Reply → Type 0) {A : Type 0}
    (m : Step A) : Type 0 where
  pub sends : Sends web Accepted m (nothing web Accepted)

-- The steps that only set variables.
module _ {web : List Request → Reply} {Accepted : Reply → Type 0} where
  set_variable-IsQuiet : (key v : String) → IsQuiet web Accepted (set_variable key v)
  unfolding set_variable
  set_variable-IsQuiet key v = record { sends = λ s. (0, refl, tt) }

  lift-IsQuiet : {A : Type 0} (r : Result A) → IsQuiet web Accepted (lift r)
  lift-IsQuiet r = record { sends = lift-Sends web Accepted r }

  pub return-IsQuiet : {A : Type 0} (a : A) → IsQuiet web Accepted (return a)
  return-IsQuiet a = record { sends = λ s. (0, refl, tt) }

  then-IsQuiet :
      {A B : Type 0} {m : Step A} {next : A → Step B}
      → IsQuiet web Accepted m
      → ((a : A) → IsQuiet web Accepted (next a))
      → IsQuiet web Accepted (m >>= next)
  then-IsQuiet {m = m} {next = next} h k = record {
    sends = quiet-Sends web Accepted (nothing web Accepted) m next h.sends (λ a. (k a).sends);
  }

  set_endpoints-IsQuiet :
      (id : String) (values : Values) → IsQuiet web Accepted (Zipkin.set_endpoints id values)
  unfolding Zipkin.set_endpoints
  set_endpoints-IsQuiet id no_values = return-IsQuiet tt
  set_endpoints-IsQuiet id (value j values) = then-IsQuiet (lift-IsQuiet _) λ server.
      then-IsQuiet (lift-IsQuiet _) λ i. then-IsQuiet (lift-IsQuiet _) λ config.
        then-IsQuiet (lift-IsQuiet _) λ hostname. then-IsQuiet (lift-IsQuiet _) λ env.
          then-IsQuiet (lift-IsQuiet _)
            λ port. then-IsQuiet (set_variable-IsQuiet _ _) λ t. set_endpoints-IsQuiet id values

  pub zipkin_context-IsQuiet :
      (id : String) (response : Entries)
      → IsQuiet web Accepted (Zipkin.fill_task_context id response)
  unfolding Zipkin.fill_task_context
  zipkin_context-IsQuiet id response =
      then-IsQuiet (lift-IsQuiet _) λ servers. set_endpoints-IsQuiet id servers

  hosts_of-IsQuiet : (values : Values) → IsQuiet web Accepted (Dse.hosts_of values)
  unfolding Dse.hosts_of
  hosts_of-IsQuiet no_values = return-IsQuiet []
  hosts_of-IsQuiet (value j values) = then-IsQuiet (lift-IsQuiet _) λ cluster.
      then-IsQuiet (lift-IsQuiet _) λ i. then-IsQuiet (lift-IsQuiet _) λ runtime.
        then-IsQuiet (lift-IsQuiet _) λ hostname.
          then-IsQuiet (hosts_of-IsQuiet values) λ hosts. return-IsQuiet (hostname ∷ hosts)

  set_nodes-IsQuiet :
      (id : String) (n : ℕ) (hosts : List String) → IsQuiet web Accepted (Dse.set_nodes id n hosts)
  unfolding Dse.set_nodes
  set_nodes-IsQuiet id n [] = return-IsQuiet tt
  set_nodes-IsQuiet id n (host ∷ hosts) =
      then-IsQuiet (set_variable-IsQuiet _ _) λ t. set_nodes-IsQuiet id (n + 1) hosts

  pub dse_context-IsQuiet :
      (id : String) (response : Entries) → IsQuiet web Accepted (Dse.fill_task_context id response)
  unfolding Dse.fill_task_context
  dse_context-IsQuiet id response = then-IsQuiet (lift-IsQuiet _) λ answer.
      then-IsQuiet (lift-IsQuiet _) λ clusters.
        then-IsQuiet (hosts_of-IsQuiet clusters)
          λ hosts. then-IsQuiet (set_nodes-IsQuiet id 0 hosts) λ t. set_variable-IsQuiet _ _

  servers_of-IsQuiet :
      (pointers : List (Option Exhibitor.ExhibitorServer))
      → IsQuiet web Accepted (Exhibitor.servers_of pointers)
  unfolding Exhibitor.servers_of
  servers_of-IsQuiet [] = return-IsQuiet []
  servers_of-IsQuiet (pointer ∷ pointers) = then-IsQuiet (lift-IsQuiet _) λ server.
      then-IsQuiet (lift-IsQuiet _)
        λ config. then-IsQuiet (servers_of-IsQuiet pointers) λ servers. return-IsQuiet _

  set_servers-IsQuiet :
      (id : String) (n : ℕ) (hosts : List String)
      → IsQuiet web Accepted (Exhibitor.set_servers id n hosts)
  unfolding Exhibitor.set_servers
  set_servers-IsQuiet id n [] = return-IsQuiet tt
  set_servers-IsQuiet id n (host ∷ hosts) =
      then-IsQuiet (set_variable-IsQuiet _ _) λ t. set_servers-IsQuiet id (n + 1) hosts

  pub exhibitor_context-IsQuiet :
      (id : String) (cluster : Exhibitor.Cluster)
      → IsQuiet web Accepted (Exhibitor.fill_task_context id cluster)
  unfolding Exhibitor.fill_task_context
  exhibitor_context-IsQuiet id cluster =
      then-IsQuiet (servers_of-IsQuiet cluster.servers)
        λ servers. then-IsQuiet (set_servers-IsQuiet id 0 servers) λ t. set_variable-IsQuiet _ _

  set_node_ports-IsQuiet :
      (id node : String) (ports : Map ℤ)
      → IsQuiet web Accepted (Dse02x.set_node_ports id node ports)
  unfolding Dse02x.set_node_ports
  set_node_ports-IsQuiet id node [] = return-IsQuiet tt
  set_node_ports-IsQuiet id node ((name, port) ∷ ports) =
      then-IsQuiet (set_variable-IsQuiet _ _) λ t. set_node_ports-IsQuiet id node ports

  endpoints-IsQuiet :
      (id : String) (nodes : List (Option Dse02x.Node))
      → IsQuiet web Accepted (Dse02x.set_nodes id nodes)
  unfolding Dse02x.set_nodes
  endpoints-IsQuiet id [] = return-IsQuiet []
  endpoints-IsQuiet id (pointer ∷ nodes) = then-IsQuiet (lift-IsQuiet _) λ node.
      then-IsQuiet (lift-IsQuiet _) λ runtime. then-IsQuiet (lift-IsQuiet _) λ reservation.
        then-IsQuiet (set_variable-IsQuiet _ _) λ t. then-IsQuiet (set_variable-IsQuiet _ _) λ u.
          then-IsQuiet (set_node_ports-IsQuiet id node.id reservation.ports)
            λ v. then-IsQuiet (endpoints-IsQuiet id nodes) λ endpoints. return-IsQuiet _

  pub dse_02x_context-IsQuiet :
      (parse : String → Option Entries) (parse_start : String → Option Dse02x.StartResponse)
      (id body : String)
      → IsQuiet web Accepted (Dse02x.fill_task_context web parse parse_start id body)
  unfolding Dse02x.fill_task_context
  dse_02x_context-IsQuiet parse parse_start id body = then-IsQuiet (lift-IsQuiet _) λ parsed.
      then-IsQuiet (lift-IsQuiet _) λ response.
        then-IsQuiet (endpoints-IsQuiet id response.nodes) λ endpoints. set_variable-IsQuiet _ _
