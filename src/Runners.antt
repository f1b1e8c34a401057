-- ===== src/Runners.antt =====
-- runners/: the task runners of single products. Each talks HTTP to the scheduler of its product and
-- sets variables from what it answers. HTTP and JSON texts are the parameter `Web`; the requests
-- that were sent are kept, the newest first, and an answer may depend on all of them.
pub mod Results
pub mod Responses
pub mod Parameters
pub mod Kafka
pub mod Statsd
pub mod GoKafkaClient
pub mod Zipkin
pub mod Dse
pub mod Dse02x
pub mod Exhibitor
pub mod Elasticsearch
pub mod Registry
pub mod Sending
pub mod Quiet
pub mod Filling
mod Tests
pub mod Plans
use stack_deploy.Prelude.{ℕ, ◌+◌, String, Option, none, some, List, [], ◌∷◌}
use stack_deploy.Prelude.Float.{Float64}
use stack_deploy.Prelude.Int.{ℤ}
use stack_deploy.Prelude.Text.{concat}
use stack_deploy.Prelude.Decimal.{print_nat, print_int}
use stack_deploy.Map.{Map}
use stack_deploy.Variables.{Variables, get, set_stack_variable}
use stack_deploy.Runners.Results.{Error, Json, Entries, Result, ok, err, panic}

-- The query of a GET is the encoding of its values. A POST carries its values as a JSON object.
pub data Request : Type 0 where
  get_request : (url : String) → Map String → Request
  post_request : (url : String) → Map Json → Request

-- An error of the request, or a status code with the body, `none` where it cannot be read.
pub data Reply : Type 0 where
  no_reply : Reply
  reply : ℕ → Option String → Reply

pub record Session : Type 0 where
  pub context : Variables
  pub sent : List Request

-- `waiting` is a loop that goes on after the rounds that the model looks at.
pub data Outcome (A : Type 0) : Type 0 where
  done : A → Session → Outcome A
  failed : Error → Session → Outcome A
  panicked : Session → Outcome A
  waiting : Session → Outcome A

abbrev pub Step : Type 0 → Type 0
Step A = Session → Outcome A

abbrev pub continue : {A B : Type 0} → Outcome A → (A → Step B) → Outcome B
continue (done a s) f = f a s
continue (failed e s) f = failed e s
continue (panicked s) f = panicked s
continue (waiting s) f = waiting s

infixl 5 ◌>>=◌ ◌>>◌
abbrev pub ◌>>=◌ : {A B : Type 0} → Step A → (A → Step B) → Step B
◌>>=◌ m f s = continue (m s) f

abbrev pub ◌>>◌ : {A B : Type 0} → Step A → Step B → Step B
m >> k = m >>= λ _. k

abbrev pub return : {A : Type 0} → A → Step A
return a s = done a s

unfoldable pub lift : {A : Type 0} → Result A → Step A
lift (ok a) s = done a s
lift (err e) s = failed e s
lift panic s = panicked s

unfoldable pub set_variable : String → String → Step (Unit {0})
set_variable key value s = done tt (record s { context = set_stack_variable key value s.context })

-- context.MustGet panics on a variable that is not there.
abbrev pub or_panic : Option String → Step String
or_panic none s = panicked s
or_panic (some value) s = done value s

unfoldable pub must_get : String → Step String
must_get key s = or_panic (get key s.context) s

-- marathon.Task
pub record MarathonTask : Type 0 where
  pub host : String
  pub ports : List ℤ

-- The loop over the ports, from the `n`-th on.
unfoldable pub set_ports : String → ℕ → List ℤ → Step (Unit {0})
set_ports id n [] = return tt
set_ports id n (port ∷ ports) = do
  set_variable (concat (id ∷ ".port" ∷ print_nat n ∷ [])) (print_int port)
  set_ports id (n + 1) ports

-- `task.Ports[0]` panics on a task without ports.
abbrev pub api_of : MarathonTask → Result String
api_of task = first task.host task.ports
  where
    first : String → List ℤ → Result String
    first host [] = panic
    first host (port ∷ ports) = ok (concat ("http://" ∷ host ∷ ":" ∷ print_int port ∷ []))

-- FillContext, which the runners share but for Elasticsearch's, which goes on.
unfoldable pub fill_context : String → MarathonTask → Step String
unfolding set_ports
fill_context id task = do
  set_variable (concat (id ∷ ".host" ∷ [])) task.host
  set_ports id 0 task.ports
  api ← lift (api_of task)
  set_variable (concat (id ∷ ".api" ∷ [])) api
  return api

-- What a GET or a POST answers.
module _ (web : List Request → Reply) where
  abbrev pub send : Request → Step Reply
  send request s = done (web (request ∷ s.sent)) (record s { sent = request ∷ s.sent })
