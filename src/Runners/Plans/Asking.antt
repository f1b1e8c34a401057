-- ===== src/Runners/Plans/Asking.antt =====
-- The runners that send a fixed number of GETs.
use stack_deploy.Prelude.{
  ℕ, String, ◌≡◌, refl, inl, inr, some, List, [], ◌∷◌, ◌++◌, ◌==◌, if◌then◌else◌, Bool-cases,
}
use stack_deploy.Prelude.Text.{concat}
use stack_deploy.Map.{Map, lookup}
use stack_deploy.Variables.{get}
use stack_deploy.Runners.Kafka
use stack_deploy.Runners.Statsd
use stack_deploy.Runners.GoKafkaClient
use stack_deploy.Runners.Zipkin
use stack_deploy.Runners.Dse02x
use stack_deploy.Runners.Registry.{kafka, dse_02x, statsd, zipkin, go_kafka_client, Web}
use stack_deploy.Runners.Results.{Result, Entries, or_error, missing_id, missing_type}
use stack_deploy.Runners.Responses.{
  check_kafka, check_statsd, check_go_kafka_client, check_success, check_dse_02x,
}
use stack_deploy.Runners.{Request, Reply, Session, Step, ◌>>=◌, return, lift, must_get, send}
use stack_deploy.Runners.Sending.{
  Adds, Sends, nothing, lift-Sends, bind-Sends, quiet-Sends, exchange-Sends,
}
use stack_deploy.Runners.Quiet.{IsQuiet, zipkin_context-IsQuiet, dse_02x_context-IsQuiet}
use stack_deploy.Runners.Plans.{Passes, Accepts, plan}

-- A runner that takes the answers that pass one check.
module _ (w : Web) {A : Type 0} (check : Reply → Result A) where
  pub ask-Sends :
      (request : Request)
      → Sends w.answer
          (Passes check)
          (send w.answer request >>= λ answer. lift (check answer))
          (λ n. request ∷ [])
  ask-Sends request = exchange-Sends w.answer (Passes check) request check (λ answer a e. (a, e))

  pub ask-then-Sends :
      {B : Type 0} (plans : ℕ → List Request) (request : Request) (next : A → Step B)
      → ((a : A) → Sends w.answer (Passes check) (next a) plans)
      → Sends w.answer
          (Passes check)
          (send w.answer request >>= λ answer. lift (check answer) >>= next)
          (λ n. plans n ++ request ∷ [])
  ask-then-Sends plans request next k =
      bind-Sends w.answer (Passes check) plans (request ∷ []) _ next (ask-Sends request) k

pub silent :
    (web : List Request → Reply) (Accepted : Reply → Type 0) {A : Type 0} {m : Step A}
    → IsQuiet web Accepted m
    → Sends web Accepted m (nothing web Accepted)
silent web Accepted h = h.sends

abbrev pub HasApi : String → Session → String → Type 0
HasApi id s api = get (concat (id ∷ ".api" ∷ [])) s.context ≡ some api

module _ (w : Web) (id api : String) (fields : Map String) where
  pub kafka-Adds :
      (s : Session)
      → HasApi id s api
      → Adds w.answer
          (Accepts w kafka)
          (plan w kafka api fields)
          s.sent
          (Kafka.run_task w.answer w.parse id fields s)
  unfolding Kafka.run_task must_get
  kafka-Adds s h = rw h (
      ask-then-Sends w (check_kafka w.parse) (λ n. Kafka.start_request api fields ∷ [])
        (Kafka.add_request api fields) _
        (λ a. ask-Sends w (check_kafka w.parse) (Kafka.start_request api fields)) s)

  pub statsd-Adds :
      (s : Session)
      → HasApi id s api
      → Adds w.answer
          (Accepts w statsd)
          (plan w statsd api fields)
          s.sent
          (Statsd.run_task w.answer w.parse id fields s)
  unfolding Statsd.run_task must_get
  statsd-Adds s h = rw h (
      ask-then-Sends w (check_statsd w.parse) (λ n. Statsd.start_request api ∷ [])
        (Statsd.update_request api fields) _
        (λ a. ask-Sends w (check_statsd w.parse) (Statsd.start_request api)) s)

  pub go_kafka_client-Adds :
      (s : Session)
      → HasApi id s api
      → Adds w.answer
          (Accepts w go_kafka_client)
          (plan w go_kafka_client api fields)
          s.sent
          (GoKafkaClient.run_task w.answer w.parse id fields s)
  unfolding GoKafkaClient.run_task must_get
  go_kafka_client-Adds s h =
      let check = check_go_kafka_client w.parse in
      let start = GoKafkaClient.start_request api fields in
      let update = GoKafkaClient.update_request api fields in
      rw h (
        ask-then-Sends w check (λ n. start ∷ update ∷ []) (GoKafkaClient.add_request api fields) _
          (λ a. ask-then-Sends w check (λ n. start ∷ []) update _ (λ b. ask-Sends w check start)) s)

  pub zipkin-Adds :
      (s : Session)
      → HasApi id s api
      → Adds w.answer
          (Accepts w zipkin)
          (plan w zipkin api fields)
          s.sent
          (Zipkin.run_task w.answer w.parse id fields s)
  unfolding Zipkin.run_task must_get
  zipkin-Adds s h =
      let accepts = Accepts w zipkin in
      let check = check_success w.parse in
      let start = Zipkin.start_request api fields in
      let all = plan w zipkin api fields in
      rw h (
        quiet-Sends w.answer accepts all (lift (or_error missing_id (lookup "id" fields))) _
          (lift-Sends w.answer accepts _)
          (λ task_id.
            quiet-Sends w.answer accepts all
              (lift (or_error (missing_type task_id) (lookup "type" fields))) _
              (lift-Sends w.answer accepts _)
              (λ type.
                ask-then-Sends w check (λ n. start ∷ []) (Zipkin.add_request api fields) _
                  (λ a.
                    ask-then-Sends w check (nothing w.answer accepts) start _
                      (λ response. endpoints type response))))
          s)
    where
      endpoints :
          (type : String) (response : Entries)
          → Sends w.answer
              (Accepts w zipkin)
              (if type == "query" then Zipkin.fill_task_context id response else return tt)
              (nothing w.answer (Accepts w zipkin))
      endpoints type response = elim (Bool-cases (type == "query")) [
        | inl query ↦
            rw query (silent w.answer (Accepts w zipkin) (zipkin_context-IsQuiet id response))
        | inr other ↦ rw other (λ t. (0, refl, tt))
      ]

  pub dse_02x-Adds :
      (s : Session)
      → HasApi id s api
      → Adds w.answer
          (Accepts w dse_02x)
          (plan w dse_02x api fields)
          s.sent
          (Dse02x.run_task w.answer w.parse w.parse_start id fields s)
  unfolding Dse02x.run_task Dse02x.do_get must_get
  dse_02x-Adds s h =
      let check = check_dse_02x w.parse in
      let request = λ (path : String). Dse02x.request_of (concat (api ∷ path ∷ [])) fields in
      rw h (
        ask-then-Sends w check (λ n. request "/api/node/start" ∷ request "/api/node/add" ∷ [])
          (request "/api/cluster/add") _
          (λ a.
            ask-then-Sends w check (λ n. request "/api/node/start" ∷ []) (request "/api/node/add") _
              (λ b.
                ask-then-Sends w check (nothing w.answer (Accepts w dse_02x))
                  (request "/api/node/start") _
                  (λ body.
                    silent w.answer (Accepts w dse_02x)
                      (dse_02x_context-IsQuiet w.parse w.parse_start id body))))
          s)
