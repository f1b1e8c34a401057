-- ===== src/Runners/Registry.antt =====
-- taskRunners of main.go: the runner of each application type.
use stack_deploy.Prelude.{ℕ, String, Option, none, some, List, ◌==◌, if◌then◌else◌}
use stack_deploy.Prelude.Float.{Float64}
use stack_deploy.Map.{Map}
use stack_deploy.Runners.Kafka
use stack_deploy.Runners.Statsd
use stack_deploy.Runners.GoKafkaClient
use stack_deploy.Runners.Zipkin
use stack_deploy.Runners.Dse
use stack_deploy.Runners.Dse02x
use stack_deploy.Runners.Exhibitor
use stack_deploy.Runners.Elasticsearch
use stack_deploy.Runners.Results.{Entries}
use stack_deploy.Runners.Responses.{ApiResponse}
use stack_deploy.Runners.{Request, Reply, Step, MarathonTask, fill_context, ◌>>◌, return}

pub data TaskRunner : Type 0 where
  kafka exhibitor dse dse_02x statsd syslog zipkin go_kafka_client elasticsearch : TaskRunner

unfoldable pub task_runner : String → Option TaskRunner
task_runner type =
    if type == "kafka-mesos-0.9.x"
    then some kafka
    else if type == "exhibitor-mesos-0.1.x"
    then some exhibitor
    else if type == "dse-mesos-0.1.x"
    then some dse
    else if type == "dse-mesos-0.2.x"
    then some dse_02x
    else if type == "statsd-mesos-0.1.x"
    then some statsd
    else if type == "syslog-mesos-0.1.x"
    then some syslog
    else if type == "zipkin-mesos-0.1.x"
    then some zipkin
    else if type == "go-kafka-client-mesos-0.3.x"
    then some go_kafka_client
    else if type == "elasticsearch"
    then some elasticsearch
    else none

-- HTTP and what reads its bodies: JSON objects, the structs of three runners, and float64.
pub record Web : Type 0 where
  pub answer : List Request → Reply
  pub parse : String → Option Entries
  pub parse_float : String → Option Float64
  pub parse_start : String → Option Dse02x.StartResponse
  pub parse_cluster : String → Option (ApiResponse Exhibitor.Cluster)
  pub parse_status : String → Option (ApiResponse Exhibitor.ClusterStatus)
  pub parse_tasks : String → Option (List (Option Elasticsearch.ElasticsearchTask))

-- The two methods of a TaskRunner. `rounds` bounds what the model looks at of Exhibitor's wait, and
-- is what the five minutes of Elasticsearch's allow.
module _ (w : Web) (rounds : ℕ) where
  unfoldable pub run_task : TaskRunner → String → Map String → Step (Unit {0})
  unfolding Kafka.run_task Exhibitor.run_task Dse.run_task Dse02x.run_task Statsd.run_task
      Zipkin.run_task GoKafkaClient.run_task Elasticsearch.run_task
  run_task kafka = Kafka.run_task w.answer w.parse
  run_task exhibitor = Exhibitor.run_task w.answer w.parse_cluster w.parse_status rounds
  run_task dse = Dse.run_task w.answer w.parse w.parse_float
  run_task dse_02x = Dse02x.run_task w.answer w.parse w.parse_start
  run_task statsd = Statsd.run_task w.answer w.parse
  run_task syslog = Statsd.run_task w.answer w.parse
  run_task zipkin = Zipkin.run_task w.answer w.parse
  run_task go_kafka_client = GoKafkaClient.run_task w.answer w.parse
  run_task elasticsearch = Elasticsearch.run_task

  unfoldable pub fill : TaskRunner → String → MarathonTask → Step (Unit {0})
  unfolding fill_context Elasticsearch.fill_elasticsearch_context
  fill elasticsearch id task =
      Elasticsearch.fill_elasticsearch_context w.answer w.parse_tasks rounds id task
  fill runner id task = fill_context id task >> return tt
