-- ===== src/Mesos.antt =====
-- framework/mesos_state.go and framework/framework_storage.go: the state of the Mesos cluster, and the
-- id of the framework in persistent storage.
use stack_deploy.Prelude.{String, Bool, Option, none, some, [], ◌∷◌, ◌==◌, if◌then◌else◌}
use stack_deploy.Prelude.Text.{split_at_char, concat, http_base}
use stack_deploy.Application.Slaves.{MesosState}
use stack_deploy.Variables.{Variables, new_variables}

pub record MesosClusterState : Type 0 where
  pub state : MesosState
  pub master : String

unfoldable pub new_mesos_cluster_state : MesosState → String → MesosClusterState
new_mesos_cluster_state empty master = record { state = empty; master = http_base master }

abbrev keep_or : MesosClusterState → Option MesosState → MesosClusterState × Bool
keep_or ms none = (ms, Bool.false)
keep_or ms (some state) = (record ms { state = state }, Bool.true)

abbrev decoded :
    (String → MesosState → Option MesosState) → MesosState → Option String → Option MesosState
decoded decode state none = none
decoded decode state (some body) = decode body state

-- `get` is the body of an answer, `none` where there is an error, and `decode` reads it into the
-- state. The flag tells that there was no error; after one the state is as it was.
module _ (get : String → Option String) (decode : String → MesosState → Option MesosState) where
  unfoldable pub update : MesosClusterState → MesosClusterState × Bool
  update ms =
      keep_or ms (decoded decode ms.state (get (concat (ms.master ∷ "/master/state.json" ∷ []))))

-- The storages of the go-mesos-utils library by their place; `zk` may refuse one.
pub data Place : Type 0 where
  file zk : (at : String) → Place

abbrev place : (String → Bool) → String → String → Option Place
place zk_answers kind at =
    if kind == "file"
    then some (file at)
    else if kind == "zk"
    then (if zk_answers at then some (zk at) else none)
    else none

-- NewStorage: `none` is an error. SplitN cuts at the first colon.
unfoldable pub new_storage : (String → Bool) → String → Option Place
unfolding split_at_char
new_storage zk_answers storage = elim (split_at_char b':' storage) [
  | none ↦ none
  | some (kind, at) ↦ place zk_answers kind at
]

pub record FrameworkStorage : Type 0 where
  pub framework_id : String
  pub bootstrap_context : Variables
  pub storage : Place

unfoldable pub new_framework_storage : (String → Bool) → String → Option FrameworkStorage
unfolding new_storage
new_framework_storage zk_answers storage = elim (new_storage zk_answers storage) [
  | none ↦ none
  | some at ↦ some (record { framework_id = ""; bootstrap_context = new_variables; storage = at })
]

-- The texts that the storage keeps, and JSON. A text that cannot be read is a panic of Load, where
-- one that is not there leaves the storage as it was. Save ignores the error of the storage.
module _ {D : Type 0} (read : Place → D → Option String) (write : Place → String → D → D)
    (marshal : FrameworkStorage → Option String)
    (unmarshal : String → FrameworkStorage → Option FrameworkStorage) where
  unfoldable pub save : FrameworkStorage → D → Option D
  save s db = elim (marshal s) [ none ↦ none | some text ↦ some (write s.storage text db) ]

  unfoldable pub load : FrameworkStorage → D → Option FrameworkStorage
  load s db = elim (read s.storage db) [ none ↦ some s | some text ↦ unmarshal text s ]
