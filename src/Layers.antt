-- ===== src/Layers.antt =====
-- framework/layer.go, and layerToInt of framework/server.go: the stacks of zones, clusters and data
-- centers.
use stack_deploy.Prelude.{ℕ, String, Option, none, some, ◌==◌, eqb, ltb, if◌then◌else◌}
use stack_deploy.Stack.{Stack}
use stack_deploy.Stack.Merge.{merge}

abbrev pub layer_zone : ℕ
layer_zone = 0

abbrev pub layer_cluster : ℕ
layer_cluster = 1

abbrev pub layer_data_center : ℕ
layer_data_center = 2

abbrev pub layer_stack : ℕ
layer_stack = 3

pub record Layer : Type 0 where
  pub level : ℕ
  pub stack : Stack

-- NewLayer with NewZone, NewCluster and NewDataCenter; `none` is nil.
unfoldable pub new_layer : Stack → Option Layer
new_layer s =
    if eqb s.layer layer_zone
    then some (record { level = layer_zone; stack = s })
    else if eqb s.layer layer_cluster
    then some (record { level = layer_cluster; stack = s })
    else if eqb s.layer layer_data_center
    then some (record { level = layer_data_center; stack = s })
    else none

-- Layer.Merge: only a lower layer, or an equal one, can be merged. `none` is the error, and
-- `some none` the panic of Stack.Merge.
unfoldable pub merge_layer : Layer → Layer → Option (Option Layer)
merge_layer l other =
    if ltb l.level other.level
    then none
    else some (elim (merge l.stack other.stack) [
      | none ↦ none
      | some merged ↦ some (record l { stack = merged })
    ])

unfoldable pub layer_to_int : String → Option ℕ
layer_to_int layer =
    if layer == "zone"
    then some layer_zone
    else if layer == "cluster"
    then some layer_cluster
    else if layer == "datacenter"
    then some layer_data_center
    else none
