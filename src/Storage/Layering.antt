-- ===== src/Storage/Layering.antt =====
-- GetLayer and GetLayersStack, which the two storages share word for word: `get` is the storage's
-- GetStack. A zone stands on a cluster, and a cluster on a data center.
use stack_deploy.Prelude.{String, Option, some, none, ◌==◌, if◌then◌else◌}
use stack_deploy.Stack.{Stack}
use stack_deploy.Layers.{Layer, new_layer, merge_layer}
use stack_deploy.Storage.{Result, ok, err, no_layer, cannot_merge, merge_panics, ◌>>=◌}

abbrev layer_or_error : String → Stack → Option Layer → Result Layer
layer_or_error name s none = err (no_layer name s.layer)
layer_or_error name s (some layer) = ok layer

abbrev merged_or_error : Layer → Layer → Option (Option Layer) → Result Layer
merged_or_error l other none = err (cannot_merge l.level other.level)
merged_or_error l other (some none) = err merge_panics
merged_or_error l other (some (some merged)) = ok merged

abbrev pub merge_onto : Layer → Layer → Result Layer
merge_onto l other = merged_or_error l other (merge_layer l other)

module _ (get : String → Result Stack) where
  unfoldable pub get_layer : String → Result Layer
  unfolding new_layer
  get_layer name = get name >>= λ s. layer_or_error name s (new_layer s)

  -- The last steps: the cluster goes onto the data center, and the zone onto the result.
  unfoldable pub merge_layers : Layer → Layer → Layer → Result Stack
  unfolding merge_layer
  merge_layers datacenter cluster zone =
      merge_onto datacenter cluster >>= λ both. merge_onto both zone >>= λ all. ok all.stack

  unfoldable pub get_layers_stack : String → Result Stack
  unfolding get_layer merge_layers
  get_layers_stack name = get_layer name >>= λ zone.
      if zone.stack.from == ""
      then ok zone.stack
      else (get_layer zone.stack.from >>= λ cluster.
          if cluster.stack.from == ""
          then ok cluster.stack
          else (get_layer cluster.stack.from >>= λ datacenter.
              merge_layers datacenter cluster zone))
