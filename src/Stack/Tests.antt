-- ===== src/Stack/Tests.antt =====
-- The merge of two stacks that share an application.
use stack_deploy.Application.{Application}
use stack_deploy.Prelude.{Option, none, some, false, ◌≡◌, refl, [], ◌∷◌}
use stack_deploy.Map.{lookup, IsMap}
use stack_deploy.Application.Samples.{sample}
use stack_deploy.Stack.{Stack}
use stack_deploy.Stack.Merge.{merge_application, merged_option, lookup-scheduler-merge_application}

abbrev base : Stack
base = record {
  namespace = "";
  name = "base";
  from = "";
  applications = ("web", sample "web" "1" [] []) ∷ [];
  nil_applications = false;
  layer = 0;
}

-- It clears the option `zk`.
abbrev child : Stack
child = record base {
  name = "child";
  applications = ("web", record (sample "web" "1" [] []) { scheduler = ("zk", "") ∷ [] }) ∷ [];
}

abbrev SchedulerIsMap : Option Application → Type 0
SchedulerIsMap none = Unit
SchedulerIsMap (some app) = IsMap app.scheduler

lookup-scheduler-merge_application_example :
    lookup "zk"
      (merge_application
        (sample "web" "1" [] [])
        (record (sample "web" "1" [] []) { scheduler = ("zk", "") ∷ [] })).scheduler
    ≡ merged_option (lookup "zk" (("zk", "") ∷ [])) (lookup "zk" (sample "web" "1" [] []).scheduler)
unfolding lookup
lookup-scheduler-merge_application_example =
    lookup-scheduler-merge_application (sample "web" "1" [] [])
      (record (sample "web" "1" [] []) { scheduler = ("zk", "") ∷ [] }) "zk" (refl, tt)
