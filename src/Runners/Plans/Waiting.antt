-- ===== src/Runners/Plans/Waiting.antt =====
-- What RunTask has seen when it returns nil, where its requests do not tell.
use stack_deploy.Prelude.{
  ℕ, zero, suc, String, ◌≡◌, refl, ap, sym, Bool, true, false, Option, none, some, List, [], ◌∷◌,
  arith, ◌==◌, eqb, if◌then◌else◌, length, All,
}
use stack_deploy.Prelude.Text.{concat}
use stack_deploy.Map.{Map}
use stack_deploy.Runners.Exhibitor
use stack_deploy.Runners.Registry.{
  TaskRunner, kafka, exhibitor, dse, dse_02x, statsd, syslog, zipkin, go_kafka_client,
  elasticsearch, Web, run_task,
}
use stack_deploy.Runners.Results.{Result, ok, err, panic}
use stack_deploy.Runners.Responses.{check_exhibitor}
use stack_deploy.Runners.{
  Session, Outcome, done, failed, panicked, waiting, continue, Step, ◌>>=◌, lift, return, must_get,
}

-- The Zookeepers of a view that serve.
abbrev pub serving : List (Option Exhibitor.ZookeeperStatus) → ℕ
serving [] = 0
serving (none ∷ view) = serving view
serving (some zk ∷ view) =
    let rest = serving view in if zk.description == "serving" then suc rest else rest

-- Every server sees as many Zookeepers serving as there are servers.
abbrev pub AllServe : List (Option Exhibitor.ExhibitorStatus) → Type 0
AllServe statuses =
    All
      (λ pointer.
        (status : Exhibitor.ExhibitorStatus) × (pointer ≡ some status)
        × (serving status.cluster_view ≡ length statuses))
      statuses

abbrev pub Waited : Web → Outcome (Unit {0}) → Type 0
Waited w (done u s) =
    (status : Exhibitor.ClusterStatus) × (check_exhibitor w.parse_status (w.answer s.sent)
      ≡ ok status)
    × AllServe status.server_statuses
Waited w (failed e s) = Unit
Waited w (panicked s) = Unit
Waited w (waiting s) = Unit

abbrev pub Never : Outcome (Unit {0}) → Type 0
Never (done u s) = ⊥
Never (failed e s) = Unit
Never (panicked s) = Unit
Never (waiting s) = Unit

-- The newest answer of Exhibitor is a status with which all serve, and Elasticsearch never returns
-- nil.
abbrev pub Ends : Web → TaskRunner → Outcome (Unit {0}) → Type 0
Ends w exhibitor outcome = Waited w outcome
Ends w elasticsearch outcome = Never outcome
Ends w kafka outcome = Unit
Ends w dse outcome = Unit
Ends w dse_02x outcome = Unit
Ends w statsd outcome = Unit
Ends w syslog outcome = Unit
Ends w zipkin outcome = Unit
Ends w go_kafka_client outcome = Unit

with_one-ok :
    (zk : Exhibitor.ZookeeperStatus) (r : Result ℕ) (n : ℕ)
    → Exhibitor.with_one zk r ≡ ok n
    → (m : ℕ) × (r ≡ ok m) × (n ≡ (if zk.description == "serving" then suc m else m))
with_one-ok zk (ok m) n h = (m, refl, cc)
with_one-ok zk (err e) n h = cc
with_one-ok zk panic n h = cc

count_serving-serving :
    (view : List (Option Exhibitor.ZookeeperStatus)) (n : ℕ)
    → Exhibitor.count_serving view ≡ ok n
    → serving view ≡ n
unfolding Exhibitor.count_serving
count_serving-serving [] n h = cc
count_serving-serving (none ∷ view) n h = cc
count_serving-serving (some zk ∷ view) n h =
    let (m, e, f) = with_one-ok zk (Exhibitor.count_serving view) n h in
    rw (count_serving-serving view m e) (sym f)

if-ok :
    (b : Bool) (rest : Result Bool)
    → (if b then rest else ok false) ≡ ok true
    → (b ≡ true) × (rest ≡ ok true)
if-ok true rest h = (refl, h)
if-ok false rest h = cc

with_server-ok :
    (target : ℕ) (count : Result ℕ) (rest : Result Bool)
    → Exhibitor.with_server target count rest ≡ ok true
    → (count ≡ ok target) × (rest ≡ ok true)
with_server-ok target (ok running) rest h =
    let (same, later) = if-ok (eqb target running) rest h in
    let equal : running ≡ target = ground arith in (ap ok equal, later)
with_server-ok target (err e) rest h = cc
with_server-ok target panic rest h = cc

all_serving-AllServe :
    (target : ℕ) (statuses : List (Option Exhibitor.ExhibitorStatus))
    → Exhibitor.all_serving target statuses ≡ ok true
    → All
        (λ pointer.
          (status : Exhibitor.ExhibitorStatus) × (pointer ≡ some status)
          × (serving status.cluster_view ≡ target))
        statuses
unfolding Exhibitor.all_serving
all_serving-AllServe target [] h = tt
all_serving-AllServe target (none ∷ statuses) h = cc
all_serving-AllServe target (some status ∷ statuses) h =
    let (here, later) =
      with_server-ok target (Exhibitor.count_serving status.cluster_view)
        (Exhibitor.all_serving target statuses) h in
    (
      (status, refl, count_serving-serving status.cluster_view target here),
      all_serving-AllServe target statuses later,
    )

module _ (w : Web) where
  -- A record, so that a goal names its step.
  record Waits (m : Step (Unit {0})) : Type 0 where
    ends : (s : Session) → Waited w (m s)

  continue-Waited :
      {A : Type 0} (o : Outcome A) (next : A → Step (Unit {0}))
      → ((a : A) → Waits (next a))
      → Waited w (continue o next)
  continue-Waited (done a s) next h = (h a).ends s
  continue-Waited (failed e s) next h = tt
  continue-Waited (panicked s) next h = tt
  continue-Waited (waiting s) next h = tt

  -- A step ends well when what follows it does.
  then-Waits :
      {A : Type 0} (m : Step A) {next : A → Step (Unit {0})}
      → ((a : A) → Waits (next a))
      → Waits (m >>= next)
  then-Waits m {next = next} h = record { ends = λ s. continue-Waited (m s) next h }

  -- A round, by what is read of the answer.
  lift-Ends :
      (running : Result Bool) (later : Step (Unit {0})) (s : Session)
      → (running ≡ ok true → Ends w exhibitor (done tt s))
      → Ends w exhibitor (later s)
      → Ends w exhibitor (continue (lift running s) (λ r. if r then return tt else later))
  unfolding lift
  lift-Ends (ok true) later s h k = h refl
  lift-Ends (ok false) later s h k = k
  lift-Ends (err e) later s h k = tt
  lift-Ends panic later s h k = tt

  round-Ends :
      (answer : Result Exhibitor.ClusterStatus) (later : Step (Unit {0})) (s : Session)
      → check_exhibitor w.parse_status (w.answer s.sent) ≡ answer
      → Ends w exhibitor (later s)
      → Ends w exhibitor (
          continue (lift answer s) (λ c.
            lift (Exhibitor.all_serving (length c.server_statuses) c.server_statuses) >>= λ r.
            if r then return tt else later))
  unfolding lift
  round-Ends (ok c) later s e k =
      lift-Ends (Exhibitor.all_serving (length c.server_statuses) c.server_statuses) later s
        (λ all. (c, e, all_serving-AllServe (length c.server_statuses) c.server_statuses all)) k
  round-Ends (err e) later s f k = tt
  round-Ends panic later s f k = tt

  await-Ends :
      (api : String) (rounds : ℕ) (s : Session)
      → Ends w exhibitor
          (Exhibitor.await_zookeeper_running w.answer w.parse_cluster w.parse_status api rounds s)
  unfolding Exhibitor.await_zookeeper_running Exhibitor.status
  await-Ends api zero s = tt
  await-Ends api (suc rounds) s =
      let next : Session = record s { sent = Exhibitor.status_request api ∷ s.sent } in
      round-Ends (check_exhibitor w.parse_status (w.answer next.sent))
        (Exhibitor.await_zookeeper_running w.answer w.parse_cluster w.parse_status api rounds) next
        refl (await-Ends api rounds next)

  exhibitor-Waits :
      (rounds : ℕ) (id : String) (fields : Map String)
      → Waits (Exhibitor.run_task w.answer w.parse_cluster w.parse_status rounds id fields)
  unfolding Exhibitor.run_task
  exhibitor-Waits rounds id fields =
      let ask = Exhibitor.get_cluster w.answer w.parse_cluster w.parse_status in
      then-Waits (must_get (concat (id ∷ ".api" ∷ []))) λ api.
        then-Waits (ask (Exhibitor.add_request api fields)) λ a.
          then-Waits (ask (Exhibitor.update_request api fields)) λ b.
            then-Waits (ask (Exhibitor.start_request api fields)) λ response.
              then-Waits (Exhibitor.fill_task_context id response)
                λ t. record { ends = await-Ends api rounds }

  pub run_task-Ends :
      (runner : TaskRunner) (rounds : ℕ) (id : String) (fields : Map String) (s : Session)
      → Ends w runner (run_task w rounds runner id fields s)
  unfolding run_task
  run_task-Ends kafka rounds id fields s = tt
  run_task-Ends exhibitor rounds id fields s = (exhibitor-Waits rounds id fields).ends s
  run_task-Ends dse rounds id fields s = tt
  run_task-Ends dse_02x rounds id fields s = tt
  run_task-Ends statsd rounds id fields s = tt
  run_task-Ends syslog rounds id fields s = tt
  run_task-Ends zipkin rounds id fields s = tt
  run_task-Ends go_kafka_client rounds id fields s = tt
  run_task-Ends elasticsearch rounds id fields s = tt
