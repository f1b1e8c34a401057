-- ===== src/Runners/Plans/Polling.antt =====
-- DSE 0.1, whose fields may be unreadable, and Exhibitor, which polls.
use mathlib.Core.List.{append_assoc}
use stack_deploy.Prelude.{
  ℕ, zero, suc, String, ◌≡◌, refl, sym, ap, inl, inr, Bool, true, false, none, some, List, [], ◌∷◌,
  ◌++◌, length, if◌then◌else◌, Option-cases,
}
use stack_deploy.Prelude.Text.{concat}
use stack_deploy.Map.{Map}
use stack_deploy.Runners.Dse
use stack_deploy.Runners.Exhibitor
use stack_deploy.Runners.Registry.{exhibitor, dse, Web}
use stack_deploy.Runners.Results.{Json}
use stack_deploy.Runners.Responses.{check_success, check_exhibitor}
use stack_deploy.Runners.{Request, post_request, Reply, Session, return, lift, must_get}
use stack_deploy.Runners.Sending.{
  Adds, Sends, nothing, Adds-plans, lift-Sends, bind-Sends, quiet-Sends, exchange-Sends,
}
use stack_deploy.Runners.Quiet.{dse_context-IsQuiet, exhibitor_context-IsQuiet}
use stack_deploy.Runners.Plans.{Accepts, polls, posted, plan}
use stack_deploy.Runners.Plans.Asking.{ask-Sends, silent, HasApi}

module _ (w : Web) (id api : String) (fields : Map String) where
  do_post-Sends :
      (url : String) (params : Map Json)
      → Dse.post_params w.answer w.parse w.parse_float fields [] ≡ some params
      → Sends w.answer
          (Accepts w dse)
          (Dse.do_post w.answer w.parse w.parse_float url fields)
          (λ n. post_request url params ∷ [])
  unfolding Dse.do_post lift
  do_post-Sends url params e s =
      rw e (ask-Sends w (check_success w.parse) (post_request url params) s)

  unread-Adds :
      (s : Session)
      → HasApi id s api
      → Dse.post_params w.answer w.parse w.parse_float fields [] ≡ none
      → Adds w.answer
          (Accepts w dse)
          (nothing w.answer (Accepts w dse))
          s.sent
          (Dse.run_task w.answer w.parse w.parse_float id fields s)
  unfolding Dse.run_task Dse.do_post must_get lift
  unread-Adds s h e = rw (h, e) (0, ([], [], refl, refl))

  pub dse-Adds :
      (s : Session)
      → HasApi id s api
      → Adds w.answer
          (Accepts w dse)
          (plan w dse api fields)
          s.sent
          (Dse.run_task w.answer w.parse w.parse_float id fields s)
  unfolding Dse.run_task must_get
  dse-Adds s h = elim (Option-cases (Dse.post_params w.answer w.parse w.parse_float fields [])) [
    | inl e ↦
        Adds-plans w.answer accepts (nothing w.answer accepts) (plan w dse api fields) s.sent _
          (λ n. (n, ap (λ o. posted o api) (sym e))) (unread-Adds s h e)
    | inr (params, e) ↦
        let posts : ℕ → List Request =
          λ n. post_request start params ∷ post_request add params ∷ [] in
        Adds-plans w.answer accepts posts (plan w dse api fields) s.sent _
          (λ n. (n, ap (λ o. posted o api) (sym e)))
          (rw h (
            bind-Sends w.answer accepts (λ n. post_request start params ∷ [])
              (post_request add params ∷ []) (Dse.do_post w.answer w.parse w.parse_float add fields)
              _ (do_post-Sends add params e)
              (λ a.
                bind-Sends w.answer accepts (nothing w.answer accepts)
                  (post_request start params ∷ [])
                  (Dse.do_post w.answer w.parse w.parse_float start fields) _
                  (do_post-Sends start params e)
                  (λ response. silent w.answer accepts (dse_context-IsQuiet id response)))
              s))
  ]
    where
      accepts : Reply → Type 0
      accepts = Accepts w dse

      add : String
      add = concat (api ∷ "/api/add" ∷ [])

      start : String
      start = concat (api ∷ "/api/start" ∷ [])

  exhibitor_status-Sends :
      Sends w.answer
        (Accepts w exhibitor)
        (Exhibitor.status w.answer w.parse_cluster w.parse_status api)
        (λ n. Exhibitor.status_request api ∷ [])
  unfolding Exhibitor.status
  exhibitor_status-Sends =
      exchange-Sends w.answer (Accepts w exhibitor) (Exhibitor.status_request api)
        (check_exhibitor w.parse_status) (λ answer a e. inr (a, e))

  get_cluster-Sends :
      (request : Request)
      → Sends w.answer
          (Accepts w exhibitor)
          (Exhibitor.get_cluster w.answer w.parse_cluster w.parse_status request)
          (λ n. request ∷ [])
  unfolding Exhibitor.get_cluster
  get_cluster-Sends request =
      exchange-Sends w.answer (Accepts w exhibitor) request (check_exhibitor w.parse_cluster)
        (λ answer a e. inl (a, e))

  -- After the first poll there are any number of further ones.
  again-Sends :
      (rounds : ℕ) (running : Bool)
      → Sends w.answer
          (Accepts w exhibitor)
          (Exhibitor.await_zookeeper_running w.answer w.parse_cluster w.parse_status api rounds)
          (λ n. polls api (suc n))
      → Sends w.answer
          (Accepts w exhibitor)
          (if running
            then return tt
            else Exhibitor.await_zookeeper_running w.answer w.parse_cluster w.parse_status api
                rounds)
          (polls api)
  again-Sends rounds true h s = (0, refl, tt)
  again-Sends rounds false h s =
      Adds-plans w.answer (Accepts w exhibitor) (λ n. polls api (suc n)) (polls api) s.sent
        (Exhibitor.await_zookeeper_running w.answer w.parse_cluster w.parse_status api rounds s)
        (λ n. (suc n, refl)) (h s)

  await-Sends :
      (rounds : ℕ)
      → Sends w.answer
          (Accepts w exhibitor)
          (Exhibitor.await_zookeeper_running w.answer w.parse_cluster w.parse_status api rounds)
          (λ n. polls api (suc n))
  unfolding Exhibitor.await_zookeeper_running
  await-Sends zero s = (0, (polls api 1, [], refl, refl))
  await-Sends (suc rounds) s =
      let accepts = Accepts w exhibitor in
      bind-Sends w.answer accepts (polls api) (Exhibitor.status_request api ∷ [])
        (Exhibitor.status w.answer w.parse_cluster w.parse_status api) _ exhibitor_status-Sends
        (λ answer.
          quiet-Sends w.answer accepts (polls api)
            (lift (Exhibitor.all_serving (length answer.server_statuses) answer.server_statuses)) _
            (lift-Sends w.answer accepts _)
            (λ running. again-Sends rounds running (await-Sends rounds)))
        s

  pub exhibitor-Adds :
      (rounds : ℕ) (s : Session)
      → HasApi id s api
      → Adds w.answer
          (Accepts w exhibitor)
          (plan w exhibitor api fields)
          s.sent
          (Exhibitor.run_task w.answer w.parse_cluster w.parse_status rounds id fields s)
  unfolding Exhibitor.run_task must_get
  exhibitor-Adds rounds s h =
      let accepts = Accepts w exhibitor in
      let get_cluster = Exhibitor.get_cluster w.answer w.parse_cluster w.parse_status in
      let add = Exhibitor.add_request api fields in
      let update = Exhibitor.update_request api fields in
      let start = Exhibitor.start_request api fields in
      rw h (
        Adds-plans w.answer accepts
          (λ n. ((polls api (suc n) ++ start ∷ []) ++ update ∷ []) ++ add ∷ []) _ s.sent _
          (λ n. (
            n,
            rw (append_assoc (polls api (suc n) ++ start ∷ []) (update ∷ []) (add ∷ []))
                (append_assoc (polls api (suc n)) (start ∷ []) (update ∷ add ∷ [])),
          ))
          (bind-Sends w.answer accepts (λ n. (polls api (suc n) ++ start ∷ []) ++ update ∷ [])
            (add ∷ []) (get_cluster add) _ (get_cluster-Sends add)
            (λ a.
              bind-Sends w.answer accepts (λ n. polls api (suc n) ++ start ∷ []) (update ∷ [])
                (get_cluster update) _ (get_cluster-Sends update)
                (λ b.
                  bind-Sends w.answer accepts (λ n. polls api (suc n)) (start ∷ [])
                    (get_cluster start) _ (get_cluster-Sends start)
                    (λ cluster.
                      quiet-Sends w.answer accepts (λ n. polls api (suc n))
                        (Exhibitor.fill_task_context id cluster) _
                        (silent w.answer accepts (exhibitor_context-IsQuiet id cluster))
                        (λ t. await-Sends rounds))))
            s))
