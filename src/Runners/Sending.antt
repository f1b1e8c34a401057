-- ===== src/Runners/Sending.antt =====
-- What steps send. `Accepts` is what a runner wants of an answer.
use mathlib.Core.List.{append_assoc, append-nil}
use stack_deploy.Prelude.{ℕ, ◌≡◌, refl, sym, ap, subst, ◌∙◌, List, [], ◌∷◌, ◌++◌}
use stack_deploy.Runners.Results.{Result, ok, err, panic}
use stack_deploy.Runners.{
  Request, Reply, Session, Outcome, done, failed, panicked, waiting, Step, continue, ◌>>=◌, lift,
  send,
}

module _ (web : List Request → Reply) (Accepts : Reply → Type 0) where
  -- Each of the requests, which were sent on top of `before`, had an answer that is accepted.
  abbrev pub Answered : List Request → List Request → Type 0
  Answered [] before = Unit
  Answered (r ∷ rs) before = Accepts (web (r ∷ (rs ++ before))) × Answered rs before

  -- A beginning of the requests was sent: the list has the newest first.
  abbrev pub Began : List Request → List Request → List Request → Type 0
  Began rs before sent =
      (later : List Request) × (now : List Request) × (rs ≡ later ++ now) × (sent ≡ now ++ before)

  -- A step that ends well sent one of the plans, with accepted answers; any other sent a beginning
  -- of one.
  abbrev pub Adds : {A : Type 0} → (ℕ → List Request) → List Request → Outcome A → Type 0
  Adds plans before (done a s) = (n : ℕ) × (s.sent ≡ plans n ++ before) × Answered (plans n) before
  Adds plans before (failed e s) = (n : ℕ) × Began (plans n) before s.sent
  Adds plans before (panicked s) = (n : ℕ) × Began (plans n) before s.sent
  Adds plans before (waiting s) = (n : ℕ) × Began (plans n) before s.sent

  abbrev pub Sends : {A : Type 0} → Step A → (ℕ → List Request) → Type 0
  Sends m plans = (s : Session) → Adds plans s.sent (m s)

  abbrev pub nothing : ℕ → List Request
  nothing n = []

  -- Plans on top of what was sent before.
  Answered-append :
      (rs qs before : List Request)
      → Answered rs (qs ++ before)
      → Answered qs before
      → Answered (rs ++ qs) before
  Answered-append [] qs before h k = k
  Answered-append (r ∷ rs) qs before h k =
      (rw (append_assoc rs qs before) h.0, Answered-append rs qs before h.1 k)

  Began-append :
      (rs qs before sent : List Request)
      → Began rs (qs ++ before) sent
      → Began (rs ++ qs) before sent
  Began-append rs qs before sent (later, now, e, f) = (
    later,
    now ++ qs,
    ap (λ x. x ++ qs) e ∙ append_assoc later now qs,
    f ∙ sym (append_assoc now qs before),
  )

  Adds-append :
      {A : Type 0} (plans : ℕ → List Request) (qs before : List Request) (o : Outcome A)
      → Adds plans (qs ++ before) o
      → Answered qs before
      → Adds (λ n. plans n ++ qs) before o
  Adds-append plans qs before (done a s) (n, e, h) k =
      (n, e ∙ sym (append_assoc (plans n) qs before), Answered-append (plans n) qs before h k)
  Adds-append plans qs before (failed e s) (n, h) k = (n, Began-append (plans n) qs before s.sent h)
  Adds-append plans qs before (panicked s) (n, h) k = (n, Began-append (plans n) qs before s.sent h)
  Adds-append plans qs before (waiting s) (n, h) k = (n, Began-append (plans n) qs before s.sent h)

  pub Adds-plans :
      {A : Type 0} (plans others : ℕ → List Request) (before : List Request) (o : Outcome A)
      → ((n : ℕ) → (m : ℕ) × (plans n ≡ others m))
      → Adds plans before o
      → Adds others before o
  Adds-plans plans others before (done a s) same (n, e, h) = (
    (same n).0,
    subst (λ p. s.sent ≡ p ++ before) (same n).1 e,
    subst (λ p. Answered p before) (same n).1 h,
  )
  Adds-plans plans others before (failed e s) same (n, h) =
      ((same n).0, subst (λ p. Began p before s.sent) (same n).1 h)
  Adds-plans plans others before (panicked s) same (n, h) =
      ((same n).0, subst (λ p. Began p before s.sent) (same n).1 h)
  Adds-plans plans others before (waiting s) same (n, h) =
      ((same n).0, subst (λ p. Began p before s.sent) (same n).1 h)

  -- A step that sends nothing.
  pub lift-Sends : {A : Type 0} (r : Result A) → Sends (lift r) nothing
  unfolding lift
  lift-Sends (ok a) s = (0, refl, tt)
  lift-Sends (err e) s = (0, ([], [], refl, refl))
  lift-Sends panic s = (0, ([], [], refl, refl))

  continue-Sends :
      {A B : Type 0} (plans : ℕ → List Request) (qs before : List Request) (o : Outcome A)
      (next : A → Step B)
      → Adds (λ n. qs) before o
      → ((a : A) → Sends (next a) plans)
      → Adds (λ n. plans n ++ qs) before (continue o next)
  continue-Sends plans qs before (done a s) next (n, e, h) k =
      Adds-append plans qs before (next a s) (subst (λ x. Adds plans x (next a s)) e (k a s)) h
  continue-Sends plans qs before (failed e s) next (n, (later, now, f, g)) k = (
    0,
    (plans 0 ++ later, now, ap (λ x. plans 0 ++ x) f ∙ sym (append_assoc (plans 0) later now), g),
  )
  continue-Sends plans qs before (panicked s) next (n, (later, now, f, g)) k = (
    0,
    (plans 0 ++ later, now, ap (λ x. plans 0 ++ x) f ∙ sym (append_assoc (plans 0) later now), g),
  )
  continue-Sends plans qs before (waiting s) next (n, (later, now, f, g)) k = (
    0,
    (plans 0 ++ later, now, ap (λ x. plans 0 ++ x) f ∙ sym (append_assoc (plans 0) later now), g),
  )

  pub bind-Sends :
      {A B : Type 0} (plans : ℕ → List Request) (qs : List Request) (m : Step A) (next : A → Step B)
      → Sends m (λ n. qs)
      → ((a : A) → Sends (next a) plans)
      → Sends (m >>= next) (λ n. plans n ++ qs)
  bind-Sends plans qs m next h k s = continue-Sends plans qs s.sent (m s) next (h s) k

  -- A step that sends nothing, and one after it.
  pub quiet-Sends :
      {A B : Type 0} (plans : ℕ → List Request) (m : Step A) (next : A → Step B)
      → Sends m nothing
      → ((a : A) → Sends (next a) plans)
      → Sends (m >>= next) plans
  quiet-Sends plans m next h k s =
      Adds-plans (λ n. plans n ++ []) plans s.sent ((m >>= next) s) (λ n. (n, append-nil (plans n)))
        (bind-Sends plans [] m next h k s)

  -- A request whose answer is checked.
  pub exchange-Sends :
      {A : Type 0} (request : Request) (check : Reply → Result A)
      → ((answer : Reply) (a : A) → check answer ≡ ok a → Accepts answer)
      → Sends (send web request >>= λ answer. lift (check answer)) (λ n. request ∷ [])
  unfolding lift
  exchange-Sends {A = A} request check accepts s = checked (check (web (request ∷ s.sent))) refl
    where
      checked :
          (r : Result A)
          → check (web (request ∷ s.sent)) ≡ r
          → Adds (λ n. request ∷ []) s.sent (lift r (record s { sent = request ∷ s.sent }))
      checked (ok a) e = (0, refl, (accepts (web (request ∷ s.sent)) a e, tt))
      checked (err e) f = (0, ([], request ∷ [], refl, refl))
      checked panic f = (0, ([], request ∷ [], refl, refl))

  -- And a step after it, in the order in which a `do` block nests them.
  pub exchange-then-Sends :
      {A B : Type 0} (plans : ℕ → List Request) (request : Request) (check : Reply → Result A)
      (next : A → Step B)
      → ((answer : Reply) (a : A) → check answer ≡ ok a → Accepts answer)
      → ((a : A) → Sends (next a) plans)
      → Sends
          (send web request >>= λ answer. lift (check answer) >>= next)
          (λ n. plans n ++ request ∷ [])
  exchange-then-Sends plans request check next accepts k =
      bind-Sends plans (request ∷ []) (send web request >>= λ answer. lift (check answer)) next
        (exchange-Sends request check accepts) k
