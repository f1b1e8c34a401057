-- ===== src/Client.antt =====
-- framework/client.go: the HTTP client of the API. Its requests carry the commands of the server; how
-- JSON writes them, the answer of the server, and the reading of answers are parameters.
use stack_deploy.Prelude.{ℕ, String, Option, none, some, List, [], ◌∷◌, Bool, eqb, if◌then◌else◌}
use stack_deploy.Prelude.Text.{concat, http_base}
use stack_deploy.Stack.{Stack}
use stack_deploy.Server.{
  Command, list, scheduled, health, get, run, create_stack, create_layer, remove_stack,
  remove_scheduled, create_user, refresh_token, RunRequest, ScheduledTask,
}
use stack_deploy.Prelude.Int.{ℤ}

pub record Client : Type 0 where
  pub host : String
  pub user : String
  pub key : String

-- The user and the key are those of the environment.
unfoldable pub new_client : String → String → String → Client
new_client user key host = record { host = http_base host; user = user; key = key }

-- An apiRequest's url, by the method that sends it.
unfoldable pub url : Command → String
url health = "/health"
url list = "/list"
url (get name) = "/get"
url (run request) = "/run"
url (create_stack text) = "/createstack"
url (create_layer layer) = "/createlayer"
url (remove_stack name force) = "/removestack"
url (create_user user) = "/createuser"
url (refresh_token name) = "/refreshtoken"
url scheduled = "/scheduled"
url (remove_scheduled id) = "/scheduled/delete"

-- The answer to a POST: none, or a status code with the content, `none` where it cannot be read.
pub data Answer : Type 0 where
  no_answer : Answer
  answer : ℕ → Option String → Answer

pub data Error : Type 0 where
  failed malformed : Error
  refused : (content : String) → Error

pub data Result (A : Type 0) : Type 0 where
  ok : A → Result A
  err : Error → Result A

infixl 5 ◌>>=◌ ◌>>◌
abbrev pub ◌>>=◌ : {A B : Type 0} → Result A → (A → Result B) → Result B
ok a >>= f = f a
err e >>= f = err e

abbrev pub ◌>>◌ : {A B : Type 0} → Result A → Result B → Result B
m >> k = m >>= λ _. k

abbrev content_of : Answer → Result String
content_of no_answer = err failed
content_of (answer status none) = err failed
content_of (answer status (some content)) =
    if eqb status 200 then ok content else err (refused content)

abbrev pub or_malformed : {A : Type 0} → Option A → Result A
or_malformed none = err malformed
or_malformed (some a) = ok a

-- `post` gets the url, the credentials and the data, whose JSON is `none` where it cannot be written.
module _ (marshal : Command → Option String) (post : String → String → String → String → Answer)
    (read_names : String → Option (List String)) (read_stack : String → Option Stack)
    (read_tasks : String → Option (List ScheduledTask)) (c : Client) where
  unfoldable pub request : Command → Result String
  unfolding url
  request command = do
    data_text ← or_malformed (marshal command)
    content_of (post (concat (c.host ∷ url command ∷ [])) c.user c.key data_text)

  -- The methods that only tell whether they failed, and those that give the answer as it is.
  unfoldable pub ping : Result (Unit {0})
  unfolding request
  ping = request health >> ok tt

  unfoldable pub run_stack : RunRequest → Result (Unit {0})
  unfolding request
  run_stack r = request (run r) >> ok tt

  unfoldable pub create_a_stack : Option String → Result (Unit {0})
  unfolding request
  create_a_stack r = request (create_stack r) >> ok tt

  unfoldable pub create_a_layer : Option (String × (String × String)) → Result (Unit {0})
  unfolding request
  create_a_layer r = request (create_layer r) >> ok tt

  unfoldable pub remove_a_stack : String → Bool → Result (Unit {0})
  unfolding request
  remove_a_stack name force = request (remove_stack name force) >> ok tt

  unfoldable pub create_a_user : Option (String × String) → Result String
  unfolding request
  create_a_user r = request (create_user r)

  unfoldable pub refresh : Option String → Result String
  unfolding request
  refresh r = request (refresh_token r)

  unfoldable pub remove_a_schedule : Option ℤ → Result String
  unfolding request
  remove_a_schedule r = request (remove_scheduled r)

  -- And those that read it.
  unfoldable pub list_stacks : Result (List String)
  unfolding request
  list_stacks = request list >>= λ content. or_malformed (read_names content)

  unfoldable pub get_stack : String → Result Stack
  unfolding request
  get_stack name = request (get name) >>= λ content. or_malformed (read_stack content)

  unfoldable pub list_scheduled : Result (List ScheduledTask)
  unfolding request
  list_scheduled = request scheduled >>= λ content. or_malformed (read_tasks content)
