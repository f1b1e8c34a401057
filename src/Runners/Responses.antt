-- ===== src/Runners/Responses.antt =====
-- The checkResponse functions of runners/. `parse` reads a body as a JSON object.
use stack_deploy.Prelude.{String, Bool, false, Option, none, some, eqb, if◌then◌else◌}
use stack_deploy.Prelude.Text.{contains_text}
use stack_deploy.Runners.Results.{
  Json, boolean, Entries, Error, no_answer, unreadable, malformed, bad_status, reported,
  unknown_reason, invalid_response, invalid_success, Result, ok, err, ◌>>=◌, ◌>>◌, field, as_text,
  or_error, or_panic,
}
use stack_deploy.Runners.{Reply, no_reply, reply}

-- ioutil.ReadAll
abbrev pub body_of : Reply → Result String
body_of no_reply = err no_answer
body_of (reply status body) = or_error unreadable body

abbrev pub status_must_be_ok : Reply → Result (Unit {0})
status_must_be_ok no_reply = err no_answer
status_must_be_ok (reply status body) = if eqb status 200 then ok tt else err (bad_status status)

-- `.(bool)` and its `ok`
abbrev as_boolean : Option Json → Option Bool
as_boolean (some (boolean b)) = some b
as_boolean _ = none

abbrev is_true : Option Bool → Bool
is_true (some b) = b
is_true none = false

-- `response["Message"].(string)` panics on anything else.
abbrev message_or_panic : Option Json → Result (Unit {0})
message_or_panic message = or_panic (as_text message) >>= λ m. err (reported m)

module _ (parse : String → Option Entries) where
  unfoldable pub read_object : Reply → Result Entries
  read_object r = do body ← body_of r; or_error malformed (parse body)

  abbrev reason : Option String → Error
  reason none = unknown_reason
  reason (some message) = reported message

  abbrev success_or_message : Bool → Entries → Result Entries
  success_or_message success response =
      if success then ok response else err (reason (as_text (field "message" response)))

  -- DSE 0.1 and Zipkin.
  unfoldable pub check_success : Reply → Result Entries
  unfolding read_object field
  check_success r = do
    response ← read_object r
    success_or_message (is_true (as_boolean (field "success" response))) response

  -- The part that Statsd, Syslog and the Go Kafka client share.
  unfoldable pub success_field : Entries → Result (Unit {0})
  unfolding field
  success_field response = do
    raw ← or_error invalid_response (field "Success" response)
    success ← or_error invalid_success (as_boolean (some raw))
    if success then ok tt else message_or_panic (field "Message" response)

  unfoldable pub check_go_kafka_client : Reply → Result (Unit {0})
  unfolding read_object success_field
  check_go_kafka_client r = do response ← read_object r; success_field response

  unfoldable pub check_statsd : Reply → Result (Unit {0})
  unfolding check_go_kafka_client
  check_statsd r = do status_must_be_ok r; check_go_kafka_client r

  -- `errorMsg.(string)` panics on an error that is not a text.
  unfoldable pub check_kafka : Reply → Result (Unit {0})
  unfolding read_object field
  check_kafka r = do
    status_must_be_ok r
    response ← read_object r
    elim (field "error" response) [ none ↦ ok tt | some e ↦ message_or_panic (some e) ]

  -- DSE 0.2: only the error of a JSON object counts, and not that of a duplicate cluster.
  abbrev duplicate : String → Bool
  duplicate message = contains_text message "duplicate cluster"

  unfoldable pub check_dse_02x : Reply → Result String
  unfolding field
  check_dse_02x r = do
    body ← body_of r
    elim (parse body) [
      | none ↦ ok body
      | some response ↦ elim (as_text (field "error" response)) [
        | none ↦ ok body
        | some message ↦ if duplicate message then ok body else err (reported message)
      ]
    ]

-- exhibitorApiResponse, with what its value is read into.
pub record ApiResponse (A : Type 0) : Type 0 where
  pub success : Bool
  pub message : String
  pub value : A

unfoldable pub check_exhibitor : {A : Type 0} → (String → Option (ApiResponse A)) → Reply → Result A
check_exhibitor parse r = do
  body ← body_of r
  response ← or_error malformed (parse body)
  if response.success then ok response.value else err (reported response.message)
