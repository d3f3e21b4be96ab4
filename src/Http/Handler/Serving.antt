-- ===== src/Http/Handler/Serving.antt =====
-- authorized_handler.hpp: `Serve`, with the answer that it puts together.
use pdr.Base.{not, List, [], ◌∷◌, ◌++◌, Option, none, some, String, pos, if◌then◌else◌}
use pdr.Core.Errors.{Result, ok, err}
use pdr.Core.Time.{Instant}
use pdr.Identity.Actions.{PolicyDecision}
use pdr.Http.Keys.{
  IdempotencyKey, RequestFingerprint, translate, mutating, parse_key, parse_fingerprint,
  ClaimOutcome, taken, replay, in_flight,
}
use pdr.Http.Problems.{
  Occasion, Problem, error_as_problem, decision_as_problem, unidentified, malformed, key_required,
  key_in_flight, request_id_of, security_headers,
}
use pdr.Http.Store.{KeyRow}
use pdr.Http.Handler.{
  Caller, Request, Handler, Response, Database, Region, answered, declined, crashed, Served, plain,
  guarded,
}

-- What `Serve` comes to: a response, or a fault that goes on to the framework.
pub data Reaction : Type 0 where
  responded : Response → Reaction
  fault : Reaction

abbrev no_key : Option IdempotencyKey
no_key = none

abbrev key_text : Option IdempotencyKey → String
key_text none = ""
key_text (some key) = key.value

module _ {Json Data : Type 0} (handler : Handler Json Data) where
  -- `Refuse`, after the headers that every response has.
  unfoldable pub refuse_with : List (String × String) → Problem → Reaction
  refuse_with headers problem = responded (record {
    status = pos problem.status;
    headers = headers ++ ("Content-Type", "application/problem+json") ∷ [];
    body = handler.render problem;
  })

  -- The headers of an answer that was not refused.
  abbrev answer_headers : ClaimOutcome → List (String × String)
  answer_headers replay =
      ("Content-Type", "application/json") ∷ ("Idempotency-Replayed", "true") ∷ []
  answer_headers taken = ("Content-Type", "application/json") ∷ []
  answer_headers in_flight = ("Content-Type", "application/json") ∷ []
  answer_headers ClaimOutcome.boundary = ("Content-Type", "application/json") ∷ []

  answer_served : List (String × String) → Served → Occasion → Option IdempotencyKey → Reaction
  unfolding refuse_with
  answer_served headers served occasion key = elim served.outcome [
    | ClaimOutcome.in_flight ↦ refuse_with headers (key_in_flight (key_text key) occasion)
    | _ ↦ responded (record {
      status = served.answer.status;
      headers = headers ++ answer_headers served.outcome;
      body = served.answer.body;
    })
  ]

  -- `Answer`.
  unfoldable pub answer :
      List (String × String) → Region Served → Occasion → Option IdempotencyKey → Reaction
  unfolding answer_served refuse_with
  answer headers (answered served) occasion key = answer_served headers served occasion key
  answer headers (declined refusal) occasion key =
      refuse_with headers (error_as_problem refusal occasion)
  answer headers crashed occasion key = fault

  module _ (seen : List KeyRow) (now : Instant) (request : Request) (request_id : String)
      (headers : List (String × String)) (database : Database Data) where
    abbrev occasion : Occasion
    occasion = record { instance_path = request.path; request_id = request_id }

    -- With the key and the fingerprint.
    with_fingerprint :
        Caller → Json → IdempotencyKey → Result RequestFingerprint → Reaction × Database Data
    unfolding answer guarded
    with_fingerprint caller body key (ok fingerprint) =
        let region = guarded handler seen now caller body request_id key fingerprint database in
        (answer headers region.0 occasion (some key), region.1)
    with_fingerprint caller body key (err e) = (fault, database)

    with_key : Caller → Json → Result IdempotencyKey → Reaction × Database Data
    unfolding with_fingerprint refuse_with
    with_key caller body (ok key) =
        with_fingerprint caller body key (parse_fingerprint (handler.sha256 request.body))
    with_key caller body (err e) =
        (refuse_with headers (key_required "Idempotency-Key" occasion), database)

    -- After the decision.
    permitted : Caller → Json → Reaction × Database Data
    unfolding answer with_key plain
    permitted caller body =
        if not (mutating (translate request.method))
        then (
          answer headers (plain handler caller body request_id database).0 occasion no_key,
          (plain handler caller body request_id database).1,
        )
        else with_key caller body (parse_key (request.header_of "Idempotency-Key"))

    decided : Caller → Json → PolicyDecision → Reaction × Database Data
    unfolding permitted refuse_with
    decided caller body decision =
        if not decision.is_allowed
        then (refuse_with headers (decision_as_problem decision occasion), database)
        else permitted caller body

    identified : Json → Result Caller → Reaction × Database Data
    unfolding decided refuse_with
    identified body (ok caller) =
        decided caller body
          (handler.decide caller.tenant caller.actor handler.wants (handler.about caller body))
    identified body (err e) = (refuse_with headers (unidentified e occasion), database)

    parsed : Result Json × String → Reaction × Database Data
    unfolding identified refuse_with
    parsed (ok body, field) = identified body (
        handler.identify (request.cookie_of handler.where_from.cookie)
          (request.header_of handler.where_from.header))
    parsed (err e, field) = (refuse_with headers (malformed e field occasion), database)

  -- `Serve`. The identifier that the framework's tracing gives is `traced`.
  unfoldable pub serve :
      List KeyRow → Instant → String → Request → Database Data → Reaction × Database Data
  unfolding parsed request_id_of security_headers
  serve seen now traced request database =
      let request_id = request_id_of (request.header_of "X-Request-Id") traced in
      parsed seen now request request_id (security_headers ++ ("X-Request-Id", request_id) ∷ [])
        database (handler.parse request.body)
