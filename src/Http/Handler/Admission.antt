-- ===== src/Http/Handler/Admission.antt =====
-- authorized_handler.hpp: who gets as far as the data of a practice, and what two requests under one
-- key at one time come to.
use pdr.Base.{◌≡◌, true, false, ◌⊎◌}
use pdr.Core.Errors.{ok}
use pdr.Http.Keys.{IdempotencyKey, translate, mutating, parse_key}
use pdr.Http.Handler.{Caller, Request, Handler}

module _ {Json Data : Type 0} (handler : Handler Json Data) where
  -- The body follows the schema, the person is known and allowed, and a request that changes something
  -- has a key.
  pub record IsAdmitted (request : Request) : Type 0 where
    pub body : Json
    pub caller : Caller
    pub follows : (handler.parse request.body).0 ≡ ok body
    pub is_known :
        handler.identify
          (request.cookie_of handler.where_from.cookie)
          (request.header_of handler.where_from.header)
        ≡ ok caller
    pub is_allowed :
        (handler.decide caller.tenant caller.actor handler.wants
          (handler.about caller body)).is_allowed
        ≡ true
    pub keyed :
        (mutating (translate request.method) ≡ false)
        ⊎ ((key : IdempotencyKey) × (parse_key (request.header_of "Idempotency-Key") ≡ ok key))
