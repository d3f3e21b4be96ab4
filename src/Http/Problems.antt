-- ===== src/Http/Problems.antt =====
-- infrastructure/http/error_mapping.cpp with problem.hpp, problem.cpp, request_id and
-- security_headers.hpp: what a refusal becomes in the answer. The framework's rendering of a problem
-- as JSON is a parameter of the handler.
use Prim.Native.String.{len, ◌++◌}
use pdr.Base.{
  every_char, ℕ, Bool, false, not, ◌&&◌, ◌||◌, List, [], ◌∷◌, Option, none, some, String, ltb, leb,
  ◌==◌, if◌then◌else◌,
}
use pdr.Core.Errors.{Error, ErrorKind, validation, not_found, conflict, forbidden}
use pdr.Identity.Actions.{
  PolicyDecision, DenyReason, allowed, foreign_tenant, role_missing, not_yours, scope_missing,
  student_grew_up, too_young, no_policy, reason_name,
}

pub record Occasion : Type 0 where
  pub instance_path : String
  pub request_id : String

pub record Problem : Type 0 where
  pub type_urn : String
  pub title : String
  pub status : ℕ
  pub detail : String
  pub instance_path : String
  pub request_id : String
  pub field : Option String

unfoldable pub problem_type : String → String
problem_type code = "urn:pdr:error:" ++ code

-- `Build`.
unfoldable pub build : String → String → ℕ → String → Occasion → Problem
unfolding problem_type
build code title status detail occasion = record {
  type_urn = problem_type code;
  title = title;
  status = status;
  detail = detail;
  instance_path = occasion.instance_path;
  request_id = occasion.request_id;
  field = none;
}

unfoldable pub status_of_kind : ErrorKind → ℕ
status_of_kind validation = 422
status_of_kind not_found = 404
status_of_kind conflict = 409
status_of_kind forbidden = 403
status_of_kind ErrorKind.boundary = 500

unfoldable pub title_of_kind : ErrorKind → String
title_of_kind validation = "Данные не проходят правило"
title_of_kind not_found = "Не найдено"
title_of_kind conflict = "Состояние не позволяет"
title_of_kind forbidden = "Нельзя"
title_of_kind ErrorKind.boundary = "Поломка"

unfoldable pub error_as_problem : Error → Occasion → Problem
unfolding build status_of_kind title_of_kind
error_as_problem error occasion =
    build error.code (title_of_kind error.kind) (status_of_kind error.kind) error.detail occasion

unfoldable pub status_of_reason : DenyReason → ℕ
status_of_reason allowed = 200
status_of_reason foreign_tenant = 404
status_of_reason role_missing = 403
status_of_reason not_yours = 403
status_of_reason scope_missing = 403
status_of_reason student_grew_up = 403
status_of_reason too_young = 403
status_of_reason no_policy = 500
status_of_reason DenyReason.boundary = 500

unfoldable pub title_of_reason : DenyReason → String
title_of_reason allowed = "Можно"
title_of_reason foreign_tenant = "Не найдено"
title_of_reason role_missing = "Нельзя"
title_of_reason not_yours = "Нельзя"
title_of_reason scope_missing = "Нельзя"
title_of_reason student_grew_up = "Нельзя"
title_of_reason too_young = "Нельзя"
title_of_reason no_policy = "Поломка"
title_of_reason DenyReason.boundary = "Поломка"

unfoldable pub decision_as_problem : PolicyDecision → Occasion → Problem
unfolding build status_of_reason title_of_reason
decision_as_problem decision occasion =
    build (reason_name decision.reason) (title_of_reason decision.reason)
      (status_of_reason decision.reason) (reason_name decision.reason) occasion

unfoldable pub unidentified : Error → Occasion → Problem
unfolding build problem_type
unidentified error occasion = record (build "not_identified" "Кто вы" 401 error.detail occasion) {
  type_urn = problem_type error.code;
}

unfoldable pub malformed : Error → String → Occasion → Problem
unfolding build problem_type
malformed error field occasion =
    let problem =
      record (build "request_malformed" "Запрос не разобрался" 400 error.detail occasion) {
        type_urn = problem_type error.code;
      } in
    if not (len field == 0) then record problem { field = some field } else problem

unfoldable pub key_required : String → Occasion → Problem
unfolding build
key_required header occasion =
    build "idempotency_key_required" "Нужен ключ повтора" 400
      ("заголовок " ++ header
        ++ " обязателен: без него повтор по оборванной связи выполнит операцию второй раз")
      occasion

unfoldable pub key_in_flight : String → Occasion → Problem
unfolding build
key_in_flight key occasion =
    build "idempotency_key_in_flight" "Тот же запрос уже выполняется" 409
      ("ключ «" ++ key
        ++ "» занят запросом, который ещё идёт. Повторите через несколько секунд: параллельно операция не выполняется")
      occasion

-- `Usable` of request_id.cpp.
abbrev usable : ℕ → Bool
usable symbol =
    (leb b'a' symbol && leb symbol b'z')
    || (leb b'A' symbol && leb symbol b'Z')
    || (leb b'0' symbol && leb symbol b'9')
    || (symbol == b'-')
    || (symbol == b'_')
    || (symbol == b'.')
    || (symbol == b':')

unfoldable pub is_usable_request_id : String → Bool
is_usable_request_id value =
    if (len value == 0) || ltb 64 (len value) then false else every_char usable value

-- The identifier that the framework's tracing gives is the second argument.
unfoldable pub request_id_of : String → String → String
unfolding is_usable_request_id
request_id_of brought traced = if is_usable_request_id brought then brought else traced

unfoldable pub security_headers : List (String × String)
security_headers =
    (
      "Content-Security-Policy",
      "default-src 'none'; frame-ancestors 'none'; base-uri 'none'; form-action 'none'",
    )
    ∷ ("Referrer-Policy", "no-referrer")
    ∷ (
      "Permissions-Policy",
      "accelerometer=(), camera=(), geolocation=(), gyroscope=(), magnetometer=(), microphone=(), payment=(), usb=()",
    )
    ∷ ("X-Content-Type-Options", "nosniff")
    ∷ []
