-- ===== src/Http/Keys.antt =====
-- core/idempotency.hpp and idempotency.cpp of libs/pdr-http, and Translate of
-- infrastructure/http/idempotency.cpp: the key of a repeat, the fingerprint of a body, the methods,
-- the states of a key. A text is a `String`; `len` counts the bytes of its UTF-8, as `size()` does, and
-- a byte of a character outside ASCII passes neither test of a single byte here.
use Prim.Native.String.{len}
use pdr.Base.{
  every_char, ℕ, Bool, true, false, not, ◌&&◌, ◌||◌, Option, none, some, String, str_eq, ltb, leb,
  ◌==◌, if◌then◌else◌, ℤ, pos, ltb_ℤ, ◌*ℤ◌,
}
use pdr.Core.Errors.{Result, ok, refuse, validation}
use pdr.Core.Time.{Instant, Duration, shift}

pub record IdempotencyKey : Type 0 where
  pub value : String

pub record RequestFingerprint : Type 0 where
  pub value : String

-- `Printable` and `Hex`.
abbrev printable : ℕ → Bool
printable symbol = ltb 32 symbol && ltb symbol 127

abbrev hex : ℕ → Bool
hex symbol = (leb b'0' symbol && leb symbol b'9') || (leb b'a' symbol && leb symbol b'f')

abbrev k_shortest : ℕ
k_shortest = 8

abbrev k_longest : ℕ
k_longest = 255

unfoldable pub parse_key : String → Result IdempotencyKey
parse_key text =
    if ltb (len text) k_shortest
    then refuse validation "idempotency_key_too_short"
        "короткий ключ столкнётся с чужим в первый же день"
    else if ltb k_longest (len text)
    then refuse validation "idempotency_key_too_long" "ключ длиннее допустимого"
    else if not (every_char printable text)
    then refuse validation "idempotency_key_malformed"
        "ключ приходит от клиента и уходит в журнал: печатаемые знаки без пробелов"
    else ok (record { value = text })

abbrev fingerprint_length : ℕ
fingerprint_length = 64

unfoldable pub parse_fingerprint : String → Result RequestFingerprint
parse_fingerprint text =
    if not (len text == fingerprint_length) || not (every_char hex text)
    then refuse validation "request_fingerprint_malformed"
        "отпечаток — шестьдесят четыре знака от 0 до f в нижнем регистре"
    else ok (record { value = text })

pub data Method : Type 0 where
  get head options post put patch delete boundary : Method

unfoldable pub mutating : Method → Bool
mutating post = true
mutating put = true
mutating patch = true
mutating delete = true
mutating get = false
mutating head = false
mutating options = false
mutating Method.boundary = false

-- `userver::server::http::HttpMethod`, as `Translate` reads it.
pub data HttpMethod : Type 0 where
  k_get k_head k_options k_post k_put k_patch k_delete k_connect k_unknown : HttpMethod

unfoldable pub translate : HttpMethod → Method
translate k_get = get
translate k_head = head
translate k_options = options
translate k_post = post
translate k_put = put
translate k_patch = patch
translate k_delete = delete
translate k_connect = Method.boundary
translate k_unknown = Method.boundary

pub data KeyState : Type 0 where
  in_progress completed boundary : KeyState

unfoldable pub state_name : KeyState → String
state_name in_progress = "in_progress"
state_name completed = "completed"
state_name KeyState.boundary = "in_progress"

unfoldable pub parse_key_state : String → Option KeyState
unfolding state_name
parse_key_state text =
    if str_eq text (state_name in_progress)
    then some in_progress
    else if str_eq text (state_name completed)
    then some completed
    else none

pub record SavedAnswer : Type 0 where
  pub status : ℤ
  pub body : String

pub data ClaimOutcome : Type 0 where
  taken replay in_flight boundary : ClaimOutcome

pub record Claim : Type 0 where
  pub outcome : ClaimOutcome
  pub answer : SavedAnswer

-- `SavedAnswer answer{}`.
abbrev pub no_answer : SavedAnswer
no_answer = record { status = pos 0; body = "" }

pub record KeyLifetime : Type 0 where
  pub value : Duration

abbrev micros_per_hour : ℕ
micros_per_hour = 3600000000

unfoldable pub compose_lifetime : ℤ → Result KeyLifetime
compose_lifetime hours =
    if ltb_ℤ hours (pos 1) || ltb_ℤ (pos 720) hours
    then refuse validation "idempotency_lifetime_out_of_range" "срок жизни ключа вне допустимого"
    else ok (record { value = hours *ℤ pos micros_per_hour })

unfoldable pub expires_from : KeyLifetime → Instant → Instant
expires_from lifetime now = shift now lifetime.value
