-- ===== src/Examples/Http.antt =====
-- A practice that counts its lessons, and requests that book one.
use pdr.Base.{◌≡◌, refl, suc, ◌+ℤ◌, true, [], ◌∷◌, none, some, String, ℕ, pos}
use pdr.Core.Errors.{ok}
use pdr.Core.Time.{not_after}
use pdr.Identity.Actions.{book_lesson, allow}
use pdr.Http.Keys.{IdempotencyKey, RequestFingerprint, SavedAnswer, k_post, replay, expires_from}
use pdr.Http.Store.{KeyRow, find_row}
use pdr.Http.Store.Rows.{IsSettled, IsFound, settled_row}
use pdr.Http.Handler.{Caller, Request, Handler, Database, answered, guarded}
use pdr.Http.Handler.Guarding.{book_of, promised, guarded-promised}
use pdr.Http.Handler.Once.{Steps, here, and_then, by_guarded, guarded_once, Steps-IsSettled}
use pdr.Examples.People.{practice, teacher, pupil, moment, new_year}

abbrev caller : Caller
caller = record { tenant = practice; actor = teacher }

-- The body is a text, and the data of the practices a number of lessons.
abbrev handler : Handler String ℕ
handler = record {
  wants = book_lesson;
  about = λ who body. record { tenant = practice; owner = some teacher; subject = some pupil };
  run = λ who body request_id lessons. ok ("booked", suc lessons);
  lifetime = record { value = pos 86400000000 };
  parse = λ body. (ok body, "");
  where_from = record { cookie = "pdr_session"; header = "Authorization" };
  identify = λ cookie header. ok caller;
  decide = λ tenant actor action resource. allow;
  to_string = λ value. value;
  render = λ problem. problem.detail;
  sha256 = λ body. "e3b0c44298fc1c149afbf4c8996fb92427ae41e4649b934ca495991b7852b855";
}

abbrev key : IdempotencyKey
key = record { value = "book-0001" }

abbrev fingerprint : RequestFingerprint
fingerprint = record { value = "e3b0c44298fc1c149afbf4c8996fb92427ae41e4649b934ca495991b7852b855" }

abbrev empty : Database ℕ
empty = record { keys = []; data_of = 0 }

abbrev booked : SavedAnswer
booked = record { status = pos 200; body = "booked" }

abbrev row : KeyRow
row = settled_row practice key fingerprint (moment (pos 1735776000000000)) booked

abbrev full : Database ℕ
full = record { keys = row ∷ []; data_of = 1 }

free : find_row practice key [] ≡ none
unfolding find_row
free = refl

alive : not_after new_year (expires_from handler.lifetime new_year) ≡ true
unfolding expires_from ◌+ℤ◌
alive = refl

booking : Steps new_year (guarded handler [] new_year caller "{}" "r1" key fingerprint empty).1 full
unfolding guarded ◌+ℤ◌ find_row
booking = here full

guarded_once_example :
    guarded handler full.keys new_year caller "{}" "r2" key fingerprint full
    ≡ (answered (record { outcome = replay; answer = booked }), full)
guarded_once_example =
    (guarded_once handler handler [] [] new_year new_year new_year caller caller "{}" "{}" "r1" "r2"
      key fingerprint fingerprint empty full "booked" 1 tt tt free refl alive booking refl).0

guarded-promised_example :
    let made = guarded handler [] new_year caller "{}" "r1" key fingerprint empty in
    (made.0, book_of made.1) ≡ promised handler caller "{}" "r1" key fingerprint (book_of empty)
guarded-promised_example =
    guarded-promised handler new_year caller "{}" "r1" key fingerprint empty tt

steps : Steps new_year empty (guarded handler [] new_year caller "{}" "r1" key fingerprint empty).1
steps =
    and_then (here empty) (by_guarded handler [] new_year caller "{}" "r1" key fingerprint empty tt)

Steps-IsSettled_example :
    IsSettled (guarded handler [] new_year caller "{}" "r1" key fingerprint empty).1.keys
Steps-IsSettled_example = Steps-IsSettled steps tt

abbrev request : Request
request = record {
  method = k_post;
  path = "/lessons";
  body = "{}";
  header_of = λ name. "book-0001";
  cookie_of = λ name. "";
}

stands : IsFound practice key full.keys
unfolding find_row
stands = record { row = row; answer = booked; found = refl; is_completed = refl; has_answer = refl }
