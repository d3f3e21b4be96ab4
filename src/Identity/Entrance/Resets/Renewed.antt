-- ===== src/Identity/Entrance/Resets/Renewed.antt =====
-- reset_password.cpp: what a new password leaves of what stood before.
use mathlib.Core.Option.{some-injective}
use pdr.Base.{
  ℕ, if_both, ◌≡◌, refl, ap, ◌∙◌, true, false, not, ◌&&◌, List, [], ◌∷◌, none, some, has_value,
  arith, if◌then◌else◌, Bool-cases, inl, inr, ==_refl, +ℤ_parts,
}
use pdr.Core.Errors.{ok, refuse, conflict}
use pdr.Core.Ids.{StrongId, session_tag, TenantId, PersonId, same_id}
use pdr.Core.Time.{Instant, is_positive, shift}
use pdr.Identity.Tokens.{Digest, OneTimeToken, password_reset, used}
use pdr.Identity.Tokens
use pdr.Identity.Sessions.{SessionId, Fingerprint, Session, open_session}
use pdr.Identity.Sessions
use pdr.Identity.Accounts.{AuthLifetimes}
use pdr.Identity.Entrance.Passwords.{PasswordRules, PasswordHash}
use pdr.Identity.Entrance.SessionStore.{
  find-save, find-revoke_all, save, revoke_all, revoke_row, same_session, same_session_refl,
  is_live_of, map_found,
}
use pdr.Identity.Entrance.SessionStore
use pdr.Identity.Entrance.TokenStore.{mark_used, mark_row, is_link, is_unused_row}
use pdr.Identity.Entrance.TokenStore
use pdr.Identity.Entrance.PeopleStore.{CredentialRow, find_for, save_hash}
use pdr.Identity.Entrance.Tables.{Tables, Services, returned}
use pdr.Identity.Entrance.Resets.{
  reset_by, reset_found, is_reset, unknown_link, reset_used, reset_hash, reset_person,
  ResetPasswordRequest, renew, new_hash, reset_password_with,
}

mark_row-own :
    (token : OneTimeToken) (at : Instant)
    → has_value token.used_at ≡ false
    → mark_row (record token { used_at = some at }) token ≡ record token { used_at = some at }
unfolding mark_row
mark_row-own token at unused = rw (==_refl token.tenant.value, ==_refl token.id.value, unused)

pub find_for-save_hash :
    (tenant : TenantId) (person : PersonId) (hash : PasswordHash) (rows : List CredentialRow)
    → find_for tenant person (save_hash tenant person hash rows) ≡ some hash
unfolding find_for save_hash
find_for-save_hash tenant person hash [] = rw (==_refl tenant.value, ==_refl person.value)
find_for-save_hash tenant person hash (row ∷ rows) =
    elim (Bool-cases (same_id row.tenant tenant && same_id row.person person)) [
      | inl same ↦ rw (same, same)
      | inr other ↦ rw (other, other) (find_for-save_hash tenant person hash rows)
    ]

revoke_row-his :
    (tenant : TenantId) (person : PersonId) (now moment : Instant) (row : Session)
    → same_id row.id.tenant tenant && same_id row.person person ≡ true
    → Sessions.is_usable_at (revoke_row tenant person now row) moment ≡ false
unfolding revoke_row Sessions.is_usable_at
revoke_row-his tenant person now moment row h = ground (arith, h)

revoke_row-other :
    (tenant : TenantId) (person : PersonId) (now : Instant) (row : Session)
    → same_id row.id.tenant tenant && same_id row.person person ≡ false
    → revoke_row tenant person now row ≡ row
unfolding revoke_row
revoke_row-other tenant person now row h = elim (Bool-cases (is_live_of tenant person row)) [
  | inl live ↦ absurd (ground (arith, h, live))
  | inr idle ↦ rw idle
]

-- A session beside a new one, after all those of a person were revoked.
find_beside :
    (tenant : TenantId) (person : PersonId) (now : Instant) (session row : Session) (id : SessionId)
    (rows : List Session)
    → same_session session.id id ≡ false
    → SessionStore.find id rows ≡ some row
    → SessionStore.find id (save session (revoke_all tenant person now rows))
      ≡ some (revoke_row tenant person now row)
find_beside tenant person now session row id rows beside found =
    find-save session id (revoke_all tenant person now rows)
    ∙ rw beside (find-revoke_all tenant person now id rows ∙ rw found)

mark_row-is_link :
    (tenant : TenantId) (secret : Digest) (token row : OneTimeToken)
    → is_link tenant secret (mark_row token row) ≡ is_link tenant secret row
unfolding mark_row
mark_row-is_link tenant secret token row =
    if_both {A = OneTimeToken} (λ t. is_link tenant secret t ≡ is_link tenant secret row)
      (is_unused_row token row) refl refl

-- A link that was marked as used is found as used.
pub find-mark_used :
    (tenant : TenantId) (secret : Digest) (token : OneTimeToken) (at : Instant)
    (rows : List OneTimeToken)
    → TokenStore.find tenant secret rows ≡ some token
    → has_value token.used_at ≡ false
    → TokenStore.find tenant secret (mark_used (record token { used_at = some at }) rows)
      ≡ some (record token { used_at = some at })
unfolding TokenStore.find mark_used
find-mark_used tenant secret token at [] found unused = absurd (ground (arith, found))
find-mark_used tenant secret token at (row ∷ rows) found unused =
    let spent : OneTimeToken = record token { used_at = some at } in
    let link = mark_row-is_link tenant secret spent row in
    elim (Bool-cases (is_link tenant secret row)) [
      | inl here ↦
          let e = some-injective row token (rw here at found) in
          rw (link, here) (ap some (ap (mark_row spent) e ∙ mark_row-own token at unused))
      | inr there ↦
          rw (link, there) (find-mark_used tenant secret token at rows (rw there at found) unused)
    ]

pub used_now :
    (token : OneTimeToken) (now : Instant)
    → Tokens.is_usable_at token now ≡ true
    → used token now ≡ ok (record token { used_at = some now })
unfolding used Tokens.is_usable_at
used_now token now usable = ground (arith, usable)

pub unused :
    (token : OneTimeToken) (now : Instant)
    → Tokens.is_usable_at token now ≡ true
    → has_value token.used_at ≡ false
unfolding Tokens.is_usable_at
unused token now usable = ground (arith, usable)

pub used_again :
    (token : OneTimeToken) (now later : Instant)
    → used (record token { used_at = some now }) later
      ≡ refuse conflict "token_already_used" "по этой ссылке уже заходили"
unfolding used
used_again token now later = refl

-- What the tables hold for a person after his password was renewed: his new password; one usable
-- session, the new one; and the sessions of the others as they were.
pub record IsRenewed (now : Instant) (tenant : TenantId) (person : PersonId) (hash : PasswordHash)
    (sessions : List Session) (session : Session) (after : Tables) : Type 0 where
  pub stored : find_for tenant person after.credentials ≡ some hash
  pub opened : SessionStore.find session.id after.sessions ≡ some session
  pub is_his : (session.person ≡ person) × (session.id.tenant ≡ tenant)
  pub is_usable : Sessions.is_usable_at session now ≡ true
  pub ended :
      (id : SessionId) (row : Session)
      → same_session session.id id ≡ false
      → SessionStore.find id sessions ≡ some row
      → same_id row.id.tenant tenant && same_id row.person person ≡ true
      → (dead : Session) × (SessionStore.find id after.sessions ≡ some dead)
        × ((moment : Instant) → Sessions.is_usable_at dead moment ≡ false)
  pub kept :
      (id : SessionId) (row : Session)
      → same_session session.id id ≡ false
      → SessionStore.find id sessions ≡ some row
      → same_id row.id.tenant tenant && same_id row.person person ≡ false
      → SessionStore.find id after.sessions ≡ some row

module _ (services : Services) where
  pub renew-IsRenewed :
      (lifetimes : AuthLifetimes) (now : Instant) (secret : StrongId session_tag)
      (tenant : TenantId) (person : PersonId) (seen_as : Fingerprint) (hash : PasswordHash)
      (tables : Tables)
      → is_positive lifetimes.session ≡ true
      → SessionStore.find (record { tenant = tenant; secret = secret }) tables.sessions ≡ none
      → (session : Session) × (after : Tables) × (renew services lifetimes now secret tenant person
            seen_as hash tables
          ≡ returned (ok session) after)
        × (after.tokens ≡ tables.tokens)
        × IsRenewed now tenant person hash tables.sessions session after
  unfolding renew open_session Sessions.is_usable_at
  renew-IsRenewed lifetimes now secret tenant person seen_as hash tables long fresh =
      let session : Session = record {
        id = record { tenant = tenant; secret = secret };
        person = person;
        created_at = now;
        expires_at = shift now lifetimes.session;
        revoked_at = none;
        seen = seen_as;
      } in
      let rows = revoke_all tenant person now tables.sessions in
      let after : Tables = record tables {
        credentials = save_hash tenant person hash tables.credentials;
        sessions = save session rows;
      } in
      (
        session,
        after,
        rw long,
        refl,
        record {
          stored = find_for-save_hash tenant person hash tables.credentials;
          opened =
              find-save session session.id rows
              ∙ rw (
                same_session_refl session.id,
                find-revoke_all tenant person now session.id tables.sessions,
                fresh,
              );
          is_his = (refl, refl);
          is_usable = ground (arith, +ℤ_parts now.micros lifetimes.session);
          ended = λ id row beside found his. (
            revoke_row tenant person now row,
            find_beside tenant person now session row id tables.sessions beside found,
            λ moment. revoke_row-his tenant person now moment row his,
          );
          kept = λ id row beside found other.
              find_beside tenant person now session row id tables.sessions beside found
              ∙ ap some (revoke_row-other tenant person now row other);
        },
      )

  -- The reset as far as the use of its link.
  reset_to_used :
      (rules : PasswordRules) (lifetimes : AuthLifetimes) (now : Instant)
      (secret : StrongId session_tag) (request : ResetPasswordRequest) (tables : Tables)
      (link : OneTimeToken)
      → services.passwords ≡ ok rules
      → services.lifetimes ≡ ok lifetimes
      → TokenStore.find request.tenant (services.digest_of request.secret.value) tables.tokens
        ≡ some link
      → link.purpose ≡ password_reset
      → reset_password_with services now secret request tables
        ≡ reset_used services rules lifetimes now secret request tables (used link now)
  unfolding reset_password_with
  reset_to_used rules lifetimes now secret request tables link r l found purpose =
      (λ i. reset_by services (r i) (l i) now secret request tables)
      ∙ ap (λ o. reset_found services rules lifetimes now secret request tables o) found
      ∙ ap
          (λ p.
            if not (is_reset p)
            then unknown_link services tables
            else reset_used services rules lifetimes now secret request tables (used link now))
          purpose

  -- A reset that finds its link usable and accepts the password, under a secret that no session has,
  -- stores the new password, opens one usable session of the person, ends every other session of his
  -- for good and leaves those of the others as they were. The link is used up: it is refused as used
  -- from then on, and changes nothing more.
  pub reset_renews :
      (rules : PasswordRules) (lifetimes : AuthLifetimes) (now : Instant)
      (secret : StrongId session_tag) (request : ResetPasswordRequest) (tables : Tables)
      (link : OneTimeToken) (person : PersonId) (hash : PasswordHash)
      → services.passwords ≡ ok rules
      → services.lifetimes ≡ ok lifetimes
      → TokenStore.find request.tenant (services.digest_of request.secret.value) tables.tokens
        ≡ some link
      → link.purpose ≡ password_reset
      → link.person ≡ some person
      → Tokens.is_usable_at link now ≡ true
      → new_hash services rules request.password ≡ ok hash
      → is_positive lifetimes.session ≡ true
      → SessionStore.find (record { tenant = request.tenant; secret = secret }) tables.sessions
        ≡ none
      → (session : Session) × (after : Tables) × (reset_password_with services now secret request
            tables
          ≡ returned (ok session) after)
        × IsRenewed now request.tenant person hash tables.sessions session after
        × ((later : Instant) (next : StrongId session_tag) (password : List ℕ)
              (seen_as : Fingerprint)
            → reset_password_with services later next
                (record request { password = password; seen_as = seen_as })
                after
              ≡ returned (refuse conflict "token_already_used" "по этой ссылке уже заходили") after)
  unfolding reset_password_with
  reset_renews rules lifetimes now secret request tables link person hash r l found purpose his
        usable fine long fresh =
      let spent : OneTimeToken = record link { used_at = some now } in
      let marked = record tables { tokens = mark_used spent tables.tokens } in
      let made =
        renew-IsRenewed lifetimes now secret request.tenant person request.seen_as hash marked long
          fresh in
      (
        made.0,
        made.1,
        reset_to_used rules lifetimes now secret request tables link r l found purpose
            ∙ ap (λ u. reset_used services rules lifetimes now secret request tables u)
                (used_now link now usable)
            ∙ ap (λ h. reset_hash services lifetimes now secret request spent tables h) fine
            ∙ ap (λ o. reset_person services lifetimes now secret request spent hash tables o) his
            ∙ made.2,
        made.4,
        λ later next password seen_as.
            let spent_link =
              ap (TokenStore.find request.tenant (services.digest_of request.secret.value)) made.3
              ∙ find-mark_used request.tenant (services.digest_of request.secret.value) link now
                  tables.tokens found (unused link now usable) in
            reset_to_used rules lifetimes later next
              (record request { password = password; seen_as = seen_as }) made.1 spent r l
              spent_link purpose
            ∙ ap
                (λ u.
                  reset_used services rules lifetimes later next
                    (record request { password = password; seen_as = seen_as }) made.1 u)
                (used_again link now later),
      )
