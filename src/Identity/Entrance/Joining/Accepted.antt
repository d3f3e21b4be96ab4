-- ===== src/Identity/Entrance/Joining/Accepted.antt =====
-- accept_invitation.cpp: what an invitation that was accepted leaves behind.
use pdr.Base.{◌≡◌, refl, ap, sym, ◌∙◌, true, none, some, arith, Bool-cases, Option-cases, inl, inr}
use pdr.Core.Errors.{Result, ok, err, refuse, conflict, Result-cases}
use pdr.Core.Ids.{StrongId, session_tag, PersonId}
use pdr.Core.Time.{Instant}
use pdr.Identity.Roles.{Role}
use pdr.Identity.Tokens.{TokenPurpose, OneTimeToken, invitation, password_reset, used}
use pdr.Identity.Tokens
use pdr.Identity.Sessions.{SessionId, Session, open_session, open_session-is_usable_at}
use pdr.Identity.Sessions
use pdr.Identity.Accounts.{AuthLifetimes}
use pdr.Identity.Entrance.Passwords.{PasswordRules, PasswordHash}
use pdr.Identity.Entrance.SessionStore
use pdr.Identity.Entrance.SessionStore.{save}
use pdr.Identity.Entrance.TokenStore.{mark_used}
use pdr.Identity.Entrance.TokenStore
use pdr.Identity.Entrance.PeopleStore.{
  Enrolled, enrolled, refused, enrol, find_by_mail, find_by_email,
}
use pdr.Identity.Entrance.PeopleStore
use pdr.Identity.Entrance.Tables.{Tables, Services, Ending, returned, failed, tables_after}
use pdr.Identity.Entrance.SignIn.{let_in}
use pdr.Identity.Entrance.Resets.{new_hash}
use pdr.Identity.Entrance.Resets.Renewed.{find-mark_used, used_now, unused}
use pdr.Identity.Entrance.Arrivals.{find_by_email-enrol, open_session-IsSaved}
use pdr.Identity.Entrance.Joining.{
  AcceptInvitationRequest, accept_invitation, accept_by, accept_found, accept_used, accept_hash,
  accept_role, accept_as, accept_enrolled, enrolment_of, account_for, accounts_with, is_invitation,
}

-- The identifier of the session of somebody who joins.
abbrev pub joined_session : AcceptInvitationRequest → StrongId session_tag → SessionId
joined_session request secret = record { tenant = request.tenant; secret = secret }

session_of : Session → Ending Session → Session
session_of other (returned (ok session) after) = session
session_of other (returned (err e) after) = other
session_of other (failed accounts) = other

module _ (services : Services) (lifetimes : AuthLifetimes) (now : Instant)
    (secret : StrongId session_tag) (request : AcceptInvitationRequest) (token : OneTimeToken)
    (hash : PasswordHash) (session : Session) (after : Tables) where
  -- Somebody who was let in: found by his mail with his password, with a session; the link is marked.
  record IsIn (tables : Tables) : Type 0 where
    welcome :
        find_by_email request.tenant request.mail after.people after.credentials
        ≡ some (record { person = session.person; hash = hash })
    kept : SessionStore.find (joined_session request secret) after.sessions ≡ some session
    usable : Sessions.is_usable_at session now ≡ true
    marked : after.tokens ≡ mark_used token tables.tokens

  record IsLetIn (tables : Tables) (result : Result Session) : Type 0 where
    made : result ≡ ok session
    left : after ≡ record tables { sessions = save session tables.sessions }

  let_in-IsLetIn :
      (tables : Tables) (result : Result Session)
      → let_in services tables result ≡ returned (ok session) after
      → IsLetIn tables result
  unfolding let_in session_of
  let_in-IsLetIn tables (err e) h = absurd (ground (arith, h))
  let_in-IsLetIn tables (ok made) h =
      let same = ap (session_of made) h in
      record {
        made = ap ok same;
        left =
            sym (ap (tables_after tables) h)
            ∙ ap (λ s. record tables { sessions = save s tables.sessions }) same;
      }

  accept_enrolled-IsIn :
      (tables : Tables) (person : PersonId) (role : Role) (result : Enrolled)
      → SessionStore.find (joined_session request secret) tables.sessions ≡ none
      → enrol request.tenant (enrolment_of services request person role) tables.people tables.roles
        ≡ result
      → accept_enrolled services lifetimes now secret request token hash person tables result
        ≡ returned (ok session) after
      → IsIn tables
  unfolding accept_enrolled enrolment_of
  accept_enrolled-IsIn tables person role (refused e) fresh made h = absurd (ground (arith, h))
  accept_enrolled-IsIn tables person role PeopleStore.failed fresh made h =
      absurd (ground (arith, h))
  accept_enrolled-IsIn tables person role (enrolled people roles) fresh made h =
      let done = let_in-IsLetIn _ _ h in
      let saved =
        open_session-IsSaved (joined_session request secret) person now lifetimes.session
          request.seen_as tables.sessions session fresh done.made in
      record {
        welcome =
            rw (done.left, saved.same_person)
              (find_by_email-enrol request.tenant (enrolment_of services request person role)
                request.mail hash tables.people people tables.roles roles tables.credentials refl
                made);
        kept = rw done.left saved.found;
        usable =
            (open_session-is_usable_at _ person now lifetimes.session request.seen_as session
              done.made).0;
        marked = ap (λ (t : Tables). t.tokens) done.left;
      }

  accept_hash-IsIn :
      (id : PersonId) (tables : Tables) (result : Result PasswordHash)
      → result ≡ ok hash
      → SessionStore.find (joined_session request secret) tables.sessions ≡ none
      → accept_hash services lifetimes now secret id request token tables result
        ≡ returned (ok session) after
      → IsIn tables
  unfolding accept_hash accept_role accept_as mark_used
  accept_hash-IsIn id tables result fine fresh h = elim (Option-cases token.role) [
    | inl without ↦ absurd (ground (arith, rw (fine, without) at h))
    | inr (role, invited) ↦
        let mail = services.digest_of request.mail.value in
        let found = find_by_mail mail tables.accounts in
        let done =
          accept_enrolled-IsIn
            (record tables { accounts = accounts_with services id mail now found tables.accounts })
            (account_for services id mail now found).id role _ fresh refl
            (rw (fine, invited) at h) in
        record {
          welcome = done.welcome;
          kept = done.kept;
          usable = done.usable;
          marked = done.marked;
        }
  ]

usable_of_used :
    (token spent : OneTimeToken) (now : Instant)
    → used token now ≡ ok spent
    → Tokens.is_usable_at token now ≡ true
unfolding used Tokens.is_usable_at
usable_of_used token spent now h = ground (arith, h)

is_invitation_sound : (p : TokenPurpose) → is_invitation p ≡ true → p ≡ invitation
unfolding is_invitation
is_invitation_sound invitation h = refl
is_invitation_sound password_reset h = absurd (ground (arith, h))

-- What an invitation that was accepted by its link says of the tables before and after.
pub record IsJoined (services : Services) (rules : PasswordRules) (now : Instant)
    (secret : StrongId session_tag) (request : AcceptInvitationRequest) (tables : Tables)
    (session : Session) (after : Tables) : Type 0 where
  pub link : OneTimeToken
  pub found :
      TokenStore.find request.tenant (services.digest_of request.secret.value) tables.tokens
      ≡ some link
  pub invites : link.purpose ≡ invitation
  pub was_usable : Tokens.is_usable_at link now ≡ true
  pub hash : PasswordHash
  pub is_chosen : new_hash services rules request.password ≡ ok hash
  pub welcome :
      find_by_email request.tenant request.mail after.people after.credentials
      ≡ some (record { person = session.person; hash = hash })
  pub kept : SessionStore.find (joined_session request secret) after.sessions ≡ some session
  pub usable : Sessions.is_usable_at session now ≡ true
  pub spent :
      TokenStore.find request.tenant (services.digest_of request.secret.value) after.tokens
      ≡ some (record link { used_at = some now })

module _ (services : Services) (rules : PasswordRules) (lifetimes : AuthLifetimes) (now : Instant)
    (secret : StrongId session_tag) (id : PersonId) (request : AcceptInvitationRequest)
    (tables : Tables) (session : Session) (after : Tables) (r : services.passwords ≡ ok rules)
    (l : services.lifetimes ≡ ok lifetimes) where
  accept_invitation-IsJoined :
      SessionStore.find (joined_session request secret) tables.sessions ≡ none
      → accept_invitation services now secret id request tables ≡ returned (ok session) after
      → IsJoined services rules now secret request tables session after
  unfolding accept_invitation accept_by accept_found accept_used let_in new_hash
  accept_invitation-IsJoined fresh h =
      let digest = services.digest_of request.secret.value in
      elim (Option-cases (TokenStore.find request.tenant digest tables.tokens)) [
        | inl unknown ↦ absurd (ground (arith, rw (r, l, unknown) at h))
        | inr (link, found) ↦ elim (Bool-cases (is_invitation link.purpose)) [
          | inr other ↦ absurd (ground (arith, rw (r, l, found, other) at h))
          | inl invites ↦ elim (Result-cases (used link now)) [
            | inr (e, stale) ↦ absurd (ground (arith, rw (r, l, found, invites, stale) at h))
            | inl (token, once) ↦ elim (Result-cases (new_hash services rules request.password)) [
              | inr (e, bad) ↦ absurd (ground (arith, rw (r, l, found, invites, once, bad) at h))
              | inl (hash, fine) ↦
                  let was_usable = usable_of_used link token now once in
                  let spent : OneTimeToken = record link { used_at = some now } in
                  let done =
                    accept_hash-IsIn services lifetimes now secret request spent hash session after
                      id tables (new_hash services rules request.password) fine fresh
                      (rw (r, l, found, invites, used_now link now was_usable) at h) in
                  record {
                    link = link;
                    found = found;
                    invites = is_invitation_sound link.purpose invites;
                    was_usable = was_usable;
                    hash = hash;
                    is_chosen = fine;
                    welcome = done.welcome;
                    kept = done.kept;
                    usable = done.usable;
                    spent =
                        ap (TokenStore.find request.tenant digest) done.marked
                        ∙ find-mark_used request.tenant digest link now tables.tokens found
                            (unused link now was_usable);
                  }
            ]
          ]
        ]
      ]

  -- Where the settings are known, an invitation that was accepted, under a secret that no session had,
  -- went by a link that the practice knew, that was an invitation, and that was usable. Who accepted it is
  -- found by the mail of the request with the hash of the password of the request, and is the person of
  -- the session, which stands in the table and is usable. The link works no second time: over the tables
  -- that the acceptance left, at any moment, whoever comes with it and whatever he asks for is refused,
  -- and changes nothing.
  pub accept_invitation_once :
      SessionStore.find (joined_session request secret) tables.sessions ≡ none
      → accept_invitation services now secret id request tables ≡ returned (ok session) after
      → IsJoined services rules now secret request tables session after
        × ((later : Instant) (next : StrongId session_tag) (other : PersonId)
              (again : AcceptInvitationRequest)
            → accept_invitation services later next other
                (record again { tenant = request.tenant; secret = request.secret })
                after
              ≡ returned (refuse conflict "token_already_used" "по этой ссылке уже заходили") after)
  unfolding accept_invitation accept_by accept_found accept_used is_invitation used
  accept_invitation_once fresh h =
      let joined = accept_invitation-IsJoined fresh h in
      (joined, λ later next other again. rw (r, l, joined.spent, joined.invites) refl)
