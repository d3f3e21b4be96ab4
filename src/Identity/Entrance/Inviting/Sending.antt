-- ===== src/Identity/Entrance/Inviting/Sending.antt =====
-- invite_many.cpp: what the loop that sends invitations leaves behind.
use pdr.Base.{
  ◌≡◌, refl, ap, sym, ◌∙◌, ℕ, suc, true, List, [], ◌∷◌, none, some, String, arith, Option-cases,
  inl, inr,
}
use pdr.Core.Errors.{ok, err}
use pdr.Core.Ids.{TenantId}
use pdr.Core.Time.{Instant}
use pdr.Identity.Roles.{Role}
use pdr.Identity.Accounts.{AuthLifetimes}
use pdr.Identity.Contacts.{Contact}
use pdr.Identity.Contacts.Mails.{ready_mails}
use pdr.Identity.Entrance.Passwords.{Email}
use pdr.Identity.Entrance.Tables.{Tables, Services, Ending, returned, failed, tables_after}
use pdr.Identity.Entrance.Joining.{IssuedInvitation, invite_participant}
use pdr.Identity.Entrance.Inviting.{SentInvitation, Supply, with_sent, and_send, to_send, send_from}
use pdr.Identity.Entrance.Inviting.Issued.{
  sent_mails, is_invited_at, all_invited, AllEarly, invite_participant-IsInvited,
}

module _ (services : Services) (lifetimes : AuthLifetimes)
    (known : services.lifetimes ≡ ok lifetimes) where
  -- What a run that came to its end leaves behind.
  pub record IsSent (supply : Supply) (tenant : TenantId) (lines : List Contact) (tables : Tables)
      (sent : List SentInvitation) (after : Tables) : Type 0 where
    pub who : sent_mails sent ≡ ready_mails lines
    pub same_people : after.people ≡ tables.people
    pub alive :
        (moment : Instant)
        → AllEarly lifetimes supply moment
        → all_invited services tenant moment after (ready_mails lines) ≡ true
    pub still_alive :
        (moment : Instant) (other : String)
        → is_invited_at services tenant moment tables.tokens other ≡ true
        → is_invited_at services tenant moment after.tokens other ≡ true

  pub ready_mails-cons :
      (line : Contact) (lines : List Contact) {mail : Email}
      → to_send services line ≡ some mail
      → ready_mails (line ∷ lines) ≡ mail.value ∷ ready_mails lines
  ready_mails-cons line lines {mail} h = elim (Option-cases line.mail) [
    | inl absent ↦ ground (arith, rw absent at h)
    | inr (other, there) ↦ ground (arith, rw there at h, there)
  ]

  pub ready_mails-skip :
      (line : Contact) (lines : List Contact)
      → to_send services line ≡ none
      → ready_mails (line ∷ lines) ≡ ready_mails lines
  ready_mails-skip line lines h = elim (Option-cases line.mail) [
    | inl absent ↦ rw absent refl
    | inr (other, there) ↦ ground (arith, rw there at h, there)
  ]

  pub send_from-skip :
      (supply : Supply) (count : ℕ) (tenant : TenantId) (role : Role) (line : Contact)
      (lines : List Contact) (tables : Tables)
      → to_send services line ≡ none
      → send_from services supply count tenant role (line ∷ lines) tables
        ≡ send_from services supply count tenant role lines tables
  unfolding send_from
  send_from-skip supply count tenant role line lines tables h = rw (h, send_from) refl

  send_from-send :
      (supply : Supply) (count : ℕ) (tenant : TenantId) (role : Role) (line : Contact)
      (lines : List Contact) (tables : Tables) (mail : Email)
      → to_send services line ≡ some mail
      → send_from services supply count tenant role (line ∷ lines) tables
        ≡ and_send services mail
            (invite_participant services
              (supply.asked_at count)
              (supply.now_at count)
              (supply.id_at count)
              (supply.text_at count)
              tenant
              role
              (some mail)
              tables)
            (send_from services supply (suc count) tenant role lines)
  unfolding send_from
  send_from-send supply count tenant role line lines tables mail h = rw (h, send_from) refl

  sent_of : Ending (List SentInvitation) → List SentInvitation
  sent_of (returned (ok sent) after) = sent
  sent_of (returned (err e) after) = []
  sent_of (failed accounts) = []

  -- What an invitation that is sent did, and what the rest of the lines did after it.
  record Sent (mail : Email) (first : Ending IssuedInvitation)
      (rest : Tables → Ending (List SentInvitation)) (sent : List SentInvitation) (after : Tables)
      : Type 0 where
    issued : IssuedInvitation
    between : Tables
    more : List SentInvitation
    first_done : first ≡ returned (ok issued) between
    rest_done : rest between ≡ returned (ok more) after
    joined : sent ≡ record { mail = mail; secret = issued.secret } ∷ more

  with_sent-Sent :
      (mail : Email) (issued : IssuedInvitation) (between : Tables)
      (rest : Tables → Ending (List SentInvitation)) (done : Ending (List SentInvitation))
      (tables after : Tables) (sent : List SentInvitation)
      → rest between ≡ done
      → with_sent services mail issued done ≡ returned (ok sent) after
      → Sent mail (returned (ok issued) between) rest sent after
  unfolding with_sent sent_of
  with_sent-Sent mail issued between rest (returned (ok more) last) tables after sent there h =
      record {
        issued = issued;
        between = between;
        more = more;
        first_done = refl;
        rest_done = there ∙ ap (returned (ok more)) (ap (tables_after tables) h);
        joined = sym (ap sent_of h);
      }
  with_sent-Sent mail issued between rest (returned (err e) last) tables after sent there h =
      absurd (ground (arith, h))
  with_sent-Sent mail issued between rest (failed accounts) tables after sent there h =
      absurd (ground (arith, h))

  and_send-Sent :
      (mail : Email) (first : Ending IssuedInvitation)
      (rest : Tables → Ending (List SentInvitation)) (tables after : Tables)
      (sent : List SentInvitation)
      → and_send services mail first rest ≡ returned (ok sent) after
      → Sent mail first rest sent after
  unfolding and_send
  and_send-Sent mail (returned (ok issued) between) rest tables after sent h =
      with_sent-Sent mail issued between rest (rest between) tables after sent refl h
  and_send-Sent mail (returned (err e) between) rest tables after sent h =
      absurd (ground (arith, h))
  and_send-Sent mail (failed accounts) rest tables after sent h = absurd (ground (arith, h))

  pub send_from-IsSent :
      (supply : Supply) (count : ℕ) (tenant : TenantId) (role : Role) (lines : List Contact)
      (tables after : Tables) (sent : List SentInvitation)
      → send_from services supply count tenant role lines tables ≡ returned (ok sent) after
      → IsSent supply tenant lines tables sent after
  unfolding send_from sent_of
  send_from-IsSent supply count tenant role [] tables after sent h =
      let kept = ap (tables_after tables) h in
      record {
        who = ap sent_mails (sym (ap sent_of h));
        same_people = ap (λ (t : Tables). t.people) (sym kept);
        alive = λ moment early. refl;
        still_alive = λ moment other there. rw (← kept) there;
      }
  send_from-IsSent supply count tenant role (line ∷ lines) tables after sent h =
      elim (Option-cases (to_send services line)) [
        | inl skip ↦
            let later =
              send_from-IsSent supply count tenant role lines tables after sent
                (sym (send_from-skip supply count tenant role line lines tables skip) ∙ h) in
            let same = ready_mails-skip line lines skip in
            record {
              who = later.who ∙ sym same;
              same_people = later.same_people;
              alive = λ moment early. rw same (later.alive moment early);
              still_alive = later.still_alive;
            }
        | inr (mail, sends) ↦
            let step =
              and_send-Sent mail _ _ tables after sent
                (sym (send_from-send supply count tenant role line lines tables mail sends) ∙ h) in
            let later =
              send_from-IsSent supply (suc count) tenant role lines step.between after step.more
                step.rest_done in
            let one =
              invite_participant-IsInvited services lifetimes known (supply.asked_at count)
                (supply.now_at count) (supply.id_at count) (supply.text_at count) tenant role mail
                tables step.between step.issued step.first_done in
            let same = ready_mails-cons line lines sends in
            record {
              who = ap sent_mails step.joined ∙ ap (λ rest. mail.value ∷ rest) later.who ∙ sym same;
              same_people = later.same_people ∙ one.people_kept;
              alive = λ moment early. rw same (
                  rw (later.still_alive moment mail.value (one.lives moment (early count)))
                    (later.alive moment early));
              still_alive = λ moment other there.
                  later.still_alive moment other (one.others_live moment other there);
            }
      ]
