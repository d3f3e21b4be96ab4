-- ===== src/Identity/Entrance/Inviting/Repeated.antt =====
-- invite_many.cpp: whom a run invites, and that it does not invite them again.
use pdr.Base.{
  if_both, ◌≡◌, refl, ap, sym, ◌∙◌, ℕ, true, List, [], ◌∷◌, none, some, arith, Bool-cases,
  Option-cases, inl, inr,
}
use pdr.Core.Errors.{ok, err}
use pdr.Core.Ids.{TenantId}
use pdr.Core.Time.{Instant}
use pdr.Identity.Roles.{Role}
use pdr.Identity.Accounts.{AuthLifetimes}
use pdr.Identity.Contacts.{Contact, is_ready}
use pdr.Identity.Contacts.Mails.{ready_mails}
use pdr.Identity.Entrance.Passwords.{Email}
use pdr.Identity.Entrance.PeopleStore.{knows}
use pdr.Identity.Entrance.Tables.{Tables, Services, Ending, returned, failed, tables_after}
use pdr.Identity.Entrance.Inviting.{
  SentInvitation, InvitationRun, Supply, judged_mail, with_judged, judge_line, judge, to_send,
  send_from, send,
}
use pdr.Identity.Entrance.Inviting.Issued.{sent_mails, is_invited_at, all_invited, AllEarly}
use pdr.Identity.Entrance.Inviting.Sending.{
  ready_mails-cons, ready_mails-skip, send_from-skip, send_from-IsSent,
}

module _ (services : Services) (lifetimes : AuthLifetimes)
    (known : services.lifetimes ≡ ok lifetimes) where
  judge_line-skip :
      (tenant : TenantId) (moment : Instant) (tables : Tables) (line : Contact)
      → to_send services line ≡ none
      → to_send services (judge_line services tenant moment tables line) ≡ none
  unfolding judge_line
  judge_line-skip tenant moment tables line h = elim (Bool-cases (is_ready line.verdict)) [
    | inr off ↦ rw off h
    | inl on ↦ let absent = rw on at h in rw (on, absent) (rw (on, absent) refl)
  ]

  judge_line-invited :
      (tenant : TenantId) (moment : Instant) (tables : Tables) (line : Contact) (mail : Email)
      → to_send services line ≡ some mail
      → is_invited_at services tenant moment tables.tokens mail.value ≡ true
      → to_send services (judge_line services tenant moment tables line) ≡ none
  unfolding judge_line judged_mail
  judge_line-invited tenant moment tables line mail h live =
      elim (Bool-cases (is_ready line.verdict)) [
        | inr off ↦ absurd (ground (arith, rw off at h))
        | inl on ↦
            let there = rw on at h in
            rw (on, there)
              (if_both (λ judged. to_send services judged ≡ none) (knows tenant mail tables.people)
                refl (rw live refl))
      ]

  ready_mails-judge :
      (tenant : TenantId) (moment : Instant) (tables : Tables) (lines : List Contact)
      → all_invited services tenant moment tables (ready_mails lines) ≡ true
      → ready_mails (judge services tenant moment tables lines) ≡ []
  unfolding judge
  ready_mails-judge tenant moment tables [] h = refl
  ready_mails-judge tenant moment tables (line ∷ lines) h =
      elim (Option-cases (to_send services line)) [
        | inl skip ↦
            ready_mails-skip services lifetimes known
              (judge_line services tenant moment tables line)
              (judge services tenant moment tables lines)
              (judge_line-skip tenant moment tables line skip)
            ∙ ready_mails-judge tenant moment tables lines
                (rw (ready_mails-skip services lifetimes known line lines skip) at h)
        | inr (mail, sends) ↦
            let both = rw (ready_mails-cons services lifetimes known line lines sends) at h in
            ready_mails-skip services lifetimes known
              (judge_line services tenant moment tables line)
              (judge services tenant moment tables lines)
              (judge_line-invited tenant moment tables line mail sends (ground (arith, both)))
            ∙ ready_mails-judge tenant moment tables lines (ground (arith, both))
      ]

  send_from-none :
      (supply : Supply) (count : ℕ) (tenant : TenantId) (role : Role) (lines : List Contact)
      (tables : Tables)
      → ready_mails lines ≡ []
      → send_from services supply count tenant role lines tables ≡ returned (ok []) tables
  unfolding send_from
  send_from-none supply count tenant role [] tables h = refl
  send_from-none supply count tenant role (line ∷ lines) tables h =
      elim (Option-cases (to_send services line)) [
        | inl skip ↦
            send_from-skip services lifetimes known supply count tenant role line lines tables skip
            ∙ send_from-none supply count tenant role lines tables
                (sym (ready_mails-skip services lifetimes known line lines skip) ∙ h)
        | inr (mail, sends) ↦
            absurd
              (ground (arith, sym (ready_mails-cons services lifetimes known line lines sends) ∙ h))
      ]

  record Ran (judged : List Contact) (done : Ending (List SentInvitation)) (run : InvitationRun)
      (after : Tables) : Type 0 where
    done_so : done ≡ returned (ok run.sent) after
    judged_so : judged ≡ run.judged

  run_of : InvitationRun → Ending InvitationRun → InvitationRun
  run_of other (returned (ok run) after) = run
  run_of other (returned (err e) after) = other
  run_of other (failed accounts) = other

  with_judged-Ran :
      (judged : List Contact) (done : Ending (List SentInvitation)) (run : InvitationRun)
      (after : Tables)
      → with_judged services judged done ≡ returned (ok run) after
      → Ran judged done run after
  unfolding with_judged run_of
  with_judged-Ran judged (returned (ok sent) last) run after h =
      let same = ap (run_of run) h in
      record {
        done_so =
            ap (λ (r : InvitationRun). returned (ok r.sent) last) same
            ∙ ap (returned (ok run.sent)) (ap (tables_after last) h);
        judged_so = ap (λ (r : InvitationRun). r.judged) same;
      }
  with_judged-Ran judged (returned (err e) last) run after h = absurd (ground (arith, h))
  with_judged-Ran judged (failed accounts) run after h = absurd (ground (arith, h))

  -- A run that came to its end invited, in the order of its lines, exactly the mails that its judged
  -- lines call ready. At a later moment before the ends of all its links, a second run over those
  -- lines invites no one and leaves the tables as the first run left them.
  pub send-twice :
      (supply again : Supply) (now later : Instant) (tenant : TenantId) (role : Role)
      (previewed : List Contact) (tables after : Tables) (run : InvitationRun)
      → send services supply now tenant role previewed tables ≡ returned (ok run) after
      → AllEarly lifetimes supply later
      → (sent_mails run.sent ≡ ready_mails run.judged)
        × (send services again later tenant role run.judged after
            ≡ returned
                (ok (record { judged = judge services tenant later after run.judged; sent = [] }))
                after)
  unfolding send with_judged
  send-twice supply again now later tenant role previewed tables after run h early =
      let ran = with_judged-Ran (judge services tenant now tables previewed) _ run after h in
      let left =
        send_from-IsSent services lifetimes known supply 0 tenant role
          (judge services tenant now tables previewed) tables after run.sent ran.done_so in
      let none_ready =
        ready_mails-judge tenant later after run.judged
          (rw (← ran.judged_so) (left.alive later early)) in
      (
        left.who ∙ ap ready_mails ran.judged_so,
        ap (with_judged services (judge services tenant later after run.judged)) (
            send_from-none again 0 tenant role (judge services tenant later after run.judged) after
              none_ready),
      )
