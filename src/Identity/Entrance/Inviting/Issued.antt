-- ===== src/Identity/Entrance/Inviting/Issued.antt =====
-- invite_participant.cpp: what an invitation that is issued leaves behind.
use Prim.Native.String.{len}
use pdr.Base.{
  ltb, every_char, if_both, ◌≡◌, refl, ap, sym, ◌∙◌, ℕ, Bool, true, not, ◌&&◌, List, [], ◌∷◌,
  Option, none, some, has_value, String, arith, Bool-cases, inl, inr, str_eq_refl, ==_refl,
}
use pdr.Core.Errors.{Result, ok, err, Result-cases}
use pdr.Core.Ids.{TenantId}
use pdr.Core.Time.{Instant, shift, before, is_positive}
use pdr.Identity.Roles.{Role}
use pdr.Identity.Tokens.{
  TokenId, OneTimeToken, TokenSecret, invitation, invite, parse_secret, is_base64_url,
}
use pdr.Identity.Accounts.{AuthLifetimes}
use pdr.Identity.Entrance.Passwords.{Email}
use pdr.Identity.Entrance.TokenStore.{live_invitation_to, is_live_invitation, issue, has_clash}
use pdr.Identity.Entrance.Tables.{Tables, Services, returned, tables_after}
use pdr.Identity.Entrance.Joining.{IssuedInvitation, invite_participant}
use pdr.Identity.Entrance.Inviting.{SentInvitation, Supply}

-- The mails of a run, in its order.
abbrev pub sent_mails : List SentInvitation → List String
sent_mails [] = []
sent_mails (one ∷ rest) = one.mail.value ∷ sent_mails rest

secret_text : Result TokenSecret → String → String
secret_text (ok secret) other = secret.value
secret_text (err e) other = other

parse_secret_same : (text : String) → secret_text (parse_secret text) text ≡ text
unfolding parse_secret secret_text
parse_secret_same text =
    if_both (λ r. secret_text r text ≡ text) (ltb (len text) 43) refl
      (if_both (λ r. secret_text r text ≡ text) (not (every_char is_base64_url text)) refl refl)

parse_secret_text :
    (text : String) {secret : TokenSecret} → parse_secret text ≡ ok secret → secret.value ≡ text
unfolding secret_text
parse_secret_text text h = sym (ap (λ r. secret_text r text) h) ∙ parse_secret_same text

-- Whether a link to a mail is alive.
abbrev pub is_invited_at : Services → TenantId → Instant → List OneTimeToken → String → Bool
is_invited_at services tenant moment tokens mail =
    has_value (live_invitation_to tenant (services.digest_of mail) moment tokens)

abbrev pub all_invited : Services → TenantId → Instant → Tables → List String → Bool
all_invited services tenant moment tables [] = true
all_invited services tenant moment tables (mail ∷ mails) =
    is_invited_at services tenant moment tables.tokens mail
    && all_invited services tenant moment tables mails

-- A moment before the end of every link that a run may issue.
abbrev pub AllEarly : AuthLifetimes → Supply → Instant → Type 0
AllEarly lifetimes supply moment =
    (count : ℕ) → before moment (shift (supply.now_at count) lifetimes.invitation) ≡ true

module _ (services : Services) (lifetimes : AuthLifetimes)
    (known : services.lifetimes ≡ ok lifetimes) where
  -- What an invitation that was issued leaves behind.
  pub record IsInvited (now : Instant) (tenant : TenantId) (mail : Email) (tables after : Tables)
      : Type 0 where
    pub people_kept : after.people ≡ tables.people
    pub lives :
        (moment : Instant)
        → before moment (shift now lifetimes.invitation) ≡ true
        → is_invited_at services tenant moment after.tokens mail.value ≡ true
    pub others_live :
        (moment : Instant) (other : String)
        → is_invited_at services tenant moment tables.tokens other ≡ true
        → is_invited_at services tenant moment after.tokens other ≡ true

  abbrev link_for : Instant → TokenId → String → TenantId → Role → Email → OneTimeToken
  link_for now id text tenant role mail = record {
    id = id;
    tenant = tenant;
    secret = services.digest_of text;
    purpose = invitation;
    role = some role;
    person = none;
    invited = some (services.digest_of mail.value);
    created_at = now;
    expires_at = shift now lifetimes.invitation;
    used_at = none;
  }

  invited_tables :
      (asked_at now : Instant) (id : TokenId) (text : String) (tenant : TenantId) (role : Role)
      (mail : Email) (tables after : Tables) (issued : IssuedInvitation)
      → invite_participant services asked_at now id text tenant role (some mail) tables
        ≡ returned (ok issued) after
      → after ≡ record tables { tokens = link_for now id text tenant role mail ∷ tables.tokens }
  unfolding invite_participant invite issue
  invited_tables asked_at now id text tenant role mail tables after issued h =
      elim (Bool-cases (is_invited_at services tenant asked_at tables.tokens mail.value)) [
        | inl live ↦ absurd (ground (arith, rw (known, live) at h))
        | inr free ↦ elim (Result-cases (parse_secret text)) [
          | inr (e, bad) ↦ absurd (ground (arith, rw (known, free, bad) at h))
          | inl (secret, fine) ↦ elim (Bool-cases (is_positive lifetimes.invitation)) [
            | inr short ↦ absurd (ground (arith, rw (known, free, fine, short) at h))
            | inl long ↦
                elim (Bool-cases (
                  has_clash
                    (record (link_for now id text tenant role mail) {
                      secret = services.digest_of secret.value;
                    })
                    tables.tokens)) [
                      | inl clash ↦
                          absurd (ground (arith, rw (known, free, fine, long, clash) at h))
                      | inr fresh ↦
                          sym (ap (tables_after tables) (rw (known, free, fine, long, fresh) at h))
                          ∙ ap
                              (λ t. record tables {
                                tokens =
                                    record (link_for now id text tenant role mail) {
                                      secret = services.digest_of t;
                                    }
                                    ∷ tables.tokens;
                              })
                              (parse_secret_text text fine)
                    ]
          ]
        ]
      ]

  pub invite_participant-IsInvited :
      (asked_at now : Instant) (id : TokenId) (text : String) (tenant : TenantId) (role : Role)
      (mail : Email) (tables after : Tables) (issued : IssuedInvitation)
      → invite_participant services asked_at now id text tenant role (some mail) tables
        ≡ returned (ok issued) after
      → IsInvited now tenant mail tables after
  unfolding live_invitation_to
  invite_participant-IsInvited asked_at now id text tenant role mail tables after issued h =
      let made = invited_tables asked_at now id text tenant role mail tables after issued h in
      record {
        people_kept = ap (λ (t : Tables). t.people) made;
        lives = λ moment soon. rw made (
            ground (
              arith,
              soon,
              ==_refl tenant.value,
              str_eq_refl (services.digest_of mail.value).value,
            ));
        others_live = λ moment other there. rw made (
            if_both {A = Option OneTimeToken} (λ o. has_value o ≡ true)
              (is_live_invitation tenant (services.digest_of other) moment
                (link_for now id text tenant role mail))
              refl there);
      }
