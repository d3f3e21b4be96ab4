-- ===== src/Identity/Entrance/TokenStore.antt =====
-- identity/infrastructure/auth/postgres_one_time_tokens.cpp: the table of the links. The identifier and
-- the secret of a link are each unique in a practice (db/migrations/V006), and a statement meets the
-- rows of its practice only. The foreign keys and the CHECKs of the table, such as that a link is not
-- used before it was created, are not modelled.
use pdr.Base.{
  Bool, true, false, not, ◌&&◌, ◌||◌, List, [], ◌∷◌, Option, none, some, has_value, if◌then◌else◌,
}
use pdr.Core.Ids.{TenantId, same_id}
use pdr.Core.Time.{Instant, before}
use pdr.Identity.Tokens.{
  TokenPurpose, invitation, password_reset, OneTimeToken, Digest, same_digest,
}

-- Whether a row has the identifier or the secret of a link of the same practice.
abbrev pub is_clash : OneTimeToken → OneTimeToken → Bool
is_clash token row =
    same_id row.tenant token.tenant
    && (same_id row.id token.id || same_digest row.secret token.secret)

unfoldable pub has_clash : OneTimeToken → List OneTimeToken → Bool
has_clash token [] = false
has_clash token (row ∷ rows) = is_clash token row || has_clash token rows

-- `Issue`: the rows with the new one, or nothing where the insertion violates a key and throws.
unfoldable pub issue : OneTimeToken → List OneTimeToken → Option (List OneTimeToken)
unfolding has_clash
issue token rows = if has_clash token rows then none else some (token ∷ rows)

abbrev pub is_link : TenantId → Digest → OneTimeToken → Bool
is_link tenant secret row = same_id row.tenant tenant && same_digest row.secret secret

-- `kFind`.
unfoldable pub find : TenantId → Digest → List OneTimeToken → Option OneTimeToken
find tenant secret [] = none
find tenant secret (row ∷ rows) =
    if is_link tenant secret row then some row else find tenant secret rows

abbrev pub is_invitation : TokenPurpose → Bool
is_invitation invitation = true
is_invitation password_reset = false

abbrev pub invites : Digest → Option Digest → Bool
invites mail none = false
invites mail (some invited) = same_digest invited mail

-- `kLiveInvitation`.
abbrev pub is_live_invitation : TenantId → Digest → Instant → OneTimeToken → Bool
is_live_invitation tenant mail now row =
    same_id row.tenant tenant
    && (is_invitation row.purpose
        && (invites mail row.invited && (not (has_value row.used_at) && before now row.expires_at)))

unfoldable pub live_invitation_to :
    TenantId → Digest → Instant → List OneTimeToken → Option OneTimeToken
live_invitation_to tenant mail now [] = none
live_invitation_to tenant mail now (row ∷ rows) =
    if is_live_invitation tenant mail now row
    then some row
    else live_invitation_to tenant mail now rows

-- `kMarkUsed`: the row of the identifier, if it was not used; whether there was one, the code does not
-- ask.
abbrev pub is_unused_row : OneTimeToken → OneTimeToken → Bool
is_unused_row token row =
    same_id row.tenant token.tenant && (same_id row.id token.id && not (has_value row.used_at))

unfoldable pub mark_row : OneTimeToken → OneTimeToken → OneTimeToken
mark_row token row = if is_unused_row token row then record row { used_at = token.used_at } else row

unfoldable pub mark_used : OneTimeToken → List OneTimeToken → List OneTimeToken
unfolding mark_row
mark_used token [] = []
mark_used token (row ∷ rows) = mark_row token row ∷ mark_used token rows
