-- ===== src/Identity/Care/Scopes/Granting.antt =====
-- grant_guardian_scope.cpp: who may open a level of access, and what then stands in the table.
use pdr.Base.{
  ◌≡◌, refl, ap, ◌∙◌, Bool, true, false, not, ◌&&◌, ◌||◌, List, [], ◌∷◌, none, some, has_value,
  arith, Bool-cases, inl, inr, ==_refl,
}
use pdr.Core.Errors.{Error, ok, err, refuse, conflict, Result-cases}
use pdr.Core.Ids.{TenantId, same_id}
use pdr.Core.Time.{Instant}
use pdr.Identity.Scopes.{GuardianScope, same_scope, index}
use pdr.Identity.Consents.{GuardianConsent, ConsentId, guardianship, same_basis, grant}
use pdr.Identity.Access.{MaturityRule}
use pdr.Identity.Care.Scopes.{
  GrantRequest, Standing, active_for, of_scope, is_active_row, find_active, save, granted,
  student_decides, grant_guardian_scope,
}

-- No row has the identifier.
abbrev pub has_consent : TenantId → ConsentId → List GuardianConsent → Bool
has_consent tenant id [] = false
has_consent tenant id (row ∷ rows) =
    (same_id row.tenant tenant && same_id row.id id) || has_consent tenant id rows

same_scope_refl : (scope : GuardianScope) → same_scope scope scope ≡ true
unfolding same_scope
same_scope_refl scope = ==_refl (index scope)

-- A consent that is saved is found, where none of its level stood and its identifier is new.
find_active-save :
    (consent : GuardianConsent) (rows : List GuardianConsent)
    → has_value consent.revoked_at ≡ false
    → has_consent consent.tenant consent.id rows ≡ false
    → has_value
        (find_active consent.tenant consent.guardian_id consent.student_id consent.scope rows)
      ≡ false
    → find_active consent.tenant consent.guardian_id consent.student_id consent.scope
        (save consent rows)
      ≡ some consent
unfolding find_active save active_for of_scope
find_active-save consent [] live fresh free = rw (
  ==_refl consent.tenant.value,
  ==_refl consent.guardian_id.value,
  ==_refl consent.student_id.value,
  live,
  same_scope_refl consent.scope,
)
find_active-save consent (row ∷ rows) live fresh free =
    let other : same_id row.tenant consent.tenant && same_id row.id consent.id ≡ false =
      ground (arith, fresh) in
    let rest : has_consent consent.tenant consent.id rows ≡ false = ground (arith, fresh) in
    elim (Bool-cases (is_active_row consent.tenant consent.guardian_id consent.student_id row)) [
      | inr idle ↦ rw (other, idle) (find_active-save consent rows live rest (rw idle at free))
      | inl active ↦ elim (Bool-cases (same_scope row.scope consent.scope)) [
        | inl same ↦ absurd (ground (arith, rw (active, same) at free))
        | inr apart ↦
            rw (other, active, apart)
              (find_active-save consent rows live rest (rw (active, apart) at free))
      ]
    ]

granted_fields :
    (request : GrantRequest) (id : ConsentId) (now : Instant) (consent : GuardianConsent)
    → grant id request.tenant request.guardian request.student request.scope request.basis
        request.granted_by now request.expires_at
      ≡ ok consent
    → consent ≡ record {
      id = id;
      tenant = request.tenant;
      guardian_id = request.guardian;
      student_id = request.student;
      scope = request.scope;
      basis = request.basis;
      granted_by = request.granted_by;
      granted_at = now;
      expires_at = request.expires_at;
      revoked_at = none;
      revoked_by = none;
    }
unfolding grant
granted_fields request id now consent h = ground (arith, h)

module _ (request : GrantRequest) (standing : Standing) (id : ConsentId) (now : Instant)
    (rows : List GuardianConsent) (rule : MaturityRule) (ruled : standing.rule ≡ ok rule) where
  abbrev pub stands_open : Bool
  stands_open =
      has_value (find_active request.tenant request.guardian request.student request.scope rows)

  abbrev pub by_guardianship : Bool
  by_guardianship = same_basis request.basis guardianship

  abbrev pub by_student : Bool
  by_student = same_id request.granted_by request.student

  -- The tests of the code, in its order, and what passes them all.
  abbrev pub passes : Bool
  passes =
      not (by_guardianship && not (has_value standing.found))
      && (not (not by_guardianship && not by_student)
          && (not stands_open && not (student_decides request standing rule now && not by_student)))

  -- What passes the tests is granted or refused as the consent itself is; what does not is refused and
  -- leaves the table as it was.
  passed :
      passes ≡ true
      → grant_guardian_scope request standing id now rows
        ≡ granted rows (
            grant id request.tenant request.guardian request.student request.scope request.basis
              request.granted_by now request.expires_at)
  unfolding grant_guardian_scope
  passed h = rw ruled (ground (arith, h))

  unchanged : passes ≡ false → (grant_guardian_scope request standing id now rows).1 ≡ rows
  unfolding grant_guardian_scope
  unchanged h = rw ruled (ground (arith, h))

  not_passed :
      passes ≡ false
      → (e : Error) × (grant_guardian_scope request standing id now rows ≡ (err e, rows))
  unfolding grant_guardian_scope
  not_passed h = elim (Result-cases (grant_guardian_scope request standing id now rows).0) [
    | inl (c, made) ↦ absurd (ground (arith, h, made))
    | inr (e, made) ↦ (e, λ i. (made i, unchanged h i))
  ]

  stands_after :
      (consent : GuardianConsent)
      → passes ≡ true
      → consent ≡ record {
        id = id;
        tenant = request.tenant;
        guardian_id = request.guardian;
        student_id = request.student;
        scope = request.scope;
        basis = request.basis;
        granted_by = request.granted_by;
        granted_at = now;
        expires_at = request.expires_at;
        revoked_at = none;
        revoked_by = none;
      }
      → has_consent request.tenant id rows ≡ false
      → find_active request.tenant request.guardian request.student request.scope
          (save consent rows)
        ≡ some consent
  stands_after consent fine fields fresh =
      rw fields (find_active-save _ rows refl fresh (ground (arith, fine)))

  barred :
      (other : ConsentId) (later : Instant) (consent : GuardianConsent)
      → passes ≡ true
      → find_active request.tenant request.guardian request.student request.scope
          (save consent rows)
        ≡ some consent
      → grant_guardian_scope request standing other later (save consent rows) ≡ (
        refuse conflict "consent_already_granted" "этот уровень доступа уже открыт",
        save consent rows,
      )
  unfolding grant_guardian_scope
  barred other later consent fine found = rw (ruled, found) (ground (arith, fine))

  -- Where the rule of maturity can be read, a request passes when a guardianship in force or the word of
  -- the student stands behind it, the table has no consent of its kind that was not revoked, and a
  -- student who decides about the level asks himself. One that does not pass is refused and the table is
  -- as it was. One that passes, whose consent is well formed under a new identifier, is stored: the
  -- table then has that consent for the level, and the same request is refused at any later moment, also
  -- after the end of the consent, while the table stays so.
  pub grant_guardian_scope_lem :
      (passes ≡ false
        → (e : Error) × (grant_guardian_scope request standing id now rows ≡ (err e, rows)))
      × ((consent : GuardianConsent)
          → passes ≡ true
          → grant id request.tenant request.guardian request.student request.scope request.basis
              request.granted_by now request.expires_at
            ≡ ok consent
          → has_consent request.tenant id rows ≡ false
          → (grant_guardian_scope request standing id now rows ≡ (ok consent, save consent rows))
            × (find_active request.tenant request.guardian request.student request.scope
                  (save consent rows)
                ≡ some consent)
            × ((other : ConsentId) (later : Instant)
                → grant_guardian_scope request standing other later (save consent rows) ≡ (
                  refuse conflict "consent_already_granted" "этот уровень доступа уже открыт",
                  save consent rows,
                )))
  unfolding granted
  grant_guardian_scope_lem = (
    not_passed,
    λ consent fine made fresh.
        let fields = granted_fields request id now consent made in
        let found = stands_after consent fine fields fresh in
        (
          passed fine ∙ ap (granted rows) made,
          found,
          λ other later. barred other later consent fine found,
        ),
  )
