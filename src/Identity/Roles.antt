-- ===== src/Identity/Roles.antt =====
-- identity/core/membership.hpp and membership.cpp: roles, and the set of roles of one person.
use pdr.Base.{
  ℕ, ◌<◌, ◌≡◌, Bool, false, ◌||◌, List, [], ◌∷◌, Option, none, some, String, str_eq, ◌==◌,
  if◌then◌else◌, arith,
}
use pdr.Base.Bits.{with_bit, has_bit, has_bit-with_bit, has_bit-zero}
use pdr.Core.Ids.{TenantId, PersonId, same_id}

pub data Role : Type 0 where
  owner tutor student guardian : Role

unfoldable pub name : Role → String
name owner = "owner"
name tutor = "tutor"
name student = "student"
name guardian = "guardian"

unfoldable pub parse_role : String → Option Role
parse_role text =
    if str_eq text "owner"
    then some owner
    else if str_eq text "tutor"
    then some tutor
    else if str_eq text "student"
    then some student
    else if str_eq text "guardian"
    then some guardian
    else none

abbrev pub every_role : List Role
every_role = owner ∷ tutor ∷ student ∷ guardian ∷ []

-- `static_cast<std::uint8_t>(role)`.
abbrev pub index : Role → ℕ
index owner = 0
index tutor = 1
index student = 2
index guardian = 3

pub record RoleSet : Type 0 where
  pub bits : ℕ

abbrev pub no_roles : RoleSet
no_roles = record { bits = 0 }

unfoldable pub with_role : RoleSet → Role → RoleSet
with_role set role = record { bits = with_bit set.bits (index role) }

unfoldable pub has_role : RoleSet → Role → Bool
has_role set role = has_bit set.bits (index role)

-- `RoleSet::Of`.
add_roles : RoleSet → List Role → RoleSet
add_roles set [] = set
add_roles set (role ∷ rest) = add_roles (with_role set role) rest

unfoldable pub roles_of : List Role → RoleSet
unfolding add_roles
roles_of roles = add_roles no_roles roles

abbrev pub same_role : Role → Role → Bool
same_role a b = index a == index b

index_lt : (r : Role) → index r < 8
index_lt owner = omega arith
index_lt tutor = omega arith
index_lt student = omega arith
index_lt guardian = omega arith

pub has_role-with_role :
    (set : RoleSet) (r r' : Role)
    → has_role (with_role set r) r' ≡ same_role r r' || has_role set r'
unfolding has_role with_role
has_role-with_role set r r' =
    has_bit-with_bit set.bits (index r) (index r') (index_lt r) (index_lt r')

pub has_role-no_roles : (r : Role) → has_role no_roles r ≡ false
unfolding has_role
has_role-no_roles r = has_bit-zero (index r)

pub record TenantMembership : Type 0 where
  pub tenant : TenantId
  pub person : PersonId
  pub role : Role

unfoldable pub same_tenant_as : TenantMembership → TenantMembership → Bool
same_tenant_as a b = same_id a.tenant b.tenant
