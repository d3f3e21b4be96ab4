-- ===== src/Core/Errors.antt =====
-- libs/pdr-core/src/core/errors.hpp and errors.cpp: the kinds of refusal, an error, a result.
use pdr.Base.{◌≡◌, refl, String, ◌⊎◌, inl, inr}

pub data ErrorKind : Type 0 where
  validation not_found conflict forbidden boundary : ErrorKind

unfoldable pub name : ErrorKind → String
name ErrorKind.validation = "validation"
name ErrorKind.not_found = "not_found"
name ErrorKind.conflict = "conflict"
name ErrorKind.forbidden = "forbidden"
name ErrorKind.boundary = "validation"

pub record Error : Type 0 where
  pub kind : ErrorKind
  pub code : String
  pub detail : String

pub data Result {ℓ} (A : Type ℓ) : Type ℓ where
  ok : A → Result A
  err : Error → Result A

infixl 5 ◌>>=◌
abbrev pub ◌>>=◌ {ℓ κ} : {A : Type ℓ} {B : Type κ} → Result A → (A → Result B) → Result B
ok a >>= f = f a
err e >>= f = err e

-- A refusal with the kind, the code and the human-readable detail that the source gives.
abbrev pub refuse {ℓ} : {A : Type ℓ} → ErrorKind → String → String → Result A
refuse k c d = err (record { kind = k; code = c; detail = d })

pub Result-cases {ℓ} :
    {A : Type ℓ} (r : Result A) → ((a : A) × (r ≡ ok a)) ⊎ ((e : Error) × (r ≡ err e))
Result-cases (ok a) = inl (a, refl)
Result-cases (err e) = inr (e, refl)
