-- ===== src/Identity/Entrance/Passwords.antt =====
-- identity/core/password.hpp and password.cpp, email.hpp: the rules of a password, its text and its
-- hash. A password is the bytes of its text; the mail address is kept as its lowered text.
use Prim.Native.Nat.{bit_and}
use Prim.Native.String.{◌++◌, find}
use pdr.Base.{
  ℕ, suc, ◌*◌, ◌%◌, ◌^◌, ◌<◌, ◌≤◌, ◌≡◌, not, List, [], ◌∷◌, String, ltb, ◌==◌, length,
  if◌then◌else◌, arith,
}
use pdr.Core.Errors.{Result, ok, refuse, validation}

pub record Email : Type 0 where
  pub value : String

pub record PasswordRules : Type 0 where
  pub memory_kib : ℕ
  pub iterations : ℕ
  pub parallelism : ℕ
  pub min_length : ℕ

pub record Password : Type 0 where
  pub secret : List ℕ

pub record PasswordHash : Type 0 where
  pub value : String

-- `Symbols`: the bytes that do not continue a character.
unfoldable pub symbols : List ℕ → ℕ
symbols [] = 0
symbols (symbol ∷ text) =
    let rest = symbols text in if not (bit_and symbol 192 == 128) then suc rest else rest

abbrev pub k_max_length : ℕ
k_max_length = 256

-- The product of the threads and the blocks is a `std::uint32_t`.
unfoldable pub compose_rules : ℕ → ℕ → ℕ → ℕ → Result PasswordRules
compose_rules memory_kib iterations parallelism min_length =
    if ltb memory_kib 19456
    then refuse validation "password_memory_too_small"
        "памяти на счёт хеша меньше 19456 КиБ: перебор становится дешёвым"
    else if ltb iterations 2
    then refuse validation "password_iterations_too_few" "проходов меньше 2"
    else if ltb parallelism 1
    then refuse validation "password_parallelism_too_low" "нитей счёта меньше одной"
    else if ltb memory_kib (parallelism * 8 % 2 ^ 32)
    then refuse validation "password_memory_below_parallelism"
        "на каждую нить нужно не меньше 8 КиБ памяти"
    else if ltb min_length 8
    then refuse validation "password_min_length_too_low"
        "меньше 8 знаков пароль перебирается целиком"
    else if ltb k_max_length min_length
    then refuse validation "password_min_length_above_max"
        "порог длины выше того, что вообще принимается"
    else ok (record {
      memory_kib = memory_kib;
      iterations = iterations;
      parallelism = parallelism;
      min_length = min_length;
    })

unfoldable pub given : List ℕ → Result Password
given text =
    if ltb k_max_length (length text)
    then refuse validation "password_too_long" "не больше 256 знаков"
    else ok (record { secret = text })

-- `std::to_string` of the least length is a parameter of the refusal's text only, `shown`.
unfoldable pub chosen : (ℕ → String) → List ℕ → PasswordRules → Result Password
unfolding given symbols
chosen shown text rules =
    if ltb (symbols text) rules.min_length
    then refuse validation "password_too_short"
        ("нужно не меньше " ++ shown rules.min_length ++ " знаков")
    else given text

unfoldable pub parse_hash : String → Result PasswordHash
parse_hash text =
    if not (find text "$argon2id$" == 0)
    then refuse validation "password_hash_not_argon2id"
        "хеш пароля записывается Argon2id и никак иначе"
    else ok (record { value = text })

symbols_le : (text : List ℕ) → symbols text ≤ length text
unfolding symbols
symbols_le [] = omega arith
symbols_le (symbol ∷ text) = ground (arith, symbols_le text)

-- Rules that are composed keep the least memory, passes and threads; their memory has eight blocks for
-- each thread, while the product fits into 32 bits; and under them a password that is chosen has at
-- least the least number of characters, which is at least eight, and at most 256 bytes.
pub chosen_bounds :
    (memory_kib iterations parallelism min_length : ℕ) (rules : PasswordRules) (shown : ℕ → String)
    (text : List ℕ) (password : Password)
    → compose_rules memory_kib iterations parallelism min_length ≡ ok rules
    → chosen shown text rules ≡ ok password
    → (19456 ≤ rules.memory_kib)
      × (2 ≤ rules.iterations)
      × (1 ≤ rules.parallelism)
      × (rules.parallelism < 2 ^ 29 → rules.parallelism * 8 ≤ rules.memory_kib)
      × (password.secret ≡ text)
      × (8 ≤ symbols text)
      × (rules.min_length ≤ symbols text)
      × (length text ≤ 256)
unfolding compose_rules chosen given
chosen_bounds memory_kib iterations parallelism min_length rules shown text password composed fine =
    (
      ground arith,
      ground arith,
      ground arith,
      λ few. ground arith,
      ground arith,
      ground arith,
      ground arith,
      ground arith,
    )
