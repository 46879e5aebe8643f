-- ===== src/Core.antt =====
-- include/etlx/core/error.hpp and result.hpp: errors as values, with no exception.
-- `etl::string::assign` keeps what fits its capacity, as the comment of `Make` says.
pub mod Laws
mod Tests
use cpp_template.Base.{ℕ, Bool, true, false, Option, none, some, [], Bytes, take}

-- The static `Category` objects, one for each module.
pub data Category : Type 0 where
  json conf storage events io http crypto net democli se : Category

-- ETLX_ERROR_MESSAGE_CAPACITY
abbrev pub message_capacity : ℕ
message_capacity = 64

-- `none` is the null category: no error.
pub record Error : Type 0 where
  pub category : Option Category
  pub code : ℕ
  pub message : Bytes

-- `Error::ok`, on the category
abbrev is_null : Option Category → Bool
is_null none = true
is_null (some c) = false

unfoldable pub error_ok : Error → Bool
error_ok e = is_null e.category

abbrev pub no_error : Error
no_error = record { category = none; code = 0; message = [] }

unfoldable pub make : Category → ℕ → Bytes → Error
make cat code msg = record { category = some cat; code = code; message = take message_capacity msg }

-- `etl::expected<T, Error>`; a `Status` holds the unit.
pub data Result {ℓ} (A : Type ℓ) : Type ℓ where
  ok : A → Result A
  err : Error → Result A

abbrev pub Status : Type 0
Status = Result (Unit {0})

-- `Fail`
unfoldable pub fail {ℓ} : {A : Type ℓ} → Category → ℕ → Bytes → Result A
fail cat code msg = err (make cat code msg)

-- `if (!r) return Unexpected{r.error()};`
infixl 5 ◌>>=◌ ◌>>◌
abbrev pub ◌>>=◌ {ℓ κ} : {A : Type ℓ} {B : Type κ} → Result A → (A → Result B) → Result B
ok a >>= f = f a
err e >>= f = err e

abbrev pub ◌>>◌ {ℓ} : {B : Type ℓ} → Status → Result B → Result B
m >> k = m >>= λ _. k

-- The code of a failure, `none` on success.
abbrev pub error_code {ℓ} : {A : Type ℓ} → Result A → Option ℕ
error_code (ok a) = none
error_code (err e) = some e.code
