-- ===== src/Crypto.antt =====
-- include/etlx/crypto: the codes of the module, and `ConstTimeEqual` of src/crypto/crypto.cpp.
pub mod Sha256
pub mod Hmac
mod Bits
pub mod Equal
mod Tests
use Prim.Native.Nat.{bit_or, bit_xor}
use cpp_template.Base.{ℕ, Bool, false, [], ◌∷◌, ◌==◌, if◌then◌else◌, Bytes, length}

-- `enum Code`
abbrev pub bad_state : ℕ
bad_state = 1

abbrev pub verify_failed : ℕ
verify_failed = 2

abbrev pub random_failed : ℕ
random_failed = 3

-- The loop over two views of one length: the bits in which they differ so far.
unfoldable pub diff_loop : Bytes → Bytes → ℕ → ℕ
diff_loop (x ∷ a) (y ∷ b) diff = diff_loop a b (bit_or diff (bit_xor x y))
diff_loop _ _ diff = diff

unfoldable pub const_time_equal : Bytes → Bytes → Bool
unfolding diff_loop
const_time_equal a b = if length a == length b then diff_loop a b 0 == 0 else false
