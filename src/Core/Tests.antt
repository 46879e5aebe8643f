-- ===== src/Core/Tests.antt =====
-- The value that is no error.
use cpp_template.Base.{true, ◌≡◌, refl}
use cpp_template.Core.{error_ok, no_error}

no_error_is_ok : error_ok no_error ≡ true
unfolding error_ok
no_error_is_ok = refl
