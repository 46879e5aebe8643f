-- ===== src/Core/Laws.antt =====
-- What `Make` and `Fail` promise.
use cpp_template.Base.{
  ℕ, ◌≤◌, false, some, ◌++◌, ◌≡◌, ◌⊎◌, inl, inr, refl, arith, Bytes, length, drop, length-take,
  take-append-drop, take_all,
}
use cpp_template.Core.{Category, Error, Result, ok, err, error_ok, make, fail, error_code}

-- An error that `Make` builds is never the "no error" value, keeps its category and code, and holds
-- a prefix of the text that fits the message capacity: all of it when it is short enough.
make_lem :
    (c : Category) (n : ℕ) (msg : Bytes)
    → (error_ok (make c n msg) ≡ false)
      × ((make c n msg).category ≡ some c)
      × ((make c n msg).code ≡ n)
      × (length (make c n msg).message ≤ 64)
      × ((rest : Bytes) × ((make c n msg).message ++ rest ≡ msg))
      × (length msg ≤ 64 → (make c n msg).message ≡ msg)
unfolding make error_ok
make_lem c n msg = (
  refl,
  refl,
  refl,
  omega (arith, length-take 64 msg),
  (drop 64 msg, take-append-drop 64 msg),
  take_all 64 msg,
)

pub Result-cases {ℓ} :
    {A : Type ℓ} (m : Result A) → ((a : A) × (m ≡ ok a)) ⊎ ((e : Error) × (m ≡ err e))
Result-cases (ok a) = inl (a, refl)
Result-cases (err e) = inr (e, refl)

pub error_code-fail {ℓ} :
    (A : Type ℓ) (c : Category) (n : ℕ) (msg : Bytes) → error_code (fail {A = A} c n msg) ≡ some n
unfolding fail make
error_code-fail A c n msg = refl
