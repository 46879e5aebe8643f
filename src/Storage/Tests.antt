-- ===== src/Storage/Tests.antt =====
-- Witnesses for the store.
use cpp_template.Base.{
  ◌+◌, ◌≡◌, ◌≢◌, refl, false, List, [], ◌∷◌, ◌++◌, Bytes, codes, drop, replicate, if◌then◌else◌,
  arith,
}
use cpp_template.Core.{Category, ok, fail}
use cpp_template.FlatMap.{lookup}
use cpp_template.FlatMap.Tests.{assoc_maps}
use cpp_template.Storage.{
  not_found, make_key, get, get_string_into, has, set, set_key, put_found, remove, size, Write,
  write, delete, run,
}
use cpp_template.Storage.Laws.{IsValid, SetOutcome, set-SetOutcome, run-IsValid}
use cpp_template.Storage.Reads.{set-get, remove-get}
open assoc_maps use {Map, empty}

abbrev calls : List Write
calls =
    write (codes "artifact-name") (codes "v1")
    ∷ write (codes "step") (codes "2")
    ∷ delete (codes "step")
    ∷ []

run-IsValid_example : IsValid assoc_maps (run assoc_maps empty calls)
run-IsValid_example = run-IsValid assoc_maps calls

empty_valid : IsValid assoc_maps empty
unfolding run
empty_valid = run-IsValid assoc_maps []

set-SetOutcome_example :
    SetOutcome assoc_maps empty
      (replicate 33 65)
      (codes "v1")
      (set assoc_maps empty (replicate 33 65) (codes "v1"))
set-SetOutcome_example = set-SetOutcome assoc_maps empty (replicate 33 65) (codes "v1") empty_valid

abbrev one : Map
one = assoc_maps.insert (codes "a") (codes "v1") empty

stores_one : set assoc_maps empty (codes "a") (codes "v1") ≡ (ok tt, one)
unfolding set set_key put_found make_key lookup
stores_one = refl

set-get_example :
    (get assoc_maps one (codes "a") (replicate 4 0) ≡ (ok 2, codes "v1" ++ drop 2 (replicate 4 0)))
    × ((get_string_into assoc_maps one (codes "a") (replicate 4 0)).0 ≡ ok (codes "v1"))
    × ((j buffer : Bytes)
        → j ≢ codes "a"
        → get assoc_maps one j buffer ≡ get assoc_maps empty j buffer)
set-get_example =
    set-get assoc_maps empty (codes "a") (codes "v1") (replicate 4 0) empty_valid stores_one
      (omega arith)

remove-get_example :
    ((remove assoc_maps one (codes "a")).0 ≡ ok tt)
    × (has assoc_maps (remove assoc_maps one (codes "a")).1 (codes "a") ≡ false)
    × ((get assoc_maps (remove assoc_maps one (codes "a")).1 (codes "a") []).0
        ≡ fail Category.storage not_found (codes "key not found"))
    × ((j buffer : Bytes)
        → j ≢ codes "a"
        → get assoc_maps (remove assoc_maps one (codes "a")).1 j buffer
          ≡ get assoc_maps one j buffer)
    × (size assoc_maps (remove assoc_maps one (codes "a")).1
          + (if has assoc_maps one (codes "a") then 1 else 0)
        ≡ size assoc_maps one)
remove-get_example = remove-get assoc_maps one (codes "a") [] (omega arith)
