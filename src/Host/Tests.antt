-- ===== src/Host/Tests.antt =====
-- Witnesses for the store in a file.
use cpp_template.Base.{◌≡◌, refl, ◌⊎◌, true, some, none, Bytes, codes, [], ◌∷◌}
use cpp_template.Core.{ok, error_code}
use cpp_template.FlatMap.Tests.{assoc_maps}
use cpp_template.Storage.{io_error, write, run}
use cpp_template.Storage.Laws.{run-IsValid}
use cpp_template.Host.{Host, Disk, load, commit}
use cpp_template.Host.Format.{commit-load}
open assoc_maps use {Map, empty, find}

abbrev host : Host
host = record { opens = true; flushes = true; renames = true; half_written = []; lost = none }

abbrev disk : Disk
disk = record { file = some (codes "EKV1"); temp = none }

abbrev filled : Map
filled = run assoc_maps empty (write (codes "artifact-name") (codes "v1") ∷ [])

commit-load_example :
    (((commit assoc_maps host disk filled).0 ≡ ok tt)
      × ((load assoc_maps (commit assoc_maps host disk filled).1.file).0 ≡ ok tt)
      × ((k : Bytes)
          → find k (load assoc_maps (commit assoc_maps host disk filled).1.file).1 ≡ find k filled))
    ⊎ ((error_code (commit assoc_maps host disk filled).0 ≡ some io_error)
        × ((commit assoc_maps host disk filled).1.file ≡ disk.file))
commit-load_example =
    commit-load assoc_maps host disk filled
      (run-IsValid assoc_maps (write (codes "artifact-name") (codes "v1") ∷ [])) refl
