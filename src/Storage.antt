-- ===== src/Storage.antt =====
-- include/etlx/storage/kv.hpp and src/storage/kv.cpp.
pub mod Laws
mod Reads
mod Tests
use cpp_template.Base.{
  ℕ, Bool, true, false, Option, none, some, List, [], ◌∷◌, ◌++◌, Bytes, codes, length, take, drop,
  ltb, ◌==◌, if◌then◌else◌,
}
use cpp_template.Core.{Category, Result, ok, err, fail, Status}
use cpp_template.FlatMap.{FlatMap, max_entries}

-- `enum Code`
abbrev pub not_found : ℕ
not_found = 1

abbrev pub full : ℕ
full = 2

abbrev pub too_large : ℕ
too_large = 3

abbrev pub io_error : ℕ
io_error = 4

-- ETLX_KV_KEY_CAPACITY
abbrev pub key_capacity : ℕ
key_capacity = 32

-- ETLX_KV_VALUE_CAPACITY
abbrev pub value_capacity : ℕ
value_capacity = 128

-- `MakeKey`
unfoldable pub make_key : Bytes → Result Bytes
make_key key =
    if ltb key_capacity (length key)
    then fail Category.storage too_large (codes "key too long")
    else ok key

-- A call that changes the store.
pub data Write : Type 0 where
  write : Bytes → Bytes → Write
  delete : Bytes → Write

module _ (maps : FlatMap) where
  open maps use {Map, find, insert, assign, erase, entries}

  -- `Get` behind `MakeKey` and `find`; the view `out` is given with its bytes.
  unfoldable pub get_found : Option Bytes → Bytes → Result ℕ × Bytes
  get_found none out = (fail Category.storage not_found (codes "key not found"), out)
  get_found (some v) out =
      if ltb (length out) (length v)
      then (fail Category.storage too_large (codes "output buffer too small"), out)
      else (ok (length v), v ++ drop (length v) out)

  unfoldable pub get_key : Result Bytes → Map → Bytes → Result ℕ × Bytes
  get_key (err e) m out = (err e, out)
  get_key (ok k) m out = get_found (find k m) out

  -- `Get`
  unfoldable pub get : Map → Bytes → Bytes → Result ℕ × Bytes
  get m key out = get_key (make_key key) m out

  abbrev pub is_some : Option Bytes → Bool
  is_some none = false
  is_some (some v) = true

  abbrev pub has_key : Result Bytes → Map → Bool
  has_key (err e) m = false
  has_key (ok k) m = is_some (find k m)

  -- `Has`
  unfoldable pub has : Map → Bytes → Bool
  has m key = has_key (make_key key) m

  -- `Set` behind its checks, on what `find` returned.
  unfoldable pub put_found : Option Bytes → Map → Bytes → Bytes → Status × Map
  put_found none m k value =
      if length (entries m) == max_entries
      then (fail Category.storage full (codes "store full"), m)
      else (ok tt, insert k value m)
  put_found (some v) m k value = (ok tt, assign k value m)

  unfoldable pub set_key : Result Bytes → Map → Bytes → Status × Map
  set_key (err e) m value = (err e, m)
  set_key (ok k) m value =
      if ltb value_capacity (length value)
      then (fail Category.storage too_large (codes "value too long"), m)
      else put_found (find k m) m k value

  -- `Set`
  unfoldable pub set : Map → Bytes → Bytes → Status × Map
  set m key value = set_key (make_key key) m value

  unfoldable pub remove_key : Result Bytes → Map → Status × Map
  remove_key (err e) m = (err e, m)
  remove_key (ok k) m = (ok tt, erase k m)

  -- `Remove`
  unfoldable pub remove : Map → Bytes → Status × Map
  remove m key = remove_key (make_key key) m

  -- `size`
  abbrev pub size : Map → ℕ
  size m = length (entries m)

  -- `SetString`
  unfoldable pub set_string : Map → Bytes → Bytes → Status × Map
  set_string m key value = set m key value

  abbrev pub prefix_of : Result ℕ × Bytes → Result Bytes × Bytes
  prefix_of (err e, scratch) = (err e, scratch)
  prefix_of (ok n, scratch) = (ok (take n scratch), scratch)

  -- `GetStringInto`
  unfoldable pub get_string_into : Map → Bytes → Bytes → Result Bytes × Bytes
  get_string_into m key scratch = prefix_of (get m key scratch)

  -- The calls of a client, in order.
  unfoldable pub run : Map → List Write → Map
  unfolding set remove
  run m [] = m
  run m (write key value ∷ rest) = run (set m key value).1 rest
  run m (delete key ∷ rest) = run (remove m key).1 rest
