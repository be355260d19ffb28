-- ===== src/Common/Json.antt =====
-- JSON as the program holds it after decoding: an object is a Go map, so a key has one value.
use mathlib.Core.Path.{◌≡◌, refl}
use mathlib.Core.Bool.{Bool}
use mathlib.Core.List.{[]}
use mathlib.Core.Option.{Option, none, some}
use native.Mathlib.Omega.{arith}
use lite_api.Common.Tests.{Text, ◌==◌, string_eq, if◌then◌else◌}
use text.Mathlib.TextEquality.{eq_iff}
use Prim.Native.String.{String}

mutual
  pub data Json : Type 0 where
    null : Json
    bool : Bool → Json
    num : Text → Json
    str : Text → Json
    arr : Items → Json
    obj : Fields → Json

  pub data Items : Type 0 where
    nil : Items
    item : Json → Items → Items

  pub data Fields : Type 0 where
    end : Fields
    field : String → Json → Fields → Fields

unfoldable pub get : String → Fields → Option Json
get k end = none
get k (field j v fs) = if j == k then some v else get k fs

-- `m[k] = v`.
unfoldable pub put : String → Json → Fields → Fields
put k v end = field k v end
put k v (field j w fs) = if j == k then field k v fs else field j w (put k v fs)

-- `delete(m, k)`.
unfoldable pub remove : String → Fields → Fields
remove k end = end
remove k (field j w fs) = if j == k then remove k fs else field j w (remove k fs)

pub get-put :
    (k j : String) (v : Json) (fs : Fields)
    → get j (put k v fs) ≡ (if k == j then some v else get j fs)
unfolding get put
get-put k j v end = refl
get-put k j v (field i w fs) = ground (arith, eq_iff k j, eq_iff i k, eq_iff i j, get-put k j v fs)

pub get-remove :
    (k j : String) (fs : Fields) → get j (remove k fs) ≡ (if k == j then none else get j fs)
unfolding get remove
get-remove k j end = ground arith
get-remove k j (field i w fs) =
    ground (arith, eq_iff k j, eq_iff i k, eq_iff i j, get-remove k j fs)

-- `json.Unmarshal` of a member into a string: `null` leaves it empty, and a missing member, or one of
-- another type, is an error.
unfoldable pub as_text : Option Json → Option Text
as_text (some (str t)) = some t
as_text (some null) = some []
as_text _ = none

-- `json.Unmarshal` into a map, followed by the test for a nil map.
unfoldable pub as_object : Option Json → Option Fields
as_object (some (obj fs)) = some fs
as_object _ = none
