-- ===== src/Common/Json.antt =====
-- JSON values as PostgreSQL and Python's `dict[str, Any]` hold them. A number is kept as the text
-- of its literal, since the code here never computes with one.
use Prim.Native.String.{String}
use mathlib.Core.Path.{◌≡◌, refl}
use mathlib.Core.Bool.{Bool}
use mathlib.Core.Option.{Option, none, some}
use native.Mathlib.Omega.{arith}
use text.Mathlib.Text.{◌==◌}
use text.Mathlib.TextEquality.{eq_iff}
use procintel.Common.Tests.{if◌then◌else◌}

mutual
  pub data Json : Type 0 where
    null : Json
    bool : Bool → Json
    num : String → Json
    str : String → Json
    arr : Items → Json
    obj : Fields → Json

  pub data Items : Type 0 where
    nil : Items
    cons : Json → Items → Items

  pub data Fields : Type 0 where
    end : Fields
    field : String → Json → Fields → Fields

unfoldable pub get_key : String → Fields → Option Json
get_key k end = none
get_key k (field j v fs) = if j == k then some v else get_key k fs

-- `{**fs, k: v}`: an existing key keeps its place, a new one goes last.
unfoldable pub set_key : String → Json → Fields → Fields
set_key k v end = field k v end
set_key k v (field j w fs) = if j == k then field j v fs else field j w (set_key k v fs)

pub get_key-set_key :
    (k j : String) (v : Json) (fs : Fields)
    → get_key j (set_key k v fs) ≡ (if k == j then some v else get_key j fs)
unfolding get_key set_key
get_key-set_key k j v end = refl
get_key-set_key k j v (field i w fs) =
    ground (arith, eq_iff k j, eq_iff i k, eq_iff i j, get_key-set_key k j v fs)

-- `->> key` cast to a boolean; other kinds of value are never stored under the keys read so.
unfoldable pub as_boolean : Option Json → Option Bool
as_boolean (some (bool b)) = some b
as_boolean _ = none
