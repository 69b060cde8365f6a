-- ===== src/Common/Json.antt =====
-- JSON values as Python reads them, with the integers that are not negative.
use Prim.Native.Nat.{ℕ}
use mathlib.Core.Bool.{Bool}
use collapsarr.Common.Tests.{if◌then◌else◌}
use collapsarr.Common.Text.{Str, str_eq}
use collapsarr.Common.Float.{Float}

mutual
  pub data Json : Type 0 where
    null : Json
    boolean : Bool → Json
    integer : ℕ → Json
    real : Float → Json
    text : Str → Json
    array : Items → Json
    object : Fields → Json

  pub data Items : Type 0 where
    nil : Items
    cons : Json → Items → Items

  pub data Fields : Type 0 where
    end : Fields
    field : Str → Json → Fields → Fields

-- `dict.get`, where None is JSON's null.
unfoldable pub get : Str → Fields → Json
get key end = null
get key (field k value fields) = let rest = get key fields in if str_eq k key then value else rest
