-- ===== src/Common/Float.antt =====
-- Python's floats as far as durations use them: a finite one is a number of microseconds, the
-- precision that ffprobe prints.
use Prim.Native.Nat.{ℕ, ◌+◌, ◌-◌}
use mathlib.Core.Bool.{Bool, true, false, not}
use collapsarr.Common.Tests.{ltb, if◌then◌else◌}
use collapsarr.Common.Int.{ℤ, pos, pos_part, neg_part}

-- `infinite true` is positive.
pub data Float : Type 0 where
  finite : ℤ → Float
  infinite : Bool → Float
  nan : Float

-- The absolute difference of two integers.
abbrev pub distance : ℤ → ℤ → ℕ
distance a b =
    let x = pos_part a + neg_part b in let y = pos_part b + neg_part a in (x - y) + (y - x)

same_sign : Bool → Bool → Bool
same_sign true s = s
same_sign false s = not s

-- `abs(x - y)`
unfoldable pub abs_difference : Float → Float → Float
unfolding same_sign
abs_difference (finite a) (finite b) = finite (pos (distance a b))
abs_difference (infinite s) (infinite t) = if same_sign s t then nan else infinite true
abs_difference (finite a) (infinite s) = infinite true
abs_difference (infinite s) (finite a) = infinite true
abs_difference nan y = nan
abs_difference x nan = nan

-- `x > y`, false where one of the two is not a number.
unfoldable pub greater : Float → Float → Bool
greater (finite a) (finite b) = ltb (pos_part b + neg_part a) (pos_part a + neg_part b)
greater (infinite true) (infinite false) = true
greater (infinite true) (finite b) = true
greater (finite a) (infinite false) = true
greater x y = false
