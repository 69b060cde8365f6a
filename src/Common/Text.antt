-- ===== src/Common/Text.antt =====
-- Python's `str` as its list of code points: equality, order, prefix and `strip`, and
-- what `lower` does to ASCII.
use Prim.Native.Nat.{ℕ, ◌+◌}
use Prim.Native.Char.{code}
use Prim.Native.String.{String}
use mathlib.Core.Path.{◌≡◌, refl}
use mathlib.Core.Logic.{◌↔◌, ◌⊎◌}
use mathlib.Core.Bool.{Bool, true, false, ◌&&◌, ◌||◌}
use mathlib.Core.List.{List, [], ◌∷◌, ◌++◌, reverse, map}
use native.Mathlib.Omega.{arith}
use collapsarr.Common.Tests.{◌==◌, ltb, leb, if◌then◌else◌}

abbrev pub Str : Type 0
Str = List ℕ

-- The code points of a literal.
abbrev pub codes : String → Str
codes String.[] = []
codes (String.◌∷◌ c s) = code c ∷ codes s

-- `a == b` on texts.
unfoldable pub str_eq : Str → Str → Bool
str_eq [] [] = true
str_eq [] (y ∷ ys) = false
str_eq (x ∷ xs) [] = false
str_eq (x ∷ xs) (y ∷ ys) = x == y && str_eq xs ys

pub str_eq_iff : (a b : Str) → (str_eq a b ≡ true) ↔ (a ≡ b)
unfolding str_eq
str_eq_iff [] [] = ground arith
str_eq_iff [] (y ∷ ys) = ground arith
str_eq_iff (x ∷ xs) [] = ground arith
str_eq_iff (x ∷ xs) (y ∷ ys) = ground (arith, str_eq_iff xs ys)

pub str_eq_refl : (a : Str) → str_eq a a ≡ true
str_eq_refl a = (str_eq_iff a a).1 refl

-- `a < b` on texts: by the first code point that differs, a prefix first.
unfoldable pub str_lt : Str → Str → Bool
str_lt [] [] = false
str_lt [] (y ∷ ys) = true
str_lt (x ∷ xs) [] = false
str_lt (x ∷ xs) (y ∷ ys) = ltb x y || (x == y && str_lt xs ys)

pub str_lt_trans : (a b c : Str) → str_lt a b ≡ true → str_lt b c ≡ true → str_lt a c ≡ true
unfolding str_lt
str_lt_trans [] [] c p q = ground arith
str_lt_trans [] (y ∷ ys) [] p q = ground arith
str_lt_trans [] (y ∷ ys) (z ∷ zs) p q = refl
str_lt_trans (x ∷ xs) [] c p q = ground arith
str_lt_trans (x ∷ xs) (y ∷ ys) [] p q = ground arith
str_lt_trans (x ∷ xs) (y ∷ ys) (z ∷ zs) p q = ground (arith, str_lt_trans xs ys zs)

pub str_lt_total : (a b : Str) → (str_lt a b ≡ true) ⊎ (str_lt b a ≡ true) ⊎ (a ≡ b)
unfolding str_lt
str_lt_total [] [] = ground arith
str_lt_total [] (y ∷ ys) = ground arith
str_lt_total (x ∷ xs) [] = ground arith
str_lt_total (x ∷ xs) (y ∷ ys) = ground (arith, str_lt_total xs ys)

-- `text.startswith(prefix)`.
unfoldable pub starts_with : Str → Str → Bool
starts_with [] text = true
starts_with (p ∷ ps) [] = false
starts_with (p ∷ ps) (c ∷ text) = p == c && starts_with ps text

pub starts_with-append : (p s : Str) → starts_with p (p ++ s) ≡ true
unfolding starts_with
starts_with-append [] s = refl
starts_with-append (c ∷ p) s = ground (arith, starts_with-append p s)

-- What `str.strip` removes: the characters that Unicode's tables count as white space.
is_space : ℕ → Bool
is_space c =
    (leb 9 c && leb c 13)
    || (leb 28 c && leb c 32)
    || (c == 133)
    || (c == 160)
    || (c == 5760)
    || (leb 8192 c && leb c 8202)
    || (leb 8232 c && leb c 8233)
    || (c == 8239)
    || (c == 8287)
    || (c == 12288)

strip_left : Str → Str
unfolding is_space
strip_left [] = []
strip_left (c ∷ cs) = let rest = strip_left cs in if is_space c then rest else c ∷ cs

unfoldable pub strip : Str → Str
unfolding strip_left
strip s = reverse (strip_left (reverse (strip_left s)))

lower_char : ℕ → ℕ
lower_char c = if leb b'A' c && leb c b'Z' then c + 32 else c

-- A text in lower case, where only ASCII has cases.
unfoldable pub lower_ascii : Str → Str
unfolding lower_char
lower_ascii s = map lower_char s

lower_char-lower_char : (c : ℕ) → lower_char (lower_char c) ≡ lower_char c
unfolding lower_char
lower_char-lower_char c = ground arith

pub lower_ascii-lower_ascii : (s : Str) → lower_ascii (lower_ascii s) ≡ lower_ascii s
unfolding lower_ascii
lower_ascii-lower_ascii [] = refl
lower_ascii-lower_ascii (c ∷ s) = ground (arith, lower_char-lower_char c, lower_ascii-lower_ascii s)

pub lower_ascii-empty : (s : Str) → lower_ascii s ≡ [] → s ≡ []
unfolding lower_ascii
lower_ascii-empty [] e = refl
lower_ascii-empty (c ∷ s) e = ground arith
