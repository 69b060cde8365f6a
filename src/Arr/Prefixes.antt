-- ===== src/Arr/Prefixes.antt =====
-- What `resolve_path` makes of a path: the first prefix that fits is exchanged.
use collapsarr.Common.{
  ◌≡◌, refl, false, List, [], ◌∷◌, ◌++◌, Str, starts_with, starts_with-append, length, drop, All,
}
use collapsarr.Arr.Paths.{RemotePathMapping, replace_first, resolve_path}

drop-append : (a b : Str) → drop (length a) (a ++ b) ≡ b
drop-append [] b = refl
drop-append (c ∷ a) b = drop-append a b

append_nil : (a : Str) → a ++ [] ≡ a
append_nil [] = refl
append_nil (c ∷ a) = rw (append_nil a) refl

replace_first_prefix : (old new rest : Str) → replace_first old new (old ++ rest) ≡ new ++ rest
unfolding replace_first starts_with
replace_first_prefix [] new [] = rw (append_nil new) refl
replace_first_prefix [] new (c ∷ rest) = refl
replace_first_prefix (c ∷ old) new rest =
    rw (starts_with-append (c ∷ old) rest) (rw (drop-append old rest) refl)

-- No mapping before the one that is meant has a prefix of the path.
abbrev pub NoneFits : Str → List RemotePathMapping → Type 0
NoneFits path before = All (λ m. starts_with m.remote_prefix path ≡ false) before

-- A path below the remote prefix of a mapping becomes the same path below its local prefix, where no
-- mapping of a lower place in the order has a prefix of the path; the mappings behind it do not matter.
pub resolve_path-first :
    (before after : List RemotePathMapping) (m : RemotePathMapping) (rest : Str)
    → NoneFits (m.remote_prefix ++ rest) before
    → resolve_path (m.remote_prefix ++ rest) (before ++ m ∷ after) ≡ m.local_prefix ++ rest
unfolding resolve_path
resolve_path-first [] after m rest h =
    rw (starts_with-append m.remote_prefix rest)
      (replace_first_prefix m.remote_prefix m.local_prefix rest)
resolve_path-first (b ∷ before) after m rest h =
    rw (h.0) (resolve_path-first before after m rest h.1)

-- A path that no mapping's prefix fits is kept.
pub resolve_path-unmapped :
    (path : Str) (mappings : List RemotePathMapping)
    → NoneFits path mappings
    → resolve_path path mappings ≡ path
unfolding resolve_path
resolve_path-unmapped path [] h = refl
resolve_path-unmapped path (m ∷ ms) h = rw h.0 (resolve_path-unmapped path ms h.1)

-- The mapping that leads back.
abbrev pub reversed : RemotePathMapping → RemotePathMapping
reversed m = record m { remote_prefix = m.local_prefix; local_prefix = m.remote_prefix }

-- The local path of a file, translated by the mapping that fitted it with its two prefixes exchanged,
-- is the reported path again.
pub resolve_path-reversed :
    (before after : List RemotePathMapping) (m : RemotePathMapping) (rest : Str)
    → NoneFits (m.remote_prefix ++ rest) before
    → resolve_path (resolve_path (m.remote_prefix ++ rest) (before ++ m ∷ after)) (reversed m ∷ [])
      ≡ m.remote_prefix ++ rest
resolve_path-reversed before after m rest h =
    rw (resolve_path-first before after m rest h) (resolve_path-first [] [] (reversed m) rest tt)
