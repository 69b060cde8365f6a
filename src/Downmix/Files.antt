-- ===== src/Downmix/Files.antt =====
-- The files that the downmix stages read and write, and Python's rendering of values. A content is a
-- number that is only passed on.
pub mod Disk
use collapsarr.Common.{ℕ, Option, none, some, List, Str, str_eq, if◌then◌else◌}
use collapsarr.Common.Int.{ℤ}
use collapsarr.Common.Float.{Float}
use collapsarr.Common.Result.{Exception, Result, ok, raise}

abbrev pub Files : Type 0
Files = Str → Option ℕ

-- What a stage does: it leaves the files changed, and returns or raises.
abbrev pub Io {ℓ} : Type ℓ → Type ℓ
Io A = Files → Files × Result A

unfoldable pub after_io {ℓ κ} :
    {A : Type ℓ} {B : Type κ} → Files × Result A → (A → Io B) → Files × Result B
after_io (files, ok a) f = f a files
after_io (files, raise e) f = (files, raise e)

infixl 5 ◌>>=◌
abbrev pub ◌>>=◌ {ℓ κ} : {A : Type ℓ} {B : Type κ} → Io A → (A → Io B) → Io B
m >>= f = λ files. after_io (m files) f

abbrev pub return {ℓ} : {A : Type ℓ} → A → Io A
return a = λ files. (files, ok a)

abbrev pub lift {ℓ} : {A : Type ℓ} → Result A → Io A
lift r = λ files. (files, r)

-- `path.unlink()`, where a missing file is passed over.
unfoldable pub remove_if_exists : Str → Files → Files
remove_if_exists path files p = if str_eq path p then none else files p

unfoldable pub write_file : Str → ℕ → Files → Files
write_file path content files p = if str_eq path p then some content else files p

-- `source.rename(target)` on one file system.
unfoldable pub rename_file : Str → Str → Files → Files
rename_file source target files p =
    if str_eq target p then files source else if str_eq source p then none else files p

-- What a subprocess gives back: its return code, its output and its errors, or what `run` raises.
pub data Ran : Type 0 where
  completed : ℤ → Str → Str → Ran
  raised : Exception → Ran

-- `run(command, timeout)`, the timeout in microseconds.
abbrev pub Runner : Type 0
Runner = List Str → ℕ → Files → Files × Ran

-- How values are rendered: `repr` of a text, `str` of an integer, of a timeout (in microseconds) and of
-- an exception, a float with three decimals, and `str.lower`, which needs Unicode's tables.
pub record Format : Type 0 where
  pub repr : Str → Str
  pub int : ℤ → Str
  pub float : ℕ → Str
  pub fixed : Float → Str
  pub message : Exception → Str
  pub lower : Str → Str
