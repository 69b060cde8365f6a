-- ===== src/Downmix/Pipeline/Total.antt =====
-- The pipeline returns a result, but for what escapes the handlers of the probes.
use collapsarr.Common.{◌≡◌, ◌⊎◌, false, Str}
use collapsarr.Common.Result.{Exception, Result, ok}
use collapsarr.Downmix.Files.{Files}
use collapsarr.Downmix.Probe.Errors.{IsProbes, Escapes, RaisesHandled}
use collapsarr.Downmix.Remux.{RemuxResult}
use collapsarr.Downmix.Remux.Run.{Mkstemp, remuxed}
use collapsarr.Downmix.Pipeline.{Options, World}

-- `mkstemp` always creates a file.
abbrev pub Creates : Mkstemp → Type 0
Creates mkstemp = (path : Str) (files : Files) → (temp : Str) × (mkstemp path files ≡ ok temp)

-- A remux that failed, or one that leaves a temp file.
abbrev IsFinished : RemuxResult → Type 0
IsFinished r = (r.success ≡ false) ⊎ ((temp : Str) × (stderr : Str) × (r ≡ remuxed temp stderr))

module _ (world : World) (options : Options) (path : Str)
    (handled : RaisesHandled world.runner) where
  -- Only what escapes the handlers of the probes.
  abbrev Unhandled : Exception → Type 0
  Unhandled = Escapes world.parsers

  abbrev Probes : Exception → Type 0
  Probes = IsProbes world.parsers
