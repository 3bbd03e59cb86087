-- ===== src/Base/Maps.antt =====
-- Go maps with text keys, as functions: a missing key gives `none`, and the order in which Go
-- ranges over a map cannot be observed.
use Prim.Native.String.{String}
use mathlib.Core.Option.{Option, none, some}
use immich_go_backend.Base.Tests.{◌=ₛ◌, if◌then◌else◌}

abbrev pub Map {ℓ} : Type ℓ → Type ℓ
Map V = String → Option V

module _ {ℓ} {V : Type ℓ} where
  abbrev pub empty : Map V
  empty k = none

  -- `m[k] = v`
  abbrev pub put : Map V → String → V → Map V
  put m k v j = if j =ₛ k then some v else m j

  -- `delete(m, k)`
  abbrev pub remove : Map V → String → Map V
  remove m k j = if j =ₛ k then none else m j
