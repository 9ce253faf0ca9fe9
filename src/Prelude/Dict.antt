-- ===== src/Prelude/Dict.antt =====
-- Python's `dict` with text keys, as the list of its items in insertion order.
use Prim.Native.String.{String}
use mathlib.Core.Path.{◌≡◌, refl}
use mathlib.Core.Option.{Option, none, some}
use mathlib.Core.List.{List, [], ◌∷◌}
use native.Mathlib.Omega.{arith}
use text.Mathlib.Text.{◌==◌ as str_eq}
use text.Mathlib.TextEquality.{eq_iff}
use package.viswall.Prelude.Tests.{if◌then◌else◌}

abbrev pub Dict {ℓ} : Type ℓ → Type ℓ
Dict V = List (String × V)

module _ {ℓ} {V : Type ℓ} where
  -- `d.get(k)`
  unfoldable pub get : Dict V → String → Option V
  get [] k = none
  get ((j, v) ∷ d) k = if str_eq j k then some v else get d k

  -- `d.get(k, default)`
  unfoldable pub get_or : Dict V → String → V → V
  get_or [] k v = v
  get_or ((j, w) ∷ d) k v = if str_eq j k then w else get_or d k v

  -- `d[k] = v`: an existing key keeps its place.
  unfoldable pub put : Dict V → String → V → Dict V
  put [] k v = (k, v) ∷ []
  put ((j, w) ∷ d) k v = if str_eq j k then (j, v) ∷ d else (j, w) ∷ put d k v

  pub get-put :
      (key : String) (value : V) (asked : String) (d : Dict V)
      → get (put d key value) asked ≡ (if str_eq key asked then some value else get d asked)
  unfolding get put
  get-put key value asked [] = refl
  get-put key value asked ((i, w) ∷ d) =
      ground (arith, eq_iff key asked, eq_iff i key, eq_iff i asked, get-put key value asked d)
