-- ===== src/Base/Dict.antt =====
-- A `dict` with text keys that is never iterated over: pairs, the newest first.
use mathlib.Core.List.{List, [], ◌∷◌}
use mathlib.Core.Logic.{ite}
use mathlib.Core.Option.{Option, none, some}
use mathlib.Core.Path.{◌≡◌, refl}
use sd_practice_qr_code_gene.Base.Text.{Text, text_dec}

pub record Dict {ℓ} (V : Type ℓ) : Type ℓ where
  pub entries : List (Text × V)

lookup {ℓ} : {V : Type ℓ} → Text → List (Text × V) → Option V
lookup k [] = none
lookup k ((j, v) ∷ m) = ite (text_dec j k) (some v) (lookup k m)

module _ {ℓ} {V : Type ℓ} where
  abbrev pub empty : Dict V
  empty = record { entries = [] }

  -- `d.get(k)`
  unfoldable pub get : Dict V → Text → Option V
  unfolding lookup
  get d k = lookup k d.entries

  -- `d[k] = v`
  unfoldable pub put : Dict V → Text → V → Dict V
  put d k v = record { entries = (k, v) ∷ d.entries }

  pub get-put :
      (d : Dict V) (k j : Text) (v : V) → get (put d k v) j ≡ ite (text_dec k j) (some v) (get d j)
  unfolding get put
  get-put d k j v = refl

  pub get-empty : (j : Text) → get empty j ≡ none
  unfolding get lookup
  get-empty j = refl
