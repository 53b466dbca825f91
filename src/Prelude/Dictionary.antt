-- ===== src/Prelude/Dictionary.antt =====
-- A JavaScript object used as a dictionary: string keys in insertion order. Keys that JavaScript
-- would order as array indices are not treated apart.
use Prim.Native.String.{String}
use mathlib.Core.Path.{◌≡◌, refl}
use mathlib.Core.Option.{Option, none, some}
use mathlib.Core.List.{List, [], ◌∷◌, ◌++◌, map, map-append}
use native.Mathlib.Omega.{arith}
use text.Mathlib.Text.{◌==◌}
use text.Mathlib.TextEquality.{eq_iff}
use text.Mathlib.TextPositions.{eq_refl}
use fabric_es.Prelude.Tests.{if◌then◌else◌}

abbrev pub Dict {ℓ} : Type ℓ → Type ℓ
Dict V = List (String × V)

module _ {ℓ} {V : Type ℓ} where
  -- d[k]
  unfoldable pub lookup : String → Dict V → Option V
  lookup k [] = none
  lookup k ((j, v) ∷ d) = if j == k then some v else lookup k d

  -- d[k] = v
  unfoldable pub assign : String → V → Dict V → Dict V
  assign k v [] = (k, v) ∷ []
  assign k v ((j, w) ∷ d) = let rest = assign k v d in if j == k then (j, v) ∷ d else (j, w) ∷ rest

  -- Object.values(d)
  abbrev pub values : Dict V → List V
  values = map (λ (e : String × V). e.1)

  pub values-append : (d e : Dict V) → values (d ++ e) ≡ values d ++ values e
  values-append d e = map-append _ d e

  pub lookup-assign :
      (k j : String) (v : V) (d : Dict V)
      → lookup j (assign k v d) ≡ (if k == j then some v else lookup j d)
  unfolding lookup assign
  lookup-assign k j v [] = refl
  lookup-assign k j v ((i, w) ∷ d) =
      ground (arith, eq_iff k j, eq_iff i k, eq_iff i j, lookup-assign k j v d)

  pub lookup-assign_self : (k : String) (v : V) (d : Dict V) → lookup k (assign k v d) ≡ some v
  lookup-assign_self k v d = simp (lookup-assign, eq_refl)

  -- A new key comes last.
  pub assign-new :
      (k : String) (v : V) (d : Dict V) → lookup k d ≡ none → assign k v d ≡ d ++ (k, v) ∷ []
  unfolding lookup assign
  assign-new k v [] h = refl
  assign-new k v ((i, w) ∷ d) h = ground (arith, assign-new k v d)
