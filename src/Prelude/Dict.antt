-- ===== src/Prelude/Dict.antt =====
-- A Python dictionary with text keys, as an association list in insertion order.
use Prim.Native.String.{String}
use text.Mathlib.Text.{◌==◌}
use text.Mathlib.TextEquality.{eq_iff}
use mathlib.Core.Path.{◌≡◌, refl}
use mathlib.Core.Bool.{Bool, true, false, ◌||◌}
use mathlib.Core.Option.{Option, none, some}
use mathlib.Core.List.{List, [], ◌∷◌}
use native.Mathlib.Omega.{arith}
use nbfc_compliance_agent.Prelude.Tests.{if◌then◌else◌}

abbrev pub Dict {ℓ} : Type ℓ → Type ℓ
Dict V = List (String × V)

unfoldable pub is_some {ℓ} : {A : Type ℓ} → Option A → Bool
is_some none = false
is_some (some a) = true

module _ {ℓ} {V : Type ℓ} where
  -- `d.get(k)`
  unfoldable pub get : Dict V → String → Option V
  get [] k = none
  get ((j, v) ∷ d) k = if j == k then some v else get d k

  -- `d.get(k, default)`
  unfoldable pub get_or : Dict V → String → V → V
  get_or [] k e = e
  get_or ((j, v) ∷ d) k e = if j == k then v else get_or d k e

  -- `d[k] = v`: an old key keeps its place.
  unfoldable pub set : Dict V → String → V → Dict V
  set [] k v = (k, v) ∷ []
  set ((j, w) ∷ d) k v = if j == k then (j, v) ∷ d else (j, w) ∷ set d k v

  pub get-set :
      (d : Dict V) (k j : String) (v : V) → get (set d k v) j ≡ (if k == j then some v else get d j)
  unfolding get set
  get-set [] k j v = refl
  get-set ((i, w) ∷ d) k j v = ground (arith, eq_iff i k, eq_iff k j, eq_iff i j, get-set d k j v)

  -- A dictionary comprehension over pairs: each is assigned in turn.
  unfoldable pub assign_all : List (String × V) → Dict V → Dict V
  assign_all [] d = d
  assign_all ((k, v) ∷ ps) d = assign_all ps (set d k v)

  -- The key is one of the pairs'.
  unfoldable pub has_key : List (String × V) → String → Bool
  has_key [] k = false
  has_key ((j, v) ∷ ps) k = j == k || has_key ps k

  pub has_key-assign_all :
      (ps : List (String × V)) (d : Dict V) (k : String)
      → (has_key ps k || is_some (get d k)) ≡ is_some (get (assign_all ps d) k)
  unfolding assign_all has_key is_some
  has_key-assign_all [] d k = refl
  has_key-assign_all ((j, v) ∷ ps) d k =
      ground (arith, has_key-assign_all ps (set d j v) k, get-set d j k v)
