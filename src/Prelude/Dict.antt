-- ===== src/Prelude/Dict.antt =====
-- Go's `map[string]V`. The order of entries is not observable but by a `range` loop, which the
-- modules that use a map do not model. A missing key reads as `none`.
use text.Mathlib.Text.{◌==◌ as str_eq}
use text.Mathlib.TextEquality.{eq_iff}
use gad.Prelude.{String, ◌≡◌, ◌≢◌, ◌⊎◌, Option, none, some, List, [], ◌∷◌, arith, if◌then◌else◌}

module _ {ℓ} {V : Type ℓ} where
  unfoldable pub get : List (String × V) → String → Option V
  get [] k = none
  get ((j, v) ∷ m) k = if str_eq j k then some v else get m k

  unfoldable pub put : List (String × V) → String → V → List (String × V)
  put [] k v = (k, v) ∷ []
  put ((j, w) ∷ m) k v = if str_eq j k then (k, v) ∷ m else (j, w) ∷ put m k v

  pub get-put :
      (m : List (String × V)) (k : String) (v : V) (j : String)
      → get (put m k v) j ≡ (if str_eq k j then some v else get m j)
  unfolding get put
  get-put [] k v j = ground arith
  get-put ((i, w) ∷ m) k v j = ground (arith, eq_iff k j, eq_iff i k, eq_iff i j, get-put m k v j)

  -- Where an entry of an updated map comes from.
  pub get-put_cases :
      (m : List (String × V)) (k : String) (v : V) (j : String) (w : V)
      → get (put m k v) j ≡ some w
      → ((j ≡ k) × (w ≡ v)) ⊎ (get m j ≡ some w)
  get-put_cases m k v j w e = ground (arith, get-put m k v j, eq_iff k j)

  pub get-put_self : (m : List (String × V)) (k : String) (v : V) → get (put m k v) k ≡ some v
  get-put_self m k v = ground (arith, get-put m k v k, eq_iff k k)

  pub get-put_ne :
      (m : List (String × V)) (k : String) (v : V) (j : String)
      → k ≢ j
      → get (put m k v) j ≡ get m j
  get-put_ne m k v j h = ground (arith, get-put m k v j, eq_iff k j)
