-- ===== src/Methods/Picks.antt =====
-- Types for the parameters of a signature, and the paths that the walk over its tree visits.
use mathlib.Core.Path.{subst}
use gad.Prelude.{ℕ, some, List, [], ◌∷◌, ◌++◌, map, ◌≡◌, ◌⊎◌, inl, inr, sym, All}
use gad.Methods.{TypeKey}
use gad.Methods.Product.{slot, each, choices}

unfoldable pub IsOne : ℕ → List ℕ → Type 0
IsOne k [] = ⊥
IsOne k (t ∷ ts) = (k ≡ t) ⊎ IsOne k ts

-- One of the types that it names for each parameter.
unfoldable pub Picks : List (List ℕ) → List ℕ → Type 0
unfolding IsOne
Picks [] [] = Unit
Picks (o ∷ os) (k ∷ ks) = IsOne k o × Picks os ks
Picks _ _ = ⊥

module _ {ℓ κ} {A : Type ℓ} (P : A → Type κ) where
  All-left : (xs ys : List A) → All P (xs ++ ys) → All P xs
  All-left [] ys h = tt
  All-left (x ∷ xs) ys h = (h.0, All-left xs ys h.1)

  All-right : (xs ys : List A) → All P (xs ++ ys) → All P ys
  All-right [] ys h = h
  All-right (x ∷ xs) ys h = All-right xs ys h.1

All-one {ℓ} :
    (P : List TypeKey → Type ℓ) (k : ℕ) (o : List ℕ) (f : TypeKey → List (List TypeKey))
    → IsOne k o
    → All P (each f (map some o))
    → All P (f (some k))
unfolding IsOne
All-one P k [] f one h = absurd one
All-one P k (t ∷ ts) f (inl e) h =
    subst (λ j. All P (f (some j))) (sym e) (All-left P (f (some t)) (each f (map some ts)) h)
All-one P k (t ∷ ts) f (inr one) h =
    All-one P k ts f one (All-right P (f (some t)) (each f (map some ts)) h)

All-behind {ℓ} :
    (P : List TypeKey → Type ℓ) (k : TypeKey) (paths : List (List TypeKey))
    → All P (map (◌∷◌ k) paths)
    → All (λ path. P (k ∷ path)) paths
All-behind P k [] h = tt
All-behind P k (path ∷ paths) h = (h.0, All-behind P k paths h.1)

-- What holds of all paths that the walk visits holds of the types that were picked.
pub All-Picks {ℓ} :
    (P : List TypeKey → Type ℓ) (types : List (List ℕ)) (ks : List ℕ)
    → Picks types ks
    → All P (choices types)
    → P (map some ks)
unfolding Picks IsOne choices slot
All-Picks P [] [] picks h = h.0
All-Picks P [] (k ∷ ks) picks h = absurd picks
All-Picks P (o ∷ os) [] picks h = absurd picks
All-Picks P ([] ∷ os) (k ∷ ks) picks h = absurd picks.0
All-Picks P ((t ∷ ts) ∷ os) (k ∷ ks) picks h =
    All-Picks (λ path. P (some k ∷ path)) os ks picks.1
      (All-behind P (some k) (choices os)
        (All-one P k (t ∷ ts) (λ j. map (◌∷◌ j) (choices os)) picks.0 h))
