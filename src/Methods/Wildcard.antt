-- ===== src/Methods/Wildcard.antt =====
-- What a lookup finds: a method whose types fit those of the arguments, and the exact one if there is
-- one.
use gad.Prelude.{
  ℕ, suc, Option, none, some, List, [], ◌∷◌, ◌≡◌, refl, sym, ap, ◌∙◌, ◌⊎◌, inl, inr, Option-cases,
  get_elem?, arith,
}
use mathlib.Core.Path.{subst}
use gad.Methods.{TypeKey, CallerMethod, MethodArgType, Methods, next, find_type}
use gad.Methods.Table.{last_method, pick, get_loop, get_method, or_else}
use gad.Methods.Paths.{methods_at, methods_in}
use gad.Methods.Indexes.{IsIndexed}

-- A signature fits the types of the arguments: as many, and each the nil type or the same.
unfoldable pub Fits : List TypeKey → List TypeKey → Type 0
Fits [] [] = Unit
Fits [] (t ∷ ts) = ⊥
Fits (k ∷ ks) [] = ⊥
Fits (k ∷ ks) (t ∷ ts) = ((k ≡ none) ⊎ (k ≡ t)) × Fits ks ts

module _ {ℓ} {H : Type ℓ} where
  get_loop-some :
      (at : MethodArgType H) (ks : List TypeKey)
      → get_loop (some at) (next at) ks ≡ get_method at ks
  unfolding get_loop get_method
  get_loop-some at [] = refl
  get_loop-some at (k ∷ ks) = refl

  abbrev get_in : List TypeKey → Option (MethodArgType H) → Option (CallerMethod H)
  get_in ks none = none
  get_in ks (some found) = get_method found ks

  abbrev go_on : List TypeKey → Option (MethodArgType H) → Option (CallerMethod H)
  go_on ks none = none
  go_on ks (some found) = get_loop (some found) (next found) ks

  go_on-get_in : (ks : List TypeKey) (o : Option (MethodArgType H)) → go_on ks o ≡ get_in ks o
  go_on-get_in ks none = refl
  go_on-get_in ks (some found) = get_loop-some found ks

  get_method-cons :
      (at : MethodArgType H) (k : TypeKey) (ks : List TypeKey)
      → get_method at (k ∷ ks) ≡ get_in ks (pick (next at) k)
  unfolding get_method get_loop
  get_method-cons at k ks = go_on-get_in ks (pick (next at) k)

  -- `pick` takes the entry of the type, or that of the nil type.
  pick-cases :
      (args : Methods H) (k : TypeKey)
      → (j : TypeKey) × ((j ≡ none) ⊎ (j ≡ k)) × (pick args k ≡ find_type args j)
  unfolding pick
  pick-cases args k = elim (Option-cases (find_type args k)) [
    | inl e ↦ (none, inl refl, ap (λ o. or_else o (find_type args none)) e)
    | inr (at, e) ↦ (k, inr refl, ap (λ o. or_else o (find_type args none)) e ∙ sym e)
  ]

  pick-some :
      (args : Methods H) (k : TypeKey) (at : MethodArgType H)
      → find_type args k ≡ some at
      → pick args k ≡ some at
  unfolding pick
  pick-some args k at e = ap (λ o. or_else o (find_type args none)) e

  get_method-path :
      (ts : List TypeKey) (at : MethodArgType H) (m : CallerMethod H)
      → get_method at ts ≡ some m
      → (q : List TypeKey) × Fits q ts × (last_method (methods_at q at) ≡ some m)
  unfolding Fits methods_at get_method
  get_method-path [] at m h = ([], tt, h)
  get_method-path (t ∷ ts) at m h =
      let (j, fit, p) = pick-cases (next at) t in
      let found = sym (ap (get_in ts) p) ∙ sym (get_method-cons at t ts) ∙ h in
      elim (Option-cases (find_type (next at) j)) [
        | inl e ↦ ground (arith, rw e at found)
        | inr (next_at, e) ↦
            let (q, fits, last) = get_method-path ts next_at m (rw e at found) in
            (j ∷ q, (fit, fits), ap last_method (ap (methods_in q) e) ∙ last)
      ]

  last_method-elem :
      (ms : List (CallerMethod H)) (m : CallerMethod H)
      → last_method ms ≡ some m
      → (i : ℕ) × (get_elem? ms i ≡ some m)
  unfolding last_method
  last_method-elem [] m h = ground arith
  last_method-elem (n ∷ ms) m h = elim (Option-cases (last_method ms)) [
    | inl e ↦ (0, rw e at h)
    | inr (l, e) ↦ let (i, k) = last_method-elem ms l e in (suc i, k ∙ rw e at h)
  ]

  -- The method that a lookup in a table finds stands for a signature that fits the types that were
  -- looked up, if each method of the table has the path at which it stands as its types; it is the
  -- last one of its path.
  pub get_method-Fits :
      (at : MethodArgType H) (ts : List TypeKey) (m : CallerMethod H)
      → IsIndexed at
      → get_method at ts ≡ some m
      → Fits m.types ts × (last_method (methods_at m.types at) ≡ some m)
  unfolding IsIndexed
  get_method-Fits at ts m h e =
      let (q, fits, last) = get_method-path ts at m e in
      let (i, k) = last_method-elem (methods_at q at) m last in
      let own = sym (h q i m k).1 in
      (subst (λ p. Fits p ts) own fits, ap (λ p. last_method (methods_at p at)) (sym own) ∙ last)

  -- Where a method is stored for the very types that are looked up, the lookup finds it, and the last
  -- one if there are several.
  pub get_method-exact :
      (ts : List TypeKey) (at : MethodArgType H) (m : CallerMethod H)
      → last_method (methods_at ts at) ≡ some m
      → get_method at ts ≡ some m
  unfolding methods_at get_method last_method
  get_method-exact [] at m h = h
  get_method-exact (t ∷ ts) at m h = elim (Option-cases (find_type (next at) t)) [
    | inl e ↦ ground (arith, ap last_method (ap (methods_in ts) e))
    | inr (found, e) ↦
        get_method-cons at t ts
        ∙ ap (get_in ts) (pick-some (next at) t found e)
        ∙ get_method-exact ts found m (sym (ap last_method (ap (methods_in ts) e)) ∙ h)
  ]
