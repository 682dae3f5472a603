-- ===== src/Methods/Whole.antt =====
-- Adding a method for a signature: each choice of types gets it, or the rest of them is left.
use gad.Prelude.{
  ℕ, Bool, false, Option, none, some, List, [], ◌∷◌, ◌++◌, ◌≡◌, refl, ap, Bool-cases, inl, inr, All,
  arith, ◌⊎◌,
}
use gad.Methods.{TypeKey, CallerMethod, MethodArgType}
use gad.Methods.Signature.{and_then}
use gad.Methods.Product.{choices, call_each, walk_node-tree}
use gad.Methods.Table.{is_taken, placed, add_method, add_types, last_method, get_method, or_else}
use gad.Methods.Paths.{same_path, same_path_refl, same_path→eq, methods_at}
use gad.Methods.Adding.{held, add_method-eq}
use gad.Methods.Indexes.{call_each-keeps}
use gad.Methods.Wildcard.{get_method-exact}

-- A walk that returns nil has left at each path what the call for the path made, if no later call
-- undoes it.
call_each-All {ℓ κ μ} :
    {S : Type ℓ} {E : Type κ} (cb : List TypeKey → S → Option E × S) (Q : List TypeKey → S → Type μ)
    → ((p : List TypeKey) (s : S) → (cb p s).0 ≡ none → Q p (cb p s).1)
    → ((q p : List TypeKey) (s : S) → Q q s → Q q (cb p s).1)
    → (ps : List (List TypeKey)) (s : S) → (call_each cb [] ps s).0 ≡ none
    → All (λ p. Q p (call_each cb [] ps s).1) ps
unfolding call_each
call_each-All cb Q make keep [] s h = tt
call_each-All cb Q make keep (p ∷ ps) s h =
    go (cb p s) (make p s) (λ t. call_each-keeps cb (Q p) (keep p) ps t)
      (λ t. call_each-All cb Q make keep ps t) h
  where
    go :
        (r : Option _ × _)
        → (r.0 ≡ none → Q p r.1)
        → ((t : _) → Q p t → Q p (call_each cb [] ps t).1)
        → ((t : _) → (call_each cb [] ps t).0 ≡ none → All (λ q. Q q (call_each cb [] ps t).1) ps)
        → (and_then r (call_each cb [] ps)).0 ≡ none
        → Q p (and_then r (call_each cb [] ps)).1
          × All (λ q. Q q (and_then r (call_each cb [] ps)).1) ps
    go (none, t) made kept rest e = (kept t (made refl), rest t e)
    go (some x, t) made kept rest e = ground arith

pub All-map {κ μ ν} :
    {A : Type κ} {P : A → Type μ} {Q : A → Type ν} (f : (x : A) → P x → Q x) (xs : List A)
    → All P xs
    → All Q xs
All-map f [] h = tt
All-map f (x ∷ xs) (h, hs) = (f x h, All-map f xs hs)

module _ {ℓ} {H : Type ℓ} where
  last_method-append :
      (ms : List (CallerMethod H)) (m : CallerMethod H) → last_method (ms ++ m ∷ []) ≡ some m
  unfolding last_method
  last_method-append [] m = refl
  last_method-append (n ∷ ms) m = ap (λ o. or_else o (some n)) (last_method-append ms m)

  -- The last method of a list has the handler.
  unfoldable pub IsLast : H → List (CallerMethod H) → Type ℓ
  IsLast c ms = (m : CallerMethod H) × (last_method ms ≡ some m) × (m.caller_object ≡ c)

  held-IsLast :
      (m : CallerMethod H) (override : Bool) (p : List TypeKey) (old : List (CallerMethod H))
      → (is_taken override old ≡ false) ⊎ IsLast m.caller_object old
      → IsLast m.caller_object (held [] p m override old)
  unfolding IsLast placed
  held-IsLast m override p old h = elim (Bool-cases (is_taken override old)) [
    | inl t ↦ rw t (elim h [ inl e ↦ ground (arith, rw t at e) | inr last ↦ last ])
    | inr t ↦ rw t (placed p m old, last_method-append old (placed p m old), refl)
  ]

  add_method-IsLast :
      (m : CallerMethod H) (override : Bool) (p : List TypeKey) (at : MethodArgType H)
      → (add_method [] p m override at).0 ≡ none
      → IsLast m.caller_object (methods_at p (add_method [] p m override at).1)
  add_method-IsLast m override p at h =
      let (error, after) = add_method-eq p p m override at in
      rw (after, same_path_refl p)
        (held-IsLast m override p (methods_at p at) (inl (ground (arith, error, h))))

  add_method-keeps_IsLast :
      (m : CallerMethod H) (override : Bool) (q p : List TypeKey) (at : MethodArgType H)
      → IsLast m.caller_object (methods_at q at)
      → IsLast m.caller_object (methods_at q (add_method [] p m override at).1)
  add_method-keeps_IsLast m override q p at h = elim (Bool-cases (same_path p q)) [
    | inl e ↦
        rw ((add_method-eq p q m override at).1, e)
          (held-IsLast m override p (methods_at p at) (inr (rw (← same_path→eq p q e) at h)))
    | inr e ↦ rw ((add_method-eq p q m override at).1, e) h
  ]

  IsLast-get_method :
      (c : H) (ks : List TypeKey) (at : MethodArgType H)
      → IsLast c (methods_at ks at)
      → (m : CallerMethod H) × (get_method at ks ≡ some m) × (m.caller_object ≡ c)
  unfolding IsLast
  IsLast-get_method c ks at (m, last, own) = (m, get_method-exact ks at m last, own)

  -- Once adding a method for a signature has succeeded, a lookup with any choice of types of the
  -- signature finds a method with its handler.
  pub add_types-get_method :
      (types : List (List ℕ)) (m : CallerMethod H) (override : Bool) (at : MethodArgType H)
      → (add_types types m override at).0 ≡ none
      → All
          (λ ks.
            (n : CallerMethod H) × (get_method (add_types types m override at).1 ks ≡ some n)
            × (n.caller_object ≡ m.caller_object))
          (choices types)
  unfolding add_types
  add_types-get_method types m override at h =
      let cb = λ (path : List TypeKey) (s : MethodArgType H). add_method [] path m override s in
      let walked = walk_node-tree cb types at in
      rw walked (
        All-map (λ ks. IsLast-get_method m.caller_object ks (call_each cb [] (choices types) at).1)
          (choices types)
          (call_each-All cb (λ p s. IsLast m.caller_object (methods_at p s))
            (add_method-IsLast m override) (add_method-keeps_IsLast m override) (choices types) at
            (rw walked at h)))
