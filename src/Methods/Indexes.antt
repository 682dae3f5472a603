-- ===== src/Methods/Indexes.antt =====
-- The methods of a table carry the path and the place at which they stand.
use gad.Prelude.{
  ℕ, Bool, Option, none, some, List, [], ◌∷◌, ◌≡◌, refl, sym, Bool-cases, inl, inr, get_elem?,
  get_elem?-append_split,
}
use gad.Methods.{TypeKey, CallerMethod, MethodArgType}
use gad.Methods.Signature.{and_then}
use gad.Methods.Product.{choices, call_each, walk_node-tree}
use gad.Methods.Table.{is_taken, placed, add_method, add_types}
use gad.Methods.Paths.{same_path, same_path→eq, methods_at}
use gad.Methods.Adding.{held, add_method-eq}

and_then-keeps {ℓ κ μ} :
    {S : Type ℓ} {E : Type κ} (P : S → Type μ) (r : Option E × S) (go : S → Option E × S)
    → P r.1
    → ((s : S) → P s → P (go s).1)
    → P (and_then r go).1
and_then-keeps P (none, s) go k h = h s k
and_then-keeps P (some e, s) go k h = k

-- What each call of the callback keeps, the whole walk keeps.
pub call_each-keeps {ℓ κ μ} :
    {S : Type ℓ} {E : Type κ} (cb : List TypeKey → S → Option E × S) (P : S → Type μ)
    → ((p : List TypeKey) (s : S) → P s → P (cb p s).1)
    → (ps : List (List TypeKey)) (s : S) → P s
    → P (call_each cb [] ps s).1
unfolding call_each
call_each-keeps cb P h [] s k = k
call_each-keeps cb P h (p ∷ ps) s k =
    and_then-keeps P (cb p s) (call_each cb [] ps) (h p s k) (call_each-keeps cb P h ps)

module _ {ℓ} {H : Type ℓ} where
  abbrev pub IsIndexedAt : List TypeKey → List (CallerMethod H) → Type ℓ
  IsIndexedAt q ms =
      (i : ℕ) (m : CallerMethod H) → get_elem? ms i ≡ some m → (m.index ≡ i) × (m.types ≡ q)

  unfoldable pub IsIndexed : MethodArgType H → Type ℓ
  IsIndexed at = (q : List TypeKey) → IsIndexedAt q (methods_at q at)

  held-IsIndexedAt :
      (ks : List TypeKey) (m : CallerMethod H) (override : Bool) (old : List (CallerMethod H))
      → IsIndexedAt ks old
      → IsIndexedAt ks (held [] ks m override old)
  unfolding placed
  held-IsIndexedAt ks m override old h i n e = elim (Bool-cases (is_taken override old)) [
    | inl t ↦ h i n (rw t at e)
    | inr t ↦ elim (get_elem?-append_split old (placed ks m old) i n (rw t at e)) [
      | inl d ↦ h i n d
      | inr (d, k) ↦ (rw (← k) (sym d), rw (← k) refl)
    ]
  ]

  add_method-IsIndexed :
      (ks : List TypeKey) (m : CallerMethod H) (override : Bool) (at : MethodArgType H)
      → IsIndexed at
      → IsIndexed (add_method [] ks m override at).1
  unfolding IsIndexed
  add_method-IsIndexed ks m override at h q = elim (Bool-cases (same_path ks q)) [
    | inl e ↦
        rw ((add_method-eq ks q m override at).1, e, ← same_path→eq ks q e)
          (held-IsIndexedAt ks m override (methods_at ks at) (h ks))
    | inr e ↦ rw ((add_method-eq ks q m override at).1, e) (h q)
  ]

  -- Adding a method for a signature keeps this: at each path of types, each method has the path as
  -- its types and its place as its index.
  pub add_types-IsIndexed :
      (types : List (List ℕ)) (m : CallerMethod H) (override : Bool) (at : MethodArgType H)
      → IsIndexed at
      → IsIndexed (add_types types m override at).1
  unfolding add_types
  add_types-IsIndexed types m override at h =
      rw (walk_node-tree (λ path. add_method [] path m override) types at) (
        call_each-keeps (λ path. add_method [] path m override) IsIndexed
          (λ p s. add_method-IsIndexed p m override s) (choices types) at h)
