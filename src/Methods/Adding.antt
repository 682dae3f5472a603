-- ===== src/Methods/Adding.antt =====
-- What adding a method changes in a table seen as a map from paths of types.
use gad.Prelude.{
  Bool, false, none, some, List, [], ◌∷◌, ◌++◌, append_assoc, append-nil, arith, ◌≡◌, refl, sym, ap,
  ◌∙◌, if◌then◌else◌, Bool-cases, inl, inr,
}
use gad.Methods.{
  TypeKey, CallerMethod, MethodArgType, same_type, arg_type, own_methods, next, find_type,
}
use gad.Methods.Table.{method_duplication, is_taken, placed, entry_of, add_method}
use gad.Methods.Paths.{
  same_path, same_path→eq, same_type→eq, same_type_refl, methods_at, methods_in,
  find_type-store_type, methods_at-entry_of,
}

module _ {ℓ} {H : Type ℓ} where
  -- Adding a method fails exactly where its path has methods that it may not override.
  pub add_method-error :
      (pth ks : List TypeKey) (m : CallerMethod H) (override : Bool) (at : MethodArgType H)
      → (add_method pth ks m override at).0
        ≡ (if is_taken override (methods_at ks at) then some method_duplication else none)
  unfolding add_method methods_at own_methods next
  add_method-error pth [] m override (arg_type t ms args) =
      elim (Bool-cases (is_taken override ms)) [ inl e ↦ rw e refl | inr e ↦ rw e refl ]
  add_method-error pth (k ∷ ks) m override (arg_type t ms args) =
      add_method-error (pth ++ k ∷ []) ks m override (entry_of k args)
      ∙ ap (λ l. if is_taken override l then some method_duplication else none)
          (methods_at-entry_of k ks args)

  -- What a path holds after a method was added at a path: `rest` is what it held before.
  abbrev pub held :
      List TypeKey
      → List TypeKey
      → CallerMethod H
      → Bool
      → List (CallerMethod H)
      → List (CallerMethod H)
  held pth ks m override old =
      if is_taken override old then old else old ++ placed (pth ++ ks) m old ∷ []

  methods_at-add_self :
      (pth ks : List TypeKey) (m : CallerMethod H) (override : Bool) (at : MethodArgType H)
      → methods_at ks (add_method pth ks m override at).1
        ≡ held pth ks m override (methods_at ks at)
  unfolding add_method methods_at own_methods next
  methods_at-add_self pth [] m override (arg_type t ms args) =
      elim (Bool-cases (is_taken override ms)) [
        | inl e ↦ rw e refl
        | inr e ↦ rw (e, append-nil pth) refl
      ]
  methods_at-add_self pth (k ∷ ks) m override (arg_type t ms args) =
      let cur = entry_of k args in
      let r = add_method (pth ++ k ∷ []) ks m override cur in
      ap (methods_in ks) (find_type-store_type args k r.1 k)
      ∙ ap (λ b. methods_in ks (if b then some r.1 else find_type args k)) (same_type_refl k)
      ∙ rw (append_assoc pth (k ∷ []) ks, methods_at-entry_of k ks args) at
          (methods_at-add_self (pth ++ k ∷ []) ks m override cur)

  methods_at-add_other :
      (pth ks q : List TypeKey) (m : CallerMethod H) (override : Bool) (at : MethodArgType H)
      → same_path ks q ≡ false
      → methods_at q (add_method pth ks m override at).1 ≡ methods_at q at
  unfolding add_method methods_at own_methods next
  methods_at-add_other pth [] [] m override at h = ground arith
  methods_at-add_other pth [] (j ∷ js) m override (arg_type t ms args) h =
      elim (Bool-cases (is_taken override ms)) [ inl e ↦ rw e refl | inr e ↦ rw e refl ]
  methods_at-add_other pth (k ∷ ks) [] m override (arg_type t ms args) h = refl
  methods_at-add_other pth (k ∷ ks) (j ∷ js) m override (arg_type t ms args) h =
      let cur = entry_of k args in
      let r = add_method (pth ++ k ∷ []) ks m override cur in
      ap (methods_in js) (find_type-store_type args k r.1 j) ∙ elim (Bool-cases (same_type k j)) [
        | inl e ↦ rw e (
            methods_at-add_other (pth ++ k ∷ []) ks js m override cur (rw e at h)
            ∙ methods_at-entry_of k js args
            ∙ ap (λ i. methods_in js (find_type args i)) (same_type→eq k j e))
        | inr e ↦ rw e refl
      ]

  -- Adding a method fails exactly where its path has methods and overriding is off, and then no path
  -- of the table changes; else its path gets the method behind its others, with the path as its
  -- types and their number as its index, and the other paths keep theirs.
  pub add_method-eq :
      (ks q : List TypeKey) (m : CallerMethod H) (override : Bool) (at : MethodArgType H)
      → ((add_method [] ks m override at).0
          ≡ (if is_taken override (methods_at ks at) then some method_duplication else none))
        × (methods_at q (add_method [] ks m override at).1 ≡ (
            if same_path ks q then held [] ks m override (methods_at ks at) else methods_at q at))
  add_method-eq ks q m override at = (
    add_method-error [] ks m override at,
    elim (Bool-cases (same_path ks q)) [
      | inl e ↦ rw e (
          ap (λ p. methods_at p (add_method [] ks m override at).1) (sym (same_path→eq ks q e))
          ∙ methods_at-add_self [] ks m override at)
      | inr e ↦ rw e (methods_at-add_other [] ks q m override at e)
    ],
  )
