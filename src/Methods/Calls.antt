-- ===== src/Methods/Calls.antt =====
-- Which handler a call of an object with methods gets.
use gad.Prelude.{
  ℕ, Bool, true, false, Option, none, some, List, [], ◌∷◌, ◌++◌, map, ◌≡◌, refl, sym, ap, ◌∙◌, ◌⊎◌,
  inl, inr, append_assoc, append-nil, Option-cases, Bool-cases, All, arith,
}
use gad.Prelude.Result.{Result, ok, err}
use gad.Args.{Args}
use gad.Args.Flat.{flatten}
use gad.Methods.{TypeKey, CallerMethod, MethodArgType, own_methods, next, find_type}
use gad.Methods.Product.{choices}
use gad.Methods.Table.{MethodError, get_method}
use gad.Methods.Paths.{methods_at}
use gad.Methods.Indexes.{IsIndexed, add_types-IsIndexed}
use gad.Methods.Wildcard.{Fits, get_method-Fits}
use gad.Methods.Whole.{All-map, add_types-get_method}
use gad.Methods.Picks.{Picks, All-Picks}
use gad.Methods.Caller.{
  Callable, CallerObjectWithMethods, new_caller, method_of, add_go_methods, register_default,
  register_first, as_registered, register_by, add_after, AddError, as_error, chosen, add_handler,
  add_caller_method, validates, caller_of_types, caller_of, collect_row, collect_types,
}

pub new_caller-IsIndexed {ℓ} : {H : Type ℓ} (c : H) → IsIndexed (new_caller c).methods
unfolding new_caller IsIndexed methods_at own_methods next find_type
new_caller-IsIndexed c [] i m h = ground arith
new_caller-IsIndexed c (k ∷ q) i m h = ground arith

add_go_methods-IsIndexed {ℓ} :
    {H : Type ℓ} (ms : List (List (List ℕ) × H)) (at : MethodArgType H)
    → IsIndexed at
    → IsIndexed (add_go_methods ms at)
unfolding add_go_methods
add_go_methods-IsIndexed [] at h = h
add_go_methods-IsIndexed ((types, c) ∷ ms) at h =
    add_go_methods-IsIndexed ms _ (add_types-IsIndexed types (method_of false c) true at h)

module _ {κ} {A : Type κ} (type_of : A → TypeKey) where
  collect_row-eq :
      (types : List TypeKey) (row : List A)
      → collect_row type_of types row ≡ types ++ map type_of row
  unfolding collect_row
  collect_row-eq types [] = sym (append-nil types)
  collect_row-eq types (arg ∷ row) =
      collect_row-eq (types ++ type_of arg ∷ []) row
      ∙ append_assoc types (type_of arg ∷ []) (map type_of row)

  map-append : (xs ys : List A) → map type_of (xs ++ ys) ≡ map type_of xs ++ map type_of ys
  map-append [] ys = refl
  map-append (x ∷ xs) ys = ap (◌∷◌ (type_of x)) (map-append xs ys)

  pub collect_types-eq :
      (types : List TypeKey) (rows : List (List A))
      → collect_types type_of types rows ≡ types ++ map type_of (flatten rows)
  unfolding collect_types
  collect_types-eq types [] = sym (append-nil types)
  collect_types-eq types (row ∷ rows) =
      collect_types-eq (collect_row type_of types row) rows
      ∙ rw (collect_row-eq types row, map-append row (flatten rows))
          (append_assoc types (map type_of row) (map type_of (flatten rows)))

module _ {ℓ} {H : Type ℓ} {E : Type 0} (callable : Callable H E) where
  -- The states of an object with methods, from a new one on.
  pub data Reach (c : H) : CallerObjectWithMethods H → Type ℓ where
    created : Reach c (new_caller c)
    defaulted :
        {o : CallerObjectWithMethods H} (types : List (List ℕ))
        → Reach c o
        → Reach c (register_default callable types o)
    added :
        {o : CallerObjectWithMethods H} (types : List (List ℕ)) (handler : H) (override : Bool)
        → Reach c o
        → Reach c (add_caller_method callable types handler override o).1

  Inv : H → CallerObjectWithMethods H → Type ℓ
  Inv c o = IsIndexed o.methods × (o.caller_object ≡ c)

  register_default-Inv :
      (c : H) (types : List (List ℕ)) (o : CallerObjectWithMethods H)
      → Inv c o
      → Inv c (register_default callable types o)
  unfolding Inv register_default
  register_default-Inv c types o (h, e) =
      (add_go_methods-IsIndexed _ _ (add_types-IsIndexed types _ false o.methods h), e)

  register_by-Inv :
      (c : H) (r : Option (Result E (List (List ℕ)))) (o : CallerObjectWithMethods H)
      → Inv c o
      → Inv c (register_by callable r o).1
  unfolding register_by
  register_by-Inv c none o h = h
  register_by-Inv c (some (err e)) o h = h
  register_by-Inv c (some (ok types)) o h = register_default-Inv c types o h

  as_registered-Inv :
      (c : H) (o : CallerObjectWithMethods H) → Inv c o → Inv c (as_registered callable o)
  unfolding Inv as_registered
  as_registered-Inv c o h = h

  register_first-Inv :
      (c : H) (o : CallerObjectWithMethods H) → Inv c o → Inv c (register_first callable o).1
  unfolding register_first Inv as_registered
  register_first-Inv c o h = elim (Bool-cases o.registered) [
    | inl e ↦ rw e h
    | inr e ↦ rw e (register_by-Inv c _ (as_registered callable o) (as_registered-Inv c o h))
  ]

  add_handler-Inv :
      (c : H) (types : List (List ℕ)) (handler : H) (override : Bool)
      (o : CallerObjectWithMethods H)
      → Inv c o
      → Inv c (add_handler callable types handler override o).1
  unfolding Inv add_handler
  add_handler-Inv c types handler override o (h, e) =
      (add_types-IsIndexed types _ override o.methods h, e)

  add_after-Inv :
      (c : H) (types : List (List ℕ)) (handler : H) (override : Bool)
      (r : Option (AddError E) × CallerObjectWithMethods H)
      → Inv c r.1
      → Inv c (add_after callable types handler override r).1
  unfolding add_after
  add_after-Inv c types handler override (some e, o) h = h
  add_after-Inv c types handler override (none, o) h = add_handler-Inv c types handler override o h

  Reach-Inv : {c : H} {o : CallerObjectWithMethods H} → Reach c o → Inv c o
  unfolding Inv new_caller add_caller_method
  Reach-Inv {c} created = (new_caller-IsIndexed c, refl)
  Reach-Inv {c} (defaulted {o} types r) = register_default-Inv c types o (Reach-Inv r)
  Reach-Inv {c} (added {o} types handler override r) =
      add_after-Inv c types handler override (register_first callable o)
        (register_first-Inv c o (Reach-Inv r))

  -- A call of an object with methods, in any state that additions lead to, gets the object itself,
  -- with its own say on validation, or without a validation the handler of a stored method whose
  -- signature fits the types of the arguments of the call in their order, one type for each.
  pub caller_of-Fits {κ} :
      {A : Type κ} (type_of : A → TypeKey) {c : H} {o : CallerObjectWithMethods H} (args : Args A)
      → Reach c o
      → (caller_of callable type_of o args ≡ (c, validates callable c))
        ⊎ ((m : CallerMethod H) × (get_method o.methods (map type_of (flatten args.rows)) ≡ some m)
            × Fits m.types (map type_of (flatten args.rows))
            × (caller_of callable type_of o args ≡ (m.caller_object, false)))
  unfolding caller_of caller_of_types chosen Inv
  caller_of-Fits type_of {c} {o} args r =
      let (h, e) = Reach-Inv r in
      let types = map type_of (flatten args.rows) in
      elim (Bool-cases o.registered) [
        | inr d ↦ inl (rw (d, e) refl)
        | inl d ↦
            rw (d, collect_types-eq type_of [] args.rows)
              (elim (Option-cases (get_method o.methods types)) [
                | inl found ↦ inl (rw (found, e) refl)
                | inr (m, found) ↦
                    inr (m, found, (get_method-Fits o.methods types m h found).0, rw found refl)
              ])
      ]

  as_error-none : (r : Option MethodError) → as_error {E = E} r ≡ none → r ≡ none
  as_error-none none h = refl
  as_error-none (some e) h = ground arith

  add_after-error :
      (types : List (List ℕ)) (handler : H) (override : Bool)
      (r : Option (AddError E) × CallerObjectWithMethods H)
      → (add_after callable types handler override r).0 ≡ none
      → All
          (λ ks.
            caller_of_types callable (add_after callable types handler override r).1 ks
            ≡ (handler, false))
          (choices types)
  unfolding add_after add_handler caller_of_types chosen method_of
  add_after-error types handler override (some e, o) h = ground arith
  add_after-error types handler override (none, o) h =
      All-map (λ ks (n, found, own). rw found (ap (λ c. (c, false)) own)) (choices types)
        (add_types-get_method types (method_of false handler) override o.methods
          (as_error-none _ h))

  add_caller_method-choices :
      (types : List (List ℕ)) (handler : H) (override : Bool) (o : CallerObjectWithMethods H)
      → (add_caller_method callable types handler override o).0 ≡ none
      → All
          (λ ks.
            caller_of_types callable (add_caller_method callable types handler override o).1 ks
            ≡ (handler, false))
          (choices types)
  unfolding add_caller_method
  add_caller_method-choices types handler override o h =
      add_after-error types handler override (register_first callable o) h

  register_by-registered :
      (r : Option (Result E (List (List ℕ)))) (o : CallerObjectWithMethods H)
      → o.registered ≡ true
      → (register_by callable r o).1.registered ≡ true
  unfolding register_by register_default
  register_by-registered none o h = h
  register_by-registered (some (err e)) o h = h
  register_by-registered (some (ok types)) o h = refl

  register_first-registered :
      (o : CallerObjectWithMethods H) → (register_first callable o).1.registered ≡ true
  unfolding register_first as_registered
  register_first-registered o = elim (Bool-cases o.registered) [
    | inl e ↦ rw e refl
    | inr e ↦ rw e (register_by-registered _ (as_registered callable o) refl)
  ]

  add_after-registered :
      (types : List (List ℕ)) (handler : H) (override : Bool)
      (r : Option (AddError E) × CallerObjectWithMethods H)
      → (add_after callable types handler override r).1.registered ≡ r.1.registered
  unfolding add_after add_handler
  add_after-registered types handler override (some e, o) = refl
  add_after-registered types handler override (none, o) = refl

  add_caller_method-registered :
      (types : List (List ℕ)) (handler : H) (override : Bool) (o : CallerObjectWithMethods H)
      → (add_caller_method callable types handler override o).1.registered ≡ true
  unfolding add_caller_method
  add_caller_method-registered types handler override o =
      add_after-registered types handler override (register_first callable o)
      ∙ register_first-registered o

  caller_of-registered {κ} :
      {A : Type κ} (type_of : A → TypeKey) (o : CallerObjectWithMethods H) (args : Args A)
      → o.registered ≡ true
      → caller_of callable type_of o args
        ≡ caller_of_types callable o (map type_of (flatten args.rows))
  unfolding caller_of
  caller_of-registered type_of o args d = rw (d, collect_types-eq type_of [] args.rows) refl

  -- Once the addition of a method to an object has succeeded, a call whose arguments have for each
  -- parameter one of the types that its signature names for it, in their order, gets the handler of
  -- the method, without a validation; so each of the parameters must name a type.
  pub add_caller_method-caller_of {κ} :
      {A : Type κ} (type_of : A → TypeKey) (types : List (List ℕ)) (handler : H) (override : Bool)
      (o : CallerObjectWithMethods H) (args : Args A) (ks : List ℕ)
      → (add_caller_method callable types handler override o).0 ≡ none
      → map type_of (flatten args.rows) ≡ map some ks
      → Picks types ks
      → caller_of callable type_of (add_caller_method callable types handler override o).1 args
        ≡ (handler, false)
  add_caller_method-caller_of type_of types handler override o args ks h are picks =
      let after = (add_caller_method callable types handler override o).1 in
      caller_of-registered type_of after args
        (add_caller_method-registered types handler override o)
      ∙ ap (caller_of_types callable after) are
      ∙ All-Picks (λ path. caller_of_types callable after path ≡ (handler, false)) types ks picks
          (add_caller_method-choices types handler override o h)
