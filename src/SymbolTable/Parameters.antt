-- ===== src/SymbolTable/Parameters.antt =====
-- The slots of parameters.
use mathlib.Core.Path.{subst}
use gad.Prelude.{
  String, ℕ, zero, suc, ◌+◌, ◌≡◌, ◌≢◌, refl, sym, ap, ◌∙◌, inl, inr, Bool, true, false, not, ◌&&◌,
  Bool-cases, Option-cases, List-cases, Option, none, some, List, [], ◌∷◌, get_elem?, if◌then◌else◌,
  arith,
}
use text.Mathlib.Text.{◌==◌ as str_eq}
use gad.Prelude.Int.{pos}
use gad.Prelude.Dict
use gad.SymbolTable.Symbols.{Symbol, SymbolInfo, scope_local, plain}
use gad.SymbolTable.Tables.{Builtins, Table, SymbolTable, root, inner, own, with_own, next_index}
use gad.SymbolTable.Define.{
  DefineError, is_declared, add_local, shadow_builtin, define_params_loop, define_params_var,
  set_params, store_params, make_params, mark_last, if_defined,
}
use gad.SymbolTable.Validity.{next_index-update_max_defs}
use gad.SymbolTable.Reachable.{own-shadow_builtin}
use gad.SymbolTable.Defined.{store-update_max_defs, own-with_own}

-- The symbol of a parameter that gets the slot `i`.
abbrev pub param_symbol : String → ℕ → Symbol
param_symbol name i = plain (record { name = name; index = pos i; scope = scope_local })

module _ (b : Builtins) where
  store-add_local :
      (name : String) (st : SymbolTable)
      → (own (add_local b name st).1).store
        ≡ Dict.put (own st).store name (param_symbol name (next_index st))
  unfolding add_local
  store-add_local name st = rw (own-shadow_builtin b, store-update_max_defs b, own-with_own b st)

  next_index-shadow_builtin :
      (name : String) (st : SymbolTable) → next_index (shadow_builtin b name st) ≡ next_index st
  unfolding shadow_builtin next_index
  next_index-shadow_builtin name (root t) = ground arith
  next_index-shadow_builtin name (inner block t p) = ground arith

  next_index-grown :
      (st : SymbolTable) (name : String) (s : Symbol)
      → next_index (
          with_own st (record (own st) {
            num_definition = (own st).num_definition + 1;
            store = Dict.put (own st).store name s;
          }))
        ≡ next_index st + 1
  unfolding next_index
  next_index-grown (root t) name s = refl
  next_index-grown (inner true t p) name s = omega arith
  next_index-grown (inner false t p) name s = refl

  next_index-add_local :
      (name : String) (st : SymbolTable) → next_index (add_local b name st).1 ≡ next_index st + 1
  unfolding add_local
  next_index-add_local name st =
      next_index-shadow_builtin name _
      ∙ next_index-update_max_defs (next_index st + 1) _
      ∙ next_index-grown st name _

  -- One round of the loop, when it does not fail.
  one_param :
      (name : String) (names : List String) (st st' : SymbolTable)
      → define_params_loop b (name ∷ names) st ≡ (none, st')
      → ((is_declared (Dict.get (own st).store name) && not (str_eq name "_")) ≡ false)
        × (define_params_loop b names (add_local b name st).1 ≡ (none, st'))
  unfolding define_params_loop
  one_param name names st st' e =
      elim (Bool-cases (is_declared (Dict.get (own st).store name) && not (str_eq name "_"))) [
        | inl y ↦ absurd (ground (arith, e, y))
        | inr n ↦ (n, ground (arith, e, n))
      ]

  other_param :
      (name m : String) (s : Symbol) (st : SymbolTable)
      → (is_declared (Dict.get (own st).store name) && not (str_eq name "_")) ≡ false
      → Dict.get (own st).store m ≡ some s
      → str_eq m "_" ≡ false
      → name ≢ m
  unfolding is_declared
  other_param name m s st d g n q =
      let d' =
        subst (λ t. (is_declared (Dict.get (own st).store t) && not (str_eq t "_")) ≡ false) q d in
      ground (arith, d', g, n)

  -- A parameter that is defined keeps its symbol.
  loop-keeps :
      (m : String) (s : Symbol) (names : List String) (st st' : SymbolTable)
      → str_eq m "_" ≡ false
      → Dict.get (own st).store m ≡ some s
      → define_params_loop b names st ≡ (none, st')
      → Dict.get (own st').store m ≡ some s
  loop-keeps m s [] st st' n g e =
      let same : st ≡ st' = unfold define_params_loop in ground (arith, e) in
      ap (λ t. Dict.get (own t).store m) (sym same) ∙ g
  loop-keeps m s (name ∷ names) st st' n g e =
      let r = one_param name names st st' e in
      loop-keeps m s names (add_local b name st).1 st' n
        (ap (λ t. Dict.get t m) (store-add_local name st)
          ∙ Dict.get-put_ne (own st).store name _ m (other_param name m s st r.0 g n)
          ∙ g)
        r.1

  loop-slots :
      (names : List String) (st st' : SymbolTable)
      → define_params_loop b names st ≡ (none, st')
      → (i : ℕ) (name : String) → get_elem? names i ≡ some name
      → str_eq name "_" ≡ false
      → Dict.get (own st').store name ≡ some (param_symbol name (next_index st + i))
  loop-slots [] st st' e i name g n = absurd (ground (arith, g))
  loop-slots (x ∷ names) st st' e zero name g n =
      let same : x ≡ name = ground (arith, g) in
      let r = one_param x names st st' e in
      let at : next_index st ≡ next_index st + 0 = omega arith in
      let here : Dict.get (own (add_local b x st).1).store name
          ≡ some (param_symbol name (next_index st + 0)) =
        ap (λ t. Dict.get t name) (store-add_local x st)
        ∙ ap (Dict.get (Dict.put (own st).store x (param_symbol x (next_index st)))) (sym same)
        ∙ Dict.get-put_self (own st).store x (param_symbol x (next_index st))
        ∙ ap (λ k. some (param_symbol k (next_index st))) same
        ∙ ap (λ k. some (param_symbol name k)) at in
      loop-keeps name (param_symbol name (next_index st + 0)) names (add_local b x st).1 st' n here
        r.1
  loop-slots (x ∷ names) st st' e (suc i) name g n =
      let r = one_param x names st st' e in
      let at : next_index (add_local b x st).1 + i ≡ next_index st + suc i =
        omega (arith, next_index-add_local x st) in
      loop-slots names (add_local b x st).1 st' r.1 i name g n
      ∙ ap (λ k. some (param_symbol name k)) at

  store_params-store :
      (var_params : Bool) (names : List String) (types : List (List SymbolInfo))
      (st st' : SymbolTable)
      → store_params var_params (make_params names types) st ≡ (none, st')
      → (own st').store ≡ (own st).store
  unfolding store_params
  store_params-store var_params names types st st' e =
      elim (Option-cases (make_params names types)) [
        | inl n ↦ absurd (ground (arith, e, n))
        | inr (ps, q) ↦
            let same : with_own st
                  (record (own st) { params = if var_params then mark_last ps else ps })
                ≡ st' =
              ground (arith, e, q) in
            ap (λ t. (own t).store) (sym same) ∙ ap (λ (t : Table). t.store) (own-with_own b st _)
      ]

  if_defined-none :
      (next : SymbolTable → Option DefineError × SymbolTable) (r : Option DefineError × SymbolTable)
      (st' : SymbolTable)
      → if_defined next r ≡ (none, st')
      → (st1 : SymbolTable) × ((r ≡ (none, st1)) × (next st1 ≡ (none, st')))
  unfolding if_defined
  if_defined-none next (some x, st) st' e = absurd (ground (arith, e))
  if_defined-none next (none, st) st' e = (st, (refl, e))

  params_var-loop :
      (names : List String) (st st' : SymbolTable)
      → define_params_var b names st ≡ (none, st')
      → define_params_loop b names st ≡ (none, st')
  unfolding define_params_var
  params_var-loop names st st' e = elim (Bool-cases (own st).disable_params) [
    | inl y ↦ absurd (ground (arith, e, y))
    | inr n ↦ ground (arith, e, n)
  ]

  set_params-defined :
      (var_params : Bool) (name : String) (names : List String) (types : List (List SymbolInfo))
      (st st' : SymbolTable)
      → set_params b var_params (name ∷ names) types st ≡ (none, st')
      → if_defined
          (store_params var_params (make_params (name ∷ names) types))
          (define_params_var b (name ∷ names) st)
        ≡ (none, st')
  unfolding set_params
  set_params-defined var_params name names types st st' e = elim (List-cases (own st).params) [
    | inl n ↦ ground (arith, e, n)
    | inr (p, ps, q) ↦ absurd (ground (arith, e, q))
  ]

  -- When `SetParams` has no error, each parameter but a blank one is a local with its own name, and
  -- its slot is the next one of the table before, plus its place among the parameters.
  pub set_params-slots :
      (var_params : Bool) (name : String) (names : List String) (types : List (List SymbolInfo))
      (st st' : SymbolTable)
      → set_params b var_params (name ∷ names) types st ≡ (none, st')
      → (i : ℕ) (param : String) → get_elem? (name ∷ names) i ≡ some param
      → str_eq param "_" ≡ false
      → Dict.get (own st').store param ≡ some (param_symbol param (next_index st + i))
  set_params-slots var_params name names types st st' e i param g n =
      let (st1, (d, s)) =
        if_defined-none _ _ st' (set_params-defined var_params name names types st st' e) in
      ap (λ t. Dict.get t param) (store_params-store var_params (name ∷ names) types st1 st' s)
      ∙ loop-slots (name ∷ names) st st1 (params_var-loop (name ∷ names) st st1 d) i param g n
