-- ===== src/SymbolTable/Defining.antt =====
-- The operations that define symbols keep the invariant.
use gad.Prelude.{
  String, ℕ, ◌+◌, ◌≡◌, ◌≢◌, inl, inr, refl, sym, ap, ◌∙◌, Bool, false, not, ◌&&◌, Bool-cases,
  Option-cases, Option, none, some, List, [], ◌∷◌, map, List-cases, length, get_elem?-length,
  get_elem?-append_left, get_elem?-lt, arith,
}
use gad.Prelude.Int.{pos}
use mathlib.Core.Bool.{false≢true}
use text.Mathlib.Text.{◌==◌ as str_eq}
use gad.Prelude.Dict
use gad.SymbolTable.Symbols.{scope_local, scope_free, SymbolInfo, Symbol, info}
use gad.SymbolTable.Tables.{
  Builtins, Param, NamedParam, Table, SymbolTable, root, inner, own, in_block, next_index,
}
use gad.SymbolTable.Define.{
  DefineError, is_declared, add_local, shadow_builtin, define_local, define_free,
  define_params_loop, define_params_var, set_params, set_named_params, store_params,
  store_named_params, make_params, if_defined, define_global,
}
use gad.SymbolTable.Entries.{Entries, Entries-put, HasScope}
use gad.SymbolTable.Validity.{
  IsTable, IsValid, base, IsTable-own, next_index-eq, grown-IsValid, with_own-IsValid,
}

scope_differs : scope_local ≢ scope_free
scope_differs e = cc

-- A symbol that is neither local nor free needs no slot.
pub put_outer :
    {lo : ℕ} {t : Table}
    → IsTable lo t
    → (name : String) (new : Symbol) → (info new).name ≡ name
    → ¬ HasScope scope_local new
    → ¬ HasScope scope_free new
    → Entries lo (lo + t.num_definition) t.frees (Dict.put t.store name new)
put_outer v name new same l f =
    Entries-put v.entries _ _ name new same (λ h. absurd (l h)) (λ h. absurd (f h)) (omega arith)
      (λ i o e. e)

module _ (b : Builtins) where
  pub shadow_builtin-IsValid :
      (name : String) (st : SymbolTable) → IsValid st → IsValid (shadow_builtin b name st)
  unfolding shadow_builtin
  shadow_builtin-IsValid name st v = elim (Bool-cases (b.has_name name)) [
    | inl y ↦ rw y (with_own-IsValid st _ v (IsTable-own st v).entries refl refl (λ b. refl))
    | inr n ↦ rw n v
  ]

  pub add_local-IsValid :
      (name : String) (st : SymbolTable) → IsValid st → IsValid (add_local b name st).1
  unfolding add_local
  add_local-IsValid name st v = shadow_builtin-IsValid name _ (
      grown-IsValid (next_index st + 1) st _ v
        (Entries-put (IsTable-own st v).entries _ _ name _ refl
          (λ l. (ap pos (next_index-eq st), omega arith, omega arith))
          (λ f. absurd (scope_differs f)) (omega arith) (λ i o e. e))
        (omega (arith, next_index-eq st)) refl refl)

  pub define_local-IsValid :
      (name : String) (st : SymbolTable) → IsValid st → IsValid (define_local b name st).2
  unfolding define_local
  define_local-IsValid name st v = elim (Option-cases (Dict.get (own st).store name)) [
    | inl e ↦ rw (e, define_local) (add_local-IsValid name st v)
    | inr (s, e) ↦ rw (e, define_local) v
  ]

  pub define_free-IsValid :
      (orig : Symbol) (st : SymbolTable)
      → in_block st ≡ false
      → IsValid st
      → IsValid (define_free b orig st).1
  unfolding define_free
  define_free-IsValid orig st out v = shadow_builtin-IsValid (info orig).name _ (
      with_own-IsValid st _ v
        (Entries-put (IsTable-own st v).entries _ _ (info orig).name _ refl
          (λ l. absurd (scope_differs (sym l)))
          (λ f. (
            length (own st).frees,
            orig,
            (refl, get_elem?-length (own st).frees [] orig, refl, refl),
          ))
          (omega arith)
          (λ i o e.
            get_elem?-append_left (own st).frees (orig ∷ []) i (get_elem?-lt (own st).frees i o e)
            ∙ e))
        refl refl (λ b. absurd (false≢true (sym out ∙ b))))

  define_params_loop-IsValid :
      (names : List String) (st : SymbolTable)
      → IsValid st
      → IsValid (define_params_loop b names st).1
  unfolding define_params_loop
  define_params_loop-IsValid [] st v = v
  define_params_loop-IsValid (name ∷ names) st v =
      elim (Bool-cases (is_declared (Dict.get (own st).store name) && not (str_eq name "_"))) [
        | inl y ↦ rw (y, define_params_loop) v
        | inr n ↦
            rw (n, define_params_loop)
              (define_params_loop-IsValid names _ (add_local-IsValid name st v))
      ]

  define_params_var-IsValid :
      (names : List String) (st : SymbolTable)
      → IsValid st
      → IsValid (define_params_var b names st).1
  unfolding define_params_var
  define_params_var-IsValid names st v = elim (Bool-cases (own st).disable_params) [
    | inl y ↦ rw y v
    | inr n ↦ rw n (define_params_loop-IsValid names st v)
  ]

  if_defined-IsValid :
      (next : SymbolTable → Option DefineError × SymbolTable)
      → ((st : SymbolTable) → IsValid st → IsValid (next st).1)
      → (r : Option DefineError × SymbolTable) → IsValid r.1
      → IsValid (if_defined next r).1
  unfolding if_defined
  if_defined-IsValid next k (none, st) v = k st v
  if_defined-IsValid next k (some e, st) v = v

  store_params-IsValid :
      (var_params : Bool) (ps : Option (List Param)) (st : SymbolTable)
      → IsValid st
      → IsValid (store_params var_params ps st).1
  unfolding store_params
  store_params-IsValid var_params none st v = v
  store_params-IsValid var_params (some ps) st v =
      with_own-IsValid st _ v (IsTable-own st v).entries refl refl (λ b. refl)

  pub set_params-IsValid :
      (var_params : Bool) (names : List String) (types : List (List SymbolInfo)) (st : SymbolTable)
      → IsValid st
      → IsValid (set_params b var_params names types st).1
  unfolding set_params
  set_params-IsValid var_params [] types st v = v
  set_params-IsValid var_params (name ∷ names) types st v = elim (List-cases (own st).params) [
    | inl e ↦
        rw (e, set_params)
          (if_defined-IsValid _ (store_params-IsValid var_params (make_params (name ∷ names) types))
            _ (define_params_var-IsValid (name ∷ names) st v))
    | inr (p, ps, e) ↦ rw (e, set_params) v
  ]

  store_named_params-IsValid :
      (ps : List NamedParam) (st : SymbolTable) → IsValid st → IsValid (store_named_params ps st).1
  unfolding store_named_params
  store_named_params-IsValid ps st v =
      with_own-IsValid st _ v (IsTable-own st v).entries refl refl (λ b. refl)

  pub set_named_params-IsValid :
      (ps : List NamedParam) (st : SymbolTable) → IsValid st → IsValid (set_named_params b ps st).1
  unfolding set_named_params
  set_named_params-IsValid [] st v = v
  set_named_params-IsValid (p ∷ ps) st v = elim (List-cases (own st).named_params) [
    | inl e ↦
        rw (e, set_named_params)
          (if_defined-IsValid _ (store_named_params-IsValid (p ∷ ps)) _
            (define_params_var-IsValid (map (λ (n : NamedParam). n.name) (p ∷ ps)) st v))
    | inr (q, qs, e) ↦ rw (e, set_named_params) v
  ]

  pub define_global-IsValid :
      (name : String) (st : SymbolTable) → IsValid st → IsValid (define_global b name st).1
  unfolding define_global base
  define_global-IsValid name (inner block t p) v = v
  define_global-IsValid name (root t) v = elim (Option-cases (Dict.get t.store name)) [
    | inl e ↦
        rw (e, define_global)
          (shadow_builtin-IsValid name _ (
            with_own-IsValid (root t) _ v
              (put_outer v name _ refl (λ l. absurd (cc)) (λ l. absurd (cc))) refl refl
              (λ b. refl)))
    | inr (s, e) ↦ rw (e, define_global) v
  ]
