-- ===== src/SymbolTable/Defined.antt =====
-- What `DefineLocal` changes of the meaning of names.
use gad.Prelude.{
  String, ℕ, ◌+◌, ◌≡◌, inl, inr, refl, sym, ap, ◌∙◌, Bool, true, false, Bool-cases, Option-cases,
  if◌then◌else◌, none, some, arith,
}
use mathlib.Core.Path.{subst}
use gad.Prelude.Dict
use gad.SymbolTable.Symbols.{Symbol, definition}
use gad.SymbolTable.Tables.{Builtins, Table, SymbolTable, root, inner, own, with_own, next_index}
use gad.SymbolTable.Resolve.{resolve}
use gad.SymbolTable.Lexical.{lexical}
use text.Mathlib.Text.{◌==◌ as str_eq}
use text.Mathlib.TextEquality.{eq_iff}
use gad.SymbolTable.Lexical.{builtin_symbol, or_else}
use gad.SymbolTable.Reachable.{own-shadow_builtin}
use gad.SymbolTable.Tables.{update_max_defs, raise_max}
use gad.SymbolTable.Define.{add_local, define_local}
use gad.SymbolTable.Again.{resolve-own}
use gad.SymbolTable.Meaning.{meaning, meaning-inner, meaning-shadow, meaning-put}

module _ (b : Builtins) where
  meaning-raise_max :
      (m : String) (n : ℕ) (block : Bool) (t : Table) (p : SymbolTable)
      → meaning b m (inner block (raise_max n t) p) ≡ meaning b m (inner block t p)
  unfolding meaning lexical or_else raise_max
  meaning-raise_max m n block t p = ground arith

  meaning-update_max_defs :
      (m : String) (n : ℕ) (st : SymbolTable) → meaning b m (update_max_defs n st) ≡ meaning b m st
  unfolding update_max_defs
  meaning-update_max_defs m n (root t) =
      unfold meaning lexical or_else builtin_symbol raise_max in ground arith
  meaning-update_max_defs m n (inner true t p) =
      meaning-raise_max m n true t _ ∙ meaning-inner b m true t p _ (meaning-update_max_defs m n p)
  meaning-update_max_defs m n (inner false t p) = meaning-raise_max m n false t p

  meaning-add_local :
      (m name : String) (st : SymbolTable)
      → meaning b m (add_local b name st).1
        ≡ (if str_eq name m then some (definition (add_local b name st).0) else meaning b m st)
  unfolding add_local
  meaning-add_local m name st =
      meaning-shadow b m name _
      ∙ meaning-update_max_defs m (next_index st + 1) _
      ∙ meaning-put b m name _ st _ refl refl

  pub store-update_max_defs :
      (n : ℕ) (st : SymbolTable) → (own (update_max_defs n st)).store ≡ (own st).store
  unfolding update_max_defs raise_max
  store-update_max_defs n (root t) = ground arith
  store-update_max_defs n (inner block t p) = ground arith

  pub own-with_own : (st : SymbolTable) (t : Table) → own (with_own st t) ≡ t
  own-with_own (root t') t = refl
  own-with_own (inner block t' p) t = refl

  add_local-stored :
      (name : String) (st : SymbolTable)
      → Dict.get (own (add_local b name st).1).store name ≡ some (add_local b name st).0
  unfolding add_local
  add_local-stored name st =
      rw (own-shadow_builtin, store-update_max_defs, own-with_own st)
        (Dict.get-put_self (own st).store name _)

  stored_meaning :
      (name : String) (st : SymbolTable) (s : Symbol)
      → Dict.get (own st).store name ≡ some s
      → meaning b name st ≡ some (definition s)
  unfolding meaning lexical or_else
  stored_meaning name (root t) s e = rw e
  stored_meaning name (inner block t p) s e = rw e

  new_local :
      (name : String) (st : SymbolTable)
      → Dict.get (own st).store name ≡ none
      → define_local b name st ≡ ((add_local b name st).0, false, (add_local b name st).1)
  unfolding define_local
  new_local name st e = rw (e, define_local)

  old_local :
      (name : String) (st : SymbolTable) (s : Symbol)
      → Dict.get (own st).store name ≡ some s
      → define_local b name st ≡ (s, true, st)
  unfolding define_local
  old_local name st s e = rw (e, define_local)

  abbrev Defined : String → SymbolTable → Symbol × Bool × SymbolTable → Type 0
  Defined name st r =
      ((m : String)
        → meaning b m r.2 ≡ (if str_eq name m then some (definition r.0) else meaning b m st))
      × (resolve b name r.2 ≡ (some r.0, r.2))

  old_meaning :
      (name m : String) (st : SymbolTable) (s : Symbol)
      → Dict.get (own st).store name ≡ some s
      → meaning b m st ≡ (if str_eq name m then some (definition s) else meaning b m st)
  old_meaning name m st s e = elim (Bool-cases (str_eq name m)) [
    | inl y ↦
        rw y (ap (λ n. meaning b n st) (sym ((eq_iff name m).0 y)) ∙ stored_meaning name st s e)
    | inr n ↦ rw n
  ]

  -- After `DefineLocal` the name means the symbol that it returned, every other name means what it
  -- meant before, and `Resolve` of the name finds just that symbol, in the same tables.
  pub meaning-define_local :
      (name : String) (st : SymbolTable)
      → let r = define_local b name st in
        ((m : String)
          → meaning b m r.2 ≡ (if str_eq name m then some (definition r.0) else meaning b m st))
        × (resolve b name r.2 ≡ (some r.0, r.2))
  meaning-define_local name st = elim (Option-cases (Dict.get (own st).store name)) [
    | inl e ↦
        subst (Defined name st) (sym (new_local name st e))
          (λ m. meaning-add_local m name st, resolve-own b name _ _ (add_local-stored name st))
    | inr (s, e) ↦
        subst (Defined name st) (sym (old_local name st s e))
          (λ m. old_meaning name m st s e, resolve-own b name st s e)
  ]
