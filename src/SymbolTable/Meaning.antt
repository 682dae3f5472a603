-- ===== src/SymbolTable/Meaning.antt =====
-- What the operations change of the meaning of names: only `DefineLocal` gives a name another
-- meaning, and only its own.
use gad.Prelude.{
  String, ◌≡◌, inl, inr, refl, sym, ap, ◌∙◌, Bool, Bool-cases, Option-cases, if◌then◌else◌, Option,
  none, some, arith,
}
use gad.Prelude.Dict
use gad.SymbolTable.Symbols.{Symbol, info, definition}
use gad.SymbolTable.Tables.{Builtins, Table, SymbolTable, root, inner, own, with_own}
use gad.SymbolTable.Define.{define_free, shadow_builtin}
use gad.SymbolTable.Resolve.{resolve, resolve_builtin, bring_in, needs_capture, contains}
use gad.SymbolTable.Validity.{IsValid}
use gad.SymbolTable.Lexical.{lexical}
use mathlib.Core.Option
use text.Mathlib.Text.{◌==◌ as str_eq}
use text.Mathlib.TextEquality.{eq_iff}
use gad.SymbolTable.Lexical.{builtin_symbol, or_else, resolve-lexical}
use gad.SymbolTable.Reachable.{captured, passed_on, looked_outside}
use gad.SymbolTable.Again.{resolve-name, resolve-own, unasked_root}

-- The definition that a name stands for in a chain of tables.
unfoldable pub meaning : Builtins → String → SymbolTable → Option Symbol
meaning b name st = Option.map definition (lexical b name st)

module _ (b : Builtins) where
  lexical-own :
      (m : String) (block : Bool) (t : Table) (p : SymbolTable)
      → lexical b m (inner block t p) ≡ or_else (Dict.get t.store m) (lexical b m p)
  unfolding lexical
  lexical-own m block t p = refl

  pub meaning-inner :
      (m : String) (block : Bool) (t : Table) (p p' : SymbolTable)
      → meaning b m p' ≡ meaning b m p
      → meaning b m (inner block t p') ≡ meaning b m (inner block t p)
  unfolding meaning lexical or_else
  meaning-inner m block t p p' e = elim (Option-cases (Dict.get t.store m)) [
    | inl n ↦ rw n e
    | inr (s, h) ↦ rw h
  ]

  pub meaning-shadow :
      (m name : String) (st : SymbolTable) → meaning b m (shadow_builtin b name st) ≡ meaning b m st
  unfolding meaning lexical shadow_builtin
  meaning-shadow m name (root t) = ground arith
  meaning-shadow m name (inner block t p) = ground arith

  -- A new entry of the innermost table.
  pub meaning-put :
      (m name : String) (new : Symbol) (st : SymbolTable) (t : Table)
      → t.store ≡ Dict.put (own st).store name new
      → t.disabled_builtins ≡ (own st).disabled_builtins
      → meaning b m (with_own st t)
        ≡ (if str_eq name m then some (definition new) else meaning b m st)
  unfolding meaning lexical or_else builtin_symbol
  meaning-put m name new (root t') t e d =
      rw (e, d, Dict.get-put t'.store name new m)
        (elim (Bool-cases (str_eq name m)) [ inl y ↦ rw y | inr n ↦ rw n ])
  meaning-put m name new (inner block t' p) t e d =
      rw (e, Dict.get-put t'.store name new m)
        (elim (Bool-cases (str_eq name m)) [ inl y ↦ rw y | inr n ↦ rw n ])

  -- An entry that says what the name meant already changes nothing.
  meaning-put_same :
      (m name : String) (new : Symbol) (st : SymbolTable) (t : Table)
      → t.store ≡ Dict.put (own st).store name new
      → t.disabled_builtins ≡ (own st).disabled_builtins
      → meaning b name st ≡ some (definition new)
      → meaning b m (with_own st t) ≡ meaning b m st
  meaning-put_same m name new st t e d k = elim (Bool-cases (str_eq name m)) [
    | inl y ↦
        meaning-put m name new st t e d
        ∙ rw y (sym k ∙ ap (λ n. meaning b n st) ((eq_iff name m).0 y))
    | inr n ↦ meaning-put m name new st t e d ∙ rw n
  ]

  meaning-resolve_builtin :
      (m name : String) (t : Table)
      → Dict.get t.store name ≡ none
      → meaning b m (resolve_builtin b name t).1 ≡ meaning b m (root t)
  unfolding resolve_builtin
  meaning-resolve_builtin m name t e = elim (Bool-cases (contains t.disabled_builtins name)) [
    | inl y ↦ rw y
    | inr n ↦ elim (Option-cases (b.index name)) [
      | inl i ↦ rw (n, i)
      | inr (i, h) ↦
          rw (n, h)
            (meaning-put_same m name _ (root t) _ refl refl
              (unfold meaning lexical or_else builtin_symbol definition in ground (arith, e, n, h)))
    ]
  ]

  meaning-define_free :
      (m : String) (s : Symbol) (st : SymbolTable)
      → meaning b (info s).name st ≡ some (definition s)
      → meaning b m (define_free b s st).1 ≡ meaning b m st
  unfolding define_free definition
  meaning-define_free m s st e =
      meaning-shadow m (info s).name _ ∙ meaning-put_same m (info s).name _ st _ refl refl e

  bring_in-meaning :
      (m : String) (block : Bool) (t : Table) (p : SymbolTable) (r : Option Symbol × SymbolTable)
      → meaning b m r.1 ≡ meaning b m p
      → ((s : Symbol)
          → r.0 ≡ some s
          → meaning b (info s).name (inner block t r.1) ≡ some (definition s))
      → meaning b m (bring_in b block t r).1 ≡ meaning b m (inner block t p)
  bring_in-meaning m block t p (none, p') e h = unfold bring_in in meaning-inner m block t p p' e
  bring_in-meaning m block t p (some s, p') e h = elim (Bool-cases (needs_capture block s)) [
    | inl y ↦
        rw (captured b block t s p' y)
          (meaning-define_free m s (inner block t p') (h s refl) ∙ meaning-inner m block t p p' e)
    | inr n ↦ rw (passed_on b block t s p' n) (meaning-inner m block t p p' e)
  ]

  -- What is found outside is what the name means here.
  found_outside :
      (name : String) (block : Bool) (t : Table) (p : SymbolTable)
      → IsValid p
      → Dict.get t.store name ≡ none
      → meaning b name (resolve b name p).1 ≡ meaning b name p
      → (s : Symbol) → (resolve b name p).0 ≡ some s
      → meaning b (info s).name (inner block t (resolve b name p).1) ≡ some (definition s)
  found_outside name block t p v e k s f = rw (resolve-name b name p v s f) (
      meaning-inner name block t p _ k
      ∙ unasked
      ∙ sym (resolve-lexical b name p)
      ∙ ap (Option.map definition) f)
    where
      unasked : meaning b name (inner block t p) ≡ Option.map definition (lexical b name p)
      unasked = unfold meaning lexical or_else in rw e

  -- In a valid chain `Resolve` changes the meaning of no name, although it captures symbols and
  -- stores builtins.
  pub meaning-resolve :
      (m name : String) (st : SymbolTable)
      → IsValid st
      → meaning b m (resolve b name st).1 ≡ meaning b m st
  meaning-resolve m name (root t) v = elim (Option-cases (Dict.get t.store name)) [
    | inl e ↦ rw (unasked_root b name t e) (meaning-resolve_builtin m name t e)
    | inr (s, e) ↦ rw (resolve-own b name (root t) s e)
  ]
  meaning-resolve m name (inner block t p) v = elim (Option-cases (Dict.get t.store name)) [
    | inl e ↦ rw (looked_outside b name block t p e) (
        bring_in-meaning m block t p (resolve b name p) (meaning-resolve m name p v.0)
          (found_outside name block t p v.0 e (meaning-resolve name name p v.0)))
    | inr (s, e) ↦ rw (resolve-own b name (inner block t p) s e)
  ]
