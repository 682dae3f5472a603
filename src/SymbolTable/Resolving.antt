-- ===== src/SymbolTable/Resolving.antt =====
-- `Resolve` keeps the invariant.
use gad.Prelude.{
  String, ◌≡◌, inl, inr, refl, ◌∙◌, Bool, true, false, Bool-cases, Option-cases, Option, none, some,
  arith,
}
use gad.Prelude.Dict
use gad.SymbolTable.Symbols.{Symbol, info}
use gad.SymbolTable.Tables.{Builtins, Table, SymbolTable, root, inner, own, in_block, next_index}
use gad.SymbolTable.Define.{define_free, shadow_builtin}
use gad.SymbolTable.Resolve.{resolve, resolve_builtin, bring_in, needs_capture, contains}
use gad.SymbolTable.Validity.{IsValid, base, with_own-IsValid}
use gad.SymbolTable.Defining.{define_free-IsValid, put_outer}

needs_capture-outside : (block : Bool) (s : Symbol) → needs_capture block s ≡ true → block ≡ false
unfolding needs_capture
needs_capture-outside block s e = ground arith

module _ (b : Builtins) where
  -- Neither the slots nor the maximum of the innermost table change.
  abbrev Keeps : SymbolTable → SymbolTable → Type 0
  Keeps st st' =
      (next_index st' ≡ next_index st) × ((own st').max_definition ≡ (own st).max_definition)

  resolve_builtin-Keeps : (name : String) (t : Table) → Keeps (root t) (resolve_builtin b name t).1
  unfolding resolve_builtin next_index
  resolve_builtin-Keeps name t = ground arith

  shadow_builtin-Keeps : (name : String) (st : SymbolTable) → Keeps st (shadow_builtin b name st)
  unfolding shadow_builtin next_index
  shadow_builtin-Keeps name (root t) = ground arith
  shadow_builtin-Keeps name (inner block t p) = ground arith

  define_free-Keeps : (orig : Symbol) (st : SymbolTable) → Keeps st (define_free b orig st).1
  unfolding define_free next_index
  define_free-Keeps orig (root t) =
      let k = shadow_builtin-Keeps (info orig).name _ in (k.0 ∙ refl, k.1 ∙ refl)
  define_free-Keeps orig (inner block t p) =
      let k = shadow_builtin-Keeps (info orig).name _ in (k.0 ∙ refl, k.1 ∙ refl)

  bring_in-Keeps :
      (block : Bool) (t : Table) (p : SymbolTable) (r : Option Symbol × SymbolTable)
      → Keeps p r.1
      → Keeps (inner block t p) (bring_in b block t r).1
  unfolding bring_in next_index
  bring_in-Keeps block t p (none, p') k = ground arith
  bring_in-Keeps block t p (some s, p') k = ground (arith, define_free-Keeps s (inner block t p'))

  resolve-Keeps : (name : String) (st : SymbolTable) → Keeps st (resolve b name st).1
  unfolding resolve
  resolve-Keeps name (root t) = ground (arith, resolve_builtin-Keeps name t)
  resolve-Keeps name (inner block t p) = elim (Option-cases (Dict.get t.store name)) [
    | inl e ↦ rw (e, resolve) (bring_in-Keeps block t p _ (resolve-Keeps name p))
    | inr (s, e) ↦ rw (e, resolve) (refl, refl)
  ]

  resolve_builtin-IsValid :
      (name : String) (t : Table) → IsValid (root t) → IsValid (resolve_builtin b name t).1
  unfolding resolve_builtin base
  resolve_builtin-IsValid name t v = elim (Bool-cases (contains t.disabled_builtins name)) [
    | inl y ↦ rw y v
    | inr n ↦ elim (Option-cases (b.index name)) [
      | inl e ↦ rw (n, e) v
      | inr (i, e) ↦
          rw (n, e)
            (with_own-IsValid (root t) _ v
              (put_outer v name _ refl (λ l. absurd (cc)) (λ l. absurd (cc))) refl refl (λ b. refl))
    ]
  ]

  -- An inner table over a changed outer one.
  inner-IsValid :
      (block : Bool) (t : Table) (p p' : SymbolTable)
      → Keeps p p'
      → IsValid p'
      → IsValid (inner block t p)
      → IsValid (inner block t p')
  unfolding base
  inner-IsValid block t p p' k v' v = (v', rw k.0 v.1, λ e. (rw k.1 ((v.2 e).0), (v.2 e).1))

  bring_in-IsValid :
      (block : Bool) (t : Table) (r : Option Symbol × SymbolTable)
      → IsValid (inner block t r.1)
      → IsValid (bring_in b block t r).1
  unfolding bring_in in_block
  bring_in-IsValid block t (none, p) v = v
  bring_in-IsValid block t (some s, p) v = elim (Bool-cases (needs_capture block s)) [
    | inl y ↦ rw y (define_free-IsValid b s (inner block t p) (needs_capture-outside block s y) v)
    | inr n ↦ rw n v
  ]

  pub resolve-IsValid :
      (name : String) (st : SymbolTable) → IsValid st → IsValid (resolve b name st).1
  unfolding resolve
  resolve-IsValid name (root t) v = elim (Option-cases (Dict.get t.store name)) [
    | inl e ↦ rw (e, resolve) (resolve_builtin-IsValid name t v)
    | inr (s, e) ↦ rw (e, resolve) v
  ]
  resolve-IsValid name (inner block t p) v = elim (Option-cases (Dict.get t.store name)) [
    | inl e ↦
        rw (e, resolve)
          (bring_in-IsValid block t _
            (inner-IsValid block t p _ (resolve-Keeps name p) (resolve-IsValid name p v.0) v))
    | inr (s, e) ↦ rw (e, resolve) v
  ]
