-- ===== src/SymbolTable/Again.antt =====
-- `Resolve` asked again, and what it leaves of the meaning of names.
use gad.Prelude.{
  String, ◌≡◌, inl, inr, refl, ap, ◌∙◌, Bool, Bool-cases, Option-cases, Option, none, some, arith,
}
use mathlib.Core.Path.{subst}
use gad.Prelude.Dict
use gad.SymbolTable.Symbols.{Symbol, info}
use gad.SymbolTable.Tables.{Builtins, Table, SymbolTable, root, inner, own}
use gad.SymbolTable.Define.{define_free}
use gad.SymbolTable.Resolve.{resolve, resolve_builtin, bring_in, needs_capture, contains}
use gad.SymbolTable.Validity.{IsValid}
use gad.SymbolTable.Reachable.{define_free-stored, captured, passed_on, looked_outside}

module _ (b : Builtins) where
  -- A name of the innermost table.
  pub resolve-own :
      (name : String) (st : SymbolTable) (s : Symbol)
      → Dict.get (own st).store name ≡ some s
      → resolve b name st ≡ (some s, st)
  unfolding resolve
  resolve-own name (root t) s e = rw (e, resolve)
  resolve-own name (inner block t p) s e = rw (e, resolve)

  pub unasked_root :
      (name : String) (t : Table)
      → Dict.get t.store name ≡ none
      → resolve b name (root t) ≡ resolve_builtin b name t
  unfolding resolve
  unasked_root name t m = rw (m, resolve)

  name-define_free :
      (s : Symbol) (st : SymbolTable) → (info (define_free b s st).0).name ≡ (info s).name
  unfolding define_free
  name-define_free s st = refl

  bring_in-name :
      (block : Bool) (t : Table) (r : Option Symbol × SymbolTable) (name : String)
      → ((s : Symbol) → r.0 ≡ some s → (info s).name ≡ name)
      → (s : Symbol) → (bring_in b block t r).0 ≡ some s
      → (info s).name ≡ name
  unfolding bring_in define_free
  bring_in-name block t (none, p) name h s e = absurd (ground (arith, e))
  bring_in-name block t (some s0, p) name h s e = ground (arith, e, h s0 refl)

  -- What is found for a name has it.
  pub resolve-name :
      (name : String) (st : SymbolTable)
      → IsValid st
      → (s : Symbol) → (resolve b name st).0 ≡ some s
      → (info s).name ≡ name
  unfolding resolve
  resolve-name name (root t) v s e = elim (Option-cases (Dict.get t.store name)) [
    | inl m ↦ unfold resolve_builtin in ground (arith, m, e)
    | inr (s', m) ↦ v.entries.named name s (ground (arith, m, e))
  ]
  resolve-name name (inner block t p) v s e = elim (Option-cases (Dict.get t.store name)) [
    | inl m ↦
        bring_in-name block t (resolve b name p) name (resolve-name name p v.0) s
          (ground (arith, m, e))
    | inr (s', m) ↦ v.1.entries.named name s (ground (arith, m, e))
  ]

  -- A second look from the table that the first left.
  bring_in_again :
      (block : Bool) (t : Table) (r : Option Symbol × SymbolTable) (name : String)
      → Dict.get t.store name ≡ none
      → ((s : Symbol) → r.0 ≡ some s → (info s).name ≡ name)
      → resolve b name r.1 ≡ r
      → resolve b name (bring_in b block t r).1 ≡ bring_in b block t r
  bring_in_again block t (none, p) name m h again =
      unfold bring_in in looked_outside b name block t p m ∙ ap (bring_in b block t) again
  bring_in_again block t (some s, p) name m h again = elim (Bool-cases (needs_capture block s)) [
    | inl y ↦ rw (captured b block t s p y) (
        resolve-own name _ _ (
          subst
            (λ n.
              Dict.get (own (define_free b s (inner block t p)).1).store n
              ≡ some (define_free b s (inner block t p)).0)
            (h s refl) (define_free-stored b s (inner block t p))))
    | inr n ↦ rw (passed_on b block t s p n) (
        looked_outside b name block t p m
        ∙ ap (bring_in b block t) again
        ∙ passed_on b block t s p n)
  ]

  resolve_builtin_again :
      (name : String) (t : Table)
      → Dict.get t.store name ≡ none
      → resolve b name (resolve_builtin b name t).1 ≡ resolve_builtin b name t
  resolve_builtin_again name t m = elim (Bool-cases (contains t.disabled_builtins name)) [
    | inl y ↦ unfold resolve_builtin resolve in ground (arith, m, y)
    | inr n ↦ elim (Option-cases (b.index name)) [
      | inl e ↦ unfold resolve_builtin resolve in ground (arith, m, n, e)
      | inr (i, e) ↦
          unfold resolve_builtin in
          rw (n, e) (resolve-own name (root _) _ (Dict.get-put_self t.store name _))
    ]
  ]

  -- In a valid chain, a second `Resolve` of a name gives the same answer, found or not, and changes
  -- no table any more.
  pub resolve_twice :
      (name : String) (st : SymbolTable)
      → IsValid st
      → resolve b name (resolve b name st).1 ≡ resolve b name st
  resolve_twice name (root t) v = elim (Option-cases (Dict.get t.store name)) [
    | inl m ↦ rw (unasked_root name t m) (resolve_builtin_again name t m)
    | inr (s, m) ↦ rw (resolve-own name (root t) s m) (resolve-own name (root t) s m)
  ]
  resolve_twice name (inner block t p) v = elim (Option-cases (Dict.get t.store name)) [
    | inl m ↦ rw (looked_outside b name block t p m) (
        bring_in_again block t (resolve b name p) name m (resolve-name name p v.0)
          (resolve_twice name p v.0))
    | inr (s, m) ↦
        rw (resolve-own name (inner block t p) s m) (resolve-own name (inner block t p) s m)
  ]
