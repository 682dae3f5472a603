-- ===== src/SymbolTable/Reachable.antt =====
-- What `Resolve` returns can be addressed by the code of the function that it is called for.
use gad.Prelude.{
  String, ℕ, ◌≤◌, ◌<◌, ◌≡◌, ◌≢◌, inl, inr, refl, sym, ◌∙◌, Bool, true, false, Bool-cases,
  Option-cases, if◌then◌else◌, Option, none, some, List, [], get_elem?, arith,
}
use gad.Prelude.Int.{pos}
use mathlib.Core.Path.{subst}
use gad.Prelude.Dict
use gad.SymbolTable.Symbols.{scope_local, scope_free, Symbol, at, info, original, is_scope}
use gad.SymbolTable.Tables.{Builtins, Table, SymbolTable, root, inner, own}
use gad.SymbolTable.Define.{define_free, shadow_builtin}
use gad.SymbolTable.Resolve.{resolve, resolve_builtin, bring_in, needs_capture}
use gad.SymbolTable.Entries.{HasScope}
use gad.SymbolTable.Validity.{IsValid, base}
use gad.SymbolTable.Resolving.{resolve-IsValid}

-- The table of the function that a chain ends in: that of the innermost table which is no block.
unfoldable pub function_table : SymbolTable → Table
function_table (root t) = t
function_table (inner block t p) = if block then function_table p else t

-- A local has a slot below the number of locals of its function, and a free symbol the index of
-- what it captures in the captures of its function.
pub record IsReachable (st : SymbolTable) (s : Symbol) : Type 0 where
  pub local :
      HasScope scope_local s
      → (i : ℕ) × ((info s).index ≡ pos i) × (i < (function_table st).max_definition)
  pub free :
      HasScope scope_free s
      → (i : ℕ) × (o : Symbol) × (((info s).index ≡ pos i)
          × (get_elem? (function_table st).frees i ≡ some o)
          × (original s ≡ at o))

pub max-le-function :
    (st : SymbolTable) → IsValid st → (own st).max_definition ≤ (function_table st).max_definition
unfolding function_table
max-le-function (root t) v = omega arith
max-le-function (inner true t p) v = omega (arith, (v.2 refl).0, max-le-function p v.0)
max-le-function (inner false t p) v = omega arith

frees-eq_nil : (o : Symbol) (i : ℕ) (frees : List Symbol) → frees ≡ [] → get_elem? frees i ≢ some o
frees-eq_nil o i frees e g = ground (arith, e, g)

pub stored-IsReachable :
    (st : SymbolTable) (n : String) (s : Symbol)
    → IsValid st
    → Dict.get (own st).store n ≡ some s
    → IsReachable st s
unfolding base function_table
stored-IsReachable (root t) n s v h = record {
  local = λ l. let (i, e, a, c) = v.entries.slot n s h l in (i, e, omega (arith, v.room, c));
  free = λ f. let (i, o, p) = v.entries.capture n s h f in (i, o, (p.0, p.1, p.2));
}
stored-IsReachable (inner true t p) n s v h = record {
  local = λ l.
      let (i, e, a, c) = v.1.entries.slot n s h l in
      (i, e, omega (arith, v.1.room, c, (v.2 refl).0, max-le-function p v.0));
  free = λ f.
      let (i, o, q) = v.1.entries.capture n s h f in
      absurd (frees-eq_nil o i t.frees (v.2 refl).1 q.1);
}
stored-IsReachable (inner false t p) n s v h = record {
  local = λ l. let (i, e, a, c) = v.1.entries.slot n s h l in (i, e, omega (arith, v.1.room, c));
  free = λ f. let (i, o, q) = v.1.entries.capture n s h f in (i, o, (q.0, q.1, q.2));
}

module _ (b : Builtins) where
  pub own-shadow_builtin :
      (name : String) (st : SymbolTable) → (own (shadow_builtin b name st)).store ≡ (own st).store
  unfolding shadow_builtin
  own-shadow_builtin name (root t) = ground arith
  own-shadow_builtin name (inner block t p) = ground arith

  pub define_free-stored :
      (orig : Symbol) (st : SymbolTable)
      → Dict.get (own (define_free b orig st).1).store (info orig).name
        ≡ some (define_free b orig st).0
  unfolding define_free
  define_free-stored orig (root t) = rw (own-shadow_builtin) (Dict.get-put_self _ _ _)
  define_free-stored orig (inner block t p) = rw (own-shadow_builtin) (Dict.get-put_self _ _ _)

  not_captured :
      (s : Symbol)
      → needs_capture false s ≡ false
      → ¬ HasScope scope_local s × ¬ HasScope scope_free s
  unfolding needs_capture is_scope
  not_captured s e = (λ l. ground (arith, e, l), λ f. ground (arith, e, f))

  pub captured :
      (block : Bool) (t : Table) (s : Symbol) (p : SymbolTable)
      → needs_capture block s ≡ true
      → bring_in b block t (some s, p)
        ≡ (some (define_free b s (inner block t p)).0, (define_free b s (inner block t p)).1)
  unfolding bring_in
  captured block t s p y = rw y

  pub passed_on :
      (block : Bool) (t : Table) (s : Symbol) (p : SymbolTable)
      → needs_capture block s ≡ false
      → bring_in b block t (some s, p) ≡ (some s, inner block t p)
  unfolding bring_in
  passed_on block t s p n = rw n

  passed_on-IsReachable :
      (block : Bool) (t : Table) (s : Symbol) (p : SymbolTable)
      → needs_capture block s ≡ false
      → IsReachable p s
      → IsReachable (inner block t p) s
  unfolding function_table
  passed_on-IsReachable true t s p n h = record { local = h.local; free = h.free }
  passed_on-IsReachable false t s p n h = record {
    local = λ l. absurd ((not_captured s n).0 l);
    free = λ f. absurd ((not_captured s n).1 f);
  }

  bring_in-IsReachable :
      (block : Bool) (t : Table) (r : Option Symbol × SymbolTable) (s : Symbol)
      → IsValid (bring_in b block t r).1
      → (bring_in b block t r).0 ≡ some s
      → ((s0 : Symbol) → r.0 ≡ some s0 → IsReachable r.1 s0)
      → IsReachable (bring_in b block t r).1 s
  bring_in-IsReachable block t (none, p) s v e ih = absurd (unfold bring_in in ground (arith, e))
  bring_in-IsReachable block t (some s0, p) s v e ih = elim (Bool-cases (needs_capture block s0)) [
    | inl y ↦
        subst (λ (r : Option Symbol × SymbolTable). IsValid r.1 → r.0 ≡ some s → IsReachable r.1 s)
          (sym (captured block t s0 p y))
          (λ v' e'.
            stored-IsReachable _ (info s0).name s v' (define_free-stored s0 (inner block t p) ∙ e'))
          v e
    | inr n ↦
        subst (λ (r : Option Symbol × SymbolTable). r.0 ≡ some s → IsReachable r.1 s)
          (sym (passed_on block t s0 p n))
          (λ e'.
            let same : s0 ≡ s = ground (arith, e') in
            passed_on-IsReachable block t s p (subst (λ x. needs_capture block x ≡ false) same n)
              (ih s e'))
          e
  ]

  resolve_builtin-IsReachable :
      (name : String) (t : Table) (s : Symbol)
      → (resolve_builtin b name t).0 ≡ some s
      → IsReachable (resolve_builtin b name t).1 s
  resolve_builtin-IsReachable name t s e = record {
    local = λ l. absurd (unfold resolve_builtin in ground (arith, e, l));
    free = λ f. absurd (unfold resolve_builtin in ground (arith, e, f));
  }

  pub looked_outside :
      (name : String) (block : Bool) (t : Table) (p : SymbolTable)
      → Dict.get t.store name ≡ none
      → resolve b name (inner block t p) ≡ bring_in b block t (resolve b name p)
  unfolding resolve
  looked_outside name block t p m = rw (m, resolve)

  -- In a valid chain, whatever `Resolve` returns can be addressed by the function that the chain
  -- ends in, as `Resolve` leaves it: a local has a slot below the function's maximum of locals,
  -- and a free symbol the index of its original in the function's captures.
  pub resolve-IsReachable :
      (name : String) (st : SymbolTable) (s : Symbol)
      → IsValid st
      → (resolve b name st).0 ≡ some s
      → IsReachable (resolve b name st).1 s
  unfolding resolve
  resolve-IsReachable name (root t) s v e = elim (Option-cases (Dict.get t.store name)) [
    | inl m ↦ rw (m, resolve) (resolve_builtin-IsReachable name t s (ground (arith, m, e)))
    | inr (s', m) ↦ rw (m, resolve) (stored-IsReachable (root t) name s v (ground (arith, m, e)))
  ]
  resolve-IsReachable name (inner block t p) s v e = elim (Option-cases (Dict.get t.store name)) [
    | inl m ↦
        subst (λ (r : Option Symbol × SymbolTable). IsValid r.1 → r.0 ≡ some s → IsReachable r.1 s)
          (sym (looked_outside name block t p m))
          (λ v' e'.
            bring_in-IsReachable block t _ s v' e' (λ s0. resolve-IsReachable name p s0 v.0))
          (resolve-IsValid b name (inner block t p) v) e
    | inr (s', m) ↦
        rw (m, resolve) (stored-IsReachable (inner block t p) name s v (ground (arith, m, e)))
  ]
