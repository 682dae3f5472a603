-- ===== src/SymbolTable/History.antt =====
-- Every chain that the compiler can make with the operations of symbol_table.go.
use gad.Prelude.Result.{Result, ok, err}
use gad.Prelude.{String, [], ◌∷◌, ◌≡◌, ◌&&◌, Bool-cases, inl, inr, refl, Bool, some, List, arith}
use mathlib.Core.Path.{subst}
use gad.SymbolTable.Symbols.{SymbolInfo, Symbol, info, scope_local}
use gad.SymbolTable.Tables.{
  Builtins, SymbolTable, root, inner, own, next_index, NamedParam, new_symbol_table, fork, parent,
  enable_params,
}
use gad.SymbolTable.Define.{
  DefineError, define_local, define_global, define_globals, cons_global, set_params,
  set_named_params,
}
use gad.SymbolTable.Resolve.{resolve, disable_builtin}
use gad.SymbolTable.Entries.{Entries-empty, HasScope}
use gad.SymbolTable.Validity.{IsValid, base, IsTable-own, with_own-IsValid}
use gad.SymbolTable.Defining.{
  define_local-IsValid, define_global-IsValid, set_params-IsValid, set_named_params-IsValid,
}
use gad.SymbolTable.Resolving.{resolve-IsValid}
use gad.SymbolTable.Slots.{Holds, slot_unique}

-- One operation on the current chain. `leaves` is `Parent`.
pub data Step (b : Builtins) (st : SymbolTable) : SymbolTable → Type 0 where
  forks : (block : Bool) → Step b st (fork block st)
  leaves : (skip_block : Bool) {st' : SymbolTable} → parent skip_block st ≡ some st' → Step b st st'
  enables_params : (v : Bool) → Step b st (enable_params v st)
  defines_local : (name : String) → Step b st (define_local b name st).2
  defines_global : (name : String) → Step b st (define_global b name st).1
  defines_globals : (names : List String) → Step b st (define_globals b names st).1
  sets_params :
      (var_params : Bool) (names : List String) (types : List (List SymbolInfo))
      → Step b st (set_params b var_params names types st).1
  sets_named_params : (ps : List NamedParam) → Step b st (set_named_params b ps st).1
  resolves : (name : String) → Step b st (resolve b name st).1
  disables : (names : List String) → Step b st (disable_builtin names st)

pub data Reach (b : Builtins) : SymbolTable → Type 0 where
  starts : Reach b new_symbol_table
  goes : {st st' : SymbolTable} → Reach b st → Step b st st' → Reach b st'

fork-IsValid : (block : Bool) (st : SymbolTable) → IsValid st → IsValid (fork block st)
unfolding fork
fork-IsValid block st v =
    (v, record { entries = Entries-empty _ _; room = inl refl }, λ b. (omega arith, refl))

parent-IsValid :
    (skip_block : Bool) (st st' : SymbolTable)
    → IsValid st
    → parent skip_block st ≡ some st'
    → IsValid st'
unfolding parent
parent-IsValid skip_block (root t) st' v e = absurd (ground arith)
parent-IsValid skip_block (inner block t p) st' v e = elim (Bool-cases (skip_block && block)) [
  | inl y ↦ parent-IsValid skip_block p st' v.0 (unfold parent in ground (arith, e, y))
  | inr n ↦ let same : p ≡ st' = ground (arith, e, n) in subst IsValid same v.0
]

disable_builtin-Keeps :
    (names : List String) (st : SymbolTable)
    → (next_index (disable_builtin names st) ≡ next_index st)
      × ((own (disable_builtin names st)).max_definition ≡ (own st).max_definition)
unfolding disable_builtin next_index
disable_builtin-Keeps names (root t) = (refl, refl)
disable_builtin-Keeps names (inner block t p) =
    let k = disable_builtin-Keeps names p in (rw k.0, refl)

disable_builtin-IsValid :
    (names : List String) (st : SymbolTable) → IsValid st → IsValid (disable_builtin names st)
unfolding disable_builtin
disable_builtin-IsValid names (root t) v = record { entries = v.entries; room = v.room }
disable_builtin-IsValid names (inner block t p) v =
    let k = disable_builtin-Keeps names p in
    (
      disable_builtin-IsValid names p v.0,
      unfold base in rw k.0 v.1,
      λ e. (rw k.1 (v.2 e).0, (v.2 e).1),
    )

enable_params-IsValid : (w : Bool) (st : SymbolTable) → IsValid st → IsValid (enable_params w st)
unfolding enable_params
enable_params-IsValid w st v =
    with_own-IsValid st _ v (IsTable-own st v).entries refl refl (λ b. refl)

cons_global-IsValid :
    (r : Result DefineError Symbol × SymbolTable)
    (next : SymbolTable → Result DefineError (List Symbol) × SymbolTable)
    → IsValid r.1
    → ((st : SymbolTable) → IsValid st → IsValid (next st).1)
    → IsValid (cons_global r next).1
unfolding cons_global
cons_global-IsValid (err e, st) next v k = v
cons_global-IsValid (ok s, st) next v k = k st v

define_globals-IsValid :
    (b : Builtins) (names : List String) (st : SymbolTable)
    → IsValid st
    → IsValid (define_globals b names st).1
unfolding define_globals
define_globals-IsValid b [] st v = v
define_globals-IsValid b (name ∷ names) st v =
    cons_global-IsValid (define_global b name st) (λ st'. define_globals b names st')
      (define_global-IsValid b name st v) (define_globals-IsValid b names)

pub Step-IsValid : {b : Builtins} {st st' : SymbolTable} → Step b st st' → IsValid st → IsValid st'
Step-IsValid {b} {st} (forks block) v = fork-IsValid block st v
Step-IsValid {b} {st} {st'} (leaves skip_block e) v = parent-IsValid skip_block st st' v e
Step-IsValid {b} {st} (enables_params w) v = enable_params-IsValid w st v
Step-IsValid {b} {st} (defines_local name) v = define_local-IsValid b name st v
Step-IsValid {b} {st} (defines_global name) v = define_global-IsValid b name st v
Step-IsValid {b} {st} (defines_globals names) v = define_globals-IsValid b names st v
Step-IsValid {b} {st} (sets_params var_params names types) v =
    set_params-IsValid b var_params names types st v
Step-IsValid {b} {st} (sets_named_params ps) v = set_named_params-IsValid b ps st v
Step-IsValid {b} {st} (resolves name) v = resolve-IsValid b name st v
Step-IsValid {b} {st} (disables names) v = disable_builtin-IsValid names st v

-- Whatever the compiler does with a new symbol table (entering and leaving blocks and functions,
-- defining locals, globals and parameters, also where this fails half way, resolving names and
-- disabling builtins), the chain that it holds satisfies the invariant.
pub Reach-IsValid : {b : Builtins} {st : SymbolTable} → Reach b st → IsValid st
Reach-IsValid starts = record { entries = Entries-empty _ _; room = inl refl }
Reach-IsValid (goes r step) = Step-IsValid step (Reach-IsValid r)

-- Of all the locals that the current function holds after any such history, shadowed ones
-- included, two with one slot are one symbol under one name.
pub Reach-slot_unique :
    {b : Builtins} {st : SymbolTable} {n m : String} {s s' : Symbol}
    → Reach b st
    → Holds st n s
    → Holds st m s'
    → HasScope scope_local s
    → HasScope scope_local s'
    → (info s).index ≡ (info s').index
    → (n ≡ m) × (s ≡ s')
Reach-slot_unique r = slot_unique (Reach-IsValid r)
