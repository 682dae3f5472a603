-- ===== src/SymbolTable/Slots.antt =====
-- The slots of the locals that one function can see.
use gad.Prelude.{String, ℕ, ◌+◌, ◌<◌, ◌≡◌, ◌≢◌, refl, sym, ap, ◌∙◌, true, some, arith}
use gad.Prelude.Int.{pos}
use gad.Prelude.Dict
use gad.SymbolTable.Symbols.{scope_local, Symbol, info}
use gad.SymbolTable.Tables.{Table, SymbolTable, inner, own, next_index}
use gad.SymbolTable.Entries.{HasScope}
use gad.SymbolTable.Validity.{IsValid, base, IsTable-own}
use gad.SymbolTable.Validity.{next_index-eq}

-- `s` stands under `n` in the innermost table, or in one round it that belongs to the same
-- function; it may be shadowed there.
pub data Holds : SymbolTable → String → Symbol → Type 0 where
  here :
      {st : SymbolTable} {n : String} {s : Symbol}
      → Dict.get (own st).store n ≡ some s
      → Holds st n s
  outside :
      {t : Table} {p : SymbolTable} {n : String} {s : Symbol}
      → Holds p n s
      → Holds (inner true t p) n s

next_index-inner :
    (t : Table) (p : SymbolTable) → next_index (inner true t p) ≡ next_index p + t.num_definition
unfolding next_index
next_index-inner t p = refl

Holds-bound :
    {st : SymbolTable} {n : String} {s : Symbol}
    → IsValid st
    → Holds st n s
    → HasScope scope_local s
    → (i : ℕ) × ((info s).index ≡ pos i) × (i < next_index st)
Holds-bound {st} {n} {s} v (here h) l =
    let (i, e, a, c) = (IsTable-own st v).entries.slot n s h l in
    (i, e, omega (arith, next_index-eq st, c))
Holds-bound v (outside {t} {p} h) l =
    let (i, e, c) = Holds-bound v.0 h l in (i, e, omega (arith, c, next_index-inner t p))

-- A local of a block and one outside it have different slots.
here-outside :
    {t : Table} {p : SymbolTable} {m : String} {s s' : Symbol} (n : String)
    → IsValid (inner true t p)
    → Dict.get t.store n ≡ some s
    → Holds p m s'
    → HasScope scope_local s
    → HasScope scope_local s'
    → (info s).index ≢ (info s').index
unfolding base
here-outside {t} {p} {m} {s} {s'} n v h o l l' e =
    let (i, a, low, c) = v.1.entries.slot n s h l in
    let (j, a', c') = Holds-bound v.0 o l' in
    let same : i ≡ j = ground (arith, sym a ∙ e ∙ a') in omega (arith, low, c', same)

-- In a valid chain, of all the locals that the tables of the current function hold, shadowed ones
-- included, no two have the same slot: equal slots are those of one name and one symbol.
pub slot_unique :
    {st : SymbolTable} {n m : String} {s s' : Symbol}
    → IsValid st
    → Holds st n s
    → Holds st m s'
    → HasScope scope_local s
    → HasScope scope_local s'
    → (info s).index ≡ (info s').index
    → (n ≡ m) × (s ≡ s')
slot_unique {st} {n} {m} {s} {s'} v (here h) (here h') l l' e =
    let same = (IsTable-own st v).entries.unique n m s s' h h' l l' e in
    let found : Dict.get (own st).store n ≡ some s' = ap (Dict.get (own st).store) same ∙ h' in
    (same, ground (arith, sym h ∙ found))
slot_unique {n = n} v (here h) (outside h') l l' e = absurd (here-outside n v h h' l l' e)
slot_unique {m = m} v (outside h) (here h') l l' e = absurd (here-outside m v h' h l' l (sym e))
slot_unique v (outside h) (outside h') l l' e = slot_unique v.0 h h' l l' e
