-- ===== src/SymbolTable/Entries.antt =====
-- What holds of the store of one table whose locals have the slots from `lo` up to `hi`.
use gad.Prelude.{String, ℕ, ◌≤◌, ◌<◌, ◌≡◌, inl, inr, sym, ap, ◌∙◌, some, List, [], get_elem?, arith}
use mathlib.Core.Path.{subst, subst₂}
use gad.Prelude.Int.{pos}
use gad.Prelude.Dict
use gad.SymbolTable.Symbols.{SymbolScope, scope_local, scope_free, Symbol, at, info, original}

abbrev pub Store : Type 0
Store = List (String × Symbol)

abbrev pub Has : Store → String → Symbol → Type 0
Has store n s = Dict.get store n ≡ some s

abbrev pub HasScope : SymbolScope → Symbol → Type 0
HasScope sc s = (info s).scope ≡ sc

-- A symbol is stored under its name; the slot of a local is in the range and its own; a free
-- symbol points to the captured symbol, of the same name, in the list of captures.
pub record Entries (lo hi : ℕ) (frees : List Symbol) (store : Store) : Type 0 where
  pub named : (n : String) (s : Symbol) → Has store n s → (info s).name ≡ n
  pub slot :
      (n : String) (s : Symbol)
      → Has store n s
      → HasScope scope_local s
      → (i : ℕ) × ((info s).index ≡ pos i) × (lo ≤ i) × (i < hi)
  pub unique :
      (n m : String) (s s' : Symbol)
      → Has store n s
      → Has store m s'
      → HasScope scope_local s
      → HasScope scope_local s'
      → (info s).index ≡ (info s').index
      → n ≡ m
  pub capture :
      (n : String) (s : Symbol)
      → Has store n s
      → HasScope scope_free s
      → (i : ℕ) × (o : Symbol) × (((info s).index ≡ pos i)
          × (get_elem? frees i ≡ some o)
          × (original s ≡ at o)
          × ((info o).name ≡ n))

pub Entries-empty : (lo hi : ℕ) → Entries lo hi [] []
unfolding Dict.get
Entries-empty lo hi = record {
  named = λ n s h. absurd (ground arith);
  slot = λ n s h l. absurd (ground arith);
  unique = λ n m s s' h h' l l' e. absurd (ground arith);
  capture = λ n s h f. absurd (ground arith);
}

-- The captures that a free symbol may have.
abbrev pub Capture : List Symbol → String → Symbol → Type 0
Capture frees n s =
    (i : ℕ) × (o : Symbol) × (((info s).index ≡ pos i)
      × (get_elem? frees i ≡ some o)
      × (original s ≡ at o)
      × ((info o).name ≡ n))

pos-injective : (i j : ℕ) → pos i ≡ pos j → i ≡ j
pos-injective i j e = ground arith

-- A new entry under any name keeps this, where a local takes the slot `hi`, which is new.
module _ {lo hi : ℕ} {frees : List Symbol} {store : Store} (v : Entries lo hi frees store) (hi' : ℕ)
    (frees' : List Symbol) (name : String) (new : Symbol) (same : (info new).name ≡ name)
    (local : HasScope scope_local new → ((info new).index ≡ pos hi) × (lo ≤ hi) × (hi < hi'))
    (free : HasScope scope_free new → Capture frees' name new) (grows : hi ≤ hi')
    (keeps : (i : ℕ) (o : Symbol) → get_elem? frees i ≡ some o → get_elem? frees' i ≡ some o) where
  put-named : (n : String) (s : Symbol) → Has (Dict.put store name new) n s → (info s).name ≡ n
  put-named n s h = elim (Dict.get-put_cases store name new n s h) [
    | inl (a, b) ↦ ap (λ t. (info t).name) b ∙ same ∙ sym a
    | inr old ↦ v.named n s old
  ]

  put-slot :
      (n : String) (s : Symbol)
      → Has (Dict.put store name new) n s
      → HasScope scope_local s
      → (i : ℕ) × ((info s).index ≡ pos i) × (lo ≤ i) × (i < hi')
  put-slot n s h l = elim (Dict.get-put_cases store name new n s h) [
    | inl (a, b) ↦
        let f = local (subst (HasScope scope_local) b l) in
        (hi, ap (λ t. (info t).index) b ∙ f.0, f.1, f.2)
    | inr old ↦ let f = v.slot n s old l in (f.0, f.1, f.2, omega (arith, f.3))
  ]

  -- A new local and an old one have different slots.
  new-old :
      (n : String) (s s' : Symbol)
      → s ≡ new
      → Has store n s'
      → HasScope scope_local s
      → HasScope scope_local s'
      → (info s).index ≡ (info s').index
      → ⊥
  new-old n s s' b old l l' e =
      let f = local (subst (HasScope scope_local) b l) in
      let g = v.slot n s' old l' in
      let same_slot = pos-injective hi g.0 (sym (ap (λ t. (info t).index) b ∙ f.0) ∙ e ∙ g.1) in
      omega (arith, same_slot, g.3)

  put_unique :
      (n m : String) (s s' : Symbol)
      → Has (Dict.put store name new) n s
      → Has (Dict.put store name new) m s'
      → HasScope scope_local s
      → HasScope scope_local s'
      → (info s).index ≡ (info s').index
      → n ≡ m
  put_unique n m s s' h h' l l' e = elim (Dict.get-put_cases store name new n s h) [
    | inl (a, b) ↦ elim (Dict.get-put_cases store name new m s' h') [
      | inl (a', b') ↦ a ∙ sym a'
      | inr old' ↦ absurd (new-old m s s' b old' l l' e)
    ]
    | inr old ↦ elim (Dict.get-put_cases store name new m s' h') [
      | inl (a', b') ↦ absurd (new-old n s' s b' old l' l (sym e))
      | inr old' ↦ v.unique n m s s' old old' l l' e
    ]
  ]

  put-Capture :
      (n : String) (s : Symbol)
      → Has (Dict.put store name new) n s
      → HasScope scope_free s
      → Capture frees' n s
  put-Capture n s h f = elim (Dict.get-put_cases store name new n s h) [
    | inl (a, b) ↦ subst₂ (Capture frees') (sym a) (sym b) (free (subst (HasScope scope_free) b f))
    | inr old ↦ let (i, o, p) = v.capture n s old f in (i, o, (p.0, keeps i o p.1, p.2, p.3))
  ]

  pub Entries-put : Entries lo hi' frees' (Dict.put store name new)
  Entries-put = record {
    named = put-named;
    slot = put-slot;
    unique = put_unique;
    capture = put-Capture;
  }
