-- ===== src/SymbolTable/Validity.antt =====
-- The invariant of a chain of tables, kept by every operation.
use gad.Prelude.{
  ℕ, ◌+◌, ◌≤◌, ◌≡◌, ◌⊎◌, inl, inr, refl, ◌∙◌, true, false, Bool-cases, if◌then◌else◌, ltb, [],
  arith,
}
use gad.SymbolTable.Tables.{
  Table, SymbolTable, root, inner, own, with_own, in_block, next_index, raise_max, update_max_defs,
}
use gad.SymbolTable.Entries.{Entries}

-- The first slot of the innermost table: a block goes on where its parent stands.
unfoldable pub base : SymbolTable → ℕ
base (root t) = 0
base (inner block t p) = if block then next_index p else 0

-- A table that defined something has raised its maximum to the end of its slots.
abbrev pub Room : ℕ → Table → Type 0
Room lo t = (t.num_definition ≡ 0) ⊎ (lo + t.num_definition ≤ t.max_definition)

-- The locals of a table have the slots from `lo` up to its count, and there is room for them.
pub record IsTable (lo : ℕ) (t : Table) : Type 0 where
  pub entries : Entries lo (lo + t.num_definition) t.frees t.store
  pub room : Room lo t

-- A block shares the slots and the captures of the function round it.
abbrev pub IsValid : SymbolTable → Type 0
IsValid (root t) = IsTable 0 t
IsValid (inner block t p) =
    IsValid p
    × IsTable (base (inner block t p)) t
    × (block ≡ true → (t.max_definition ≤ (own p).max_definition) × (t.frees ≡ []))

pub next_index-eq : (st : SymbolTable) → next_index st ≡ base st + (own st).num_definition
unfolding next_index base
next_index-eq (root t) = omega arith
next_index-eq (inner block t p) = ground arith

-- The table of a valid chain.
pub IsTable-own : (st : SymbolTable) → IsValid st → IsTable (base st) (own st)
unfolding base
IsTable-own (root t) v = v
IsTable-own (inner block t p) v = v.1

-- `updateMaxDefs` raises the maximum of this table and of those that share its function, and
-- changes nothing else.
pub base-with_own : (st : SymbolTable) (t : Table) → base (with_own st t) ≡ base st
unfolding base
base-with_own (root t') t = refl
base-with_own (inner block t' p) t = refl

pub next_index-update_max_defs :
    (m : ℕ) (st : SymbolTable) → next_index (update_max_defs m st) ≡ next_index st
unfolding next_index update_max_defs
next_index-update_max_defs m (root t) = ground arith
next_index-update_max_defs m (inner true t p) = ground (arith, next_index-update_max_defs m p)
next_index-update_max_defs m (inner false t p) = ground arith

pub max-update_max_defs :
    (m : ℕ) (st : SymbolTable)
    → (m ≤ (own (update_max_defs m st)).max_definition)
      × ((own st).max_definition ≤ (own (update_max_defs m st)).max_definition)
unfolding update_max_defs
max-update_max_defs m (root t) = ground arith
max-update_max_defs m (inner block t p) = ground arith

pub raise_max-IsTable :
    (lo m : ℕ) (t : Table)
    → Entries lo (lo + t.num_definition) t.frees t.store
    → lo + t.num_definition ≤ m ⊎ Room lo t
    → IsTable lo (raise_max m t)
unfolding raise_max
raise_max-IsTable lo m t e h = elim (Bool-cases (ltb t.max_definition m)) [
  | inl y ↦ rw y (record { entries = e; room = ground arith })
  | inr n ↦ rw n (record { entries = e; room = ground arith })
]

pub max-raise_max :
    (m : ℕ) (t : Table)
    → ((raise_max m t).max_definition ≡ (if ltb t.max_definition m then m else t.max_definition))
unfolding raise_max
max-raise_max m t = ground arith

frees-raise_max : (m : ℕ) (t : Table) → (raise_max m t).frees ≡ t.frees
unfolding raise_max
frees-raise_max m t = ground arith

pub update_max_defs-IsValid :
    (m : ℕ) (st : SymbolTable) → IsValid st → IsValid (update_max_defs m st)
unfolding update_max_defs base
update_max_defs-IsValid m (root t) v = raise_max-IsTable 0 m t v.entries (inr v.room)
update_max_defs-IsValid m (inner true t p) v = (
  update_max_defs-IsValid m p v.0,
  rw (next_index-update_max_defs m p)
      (raise_max-IsTable (next_index p) m t v.1.entries (inr v.1.room)),
  λ b. (
    ground (arith, v.2 refl, max-raise_max m t, max-update_max_defs m p),
    frees-raise_max m t ∙ (v.2 refl).1,
  ),
)
update_max_defs-IsValid m (inner false t p) v =
    (v.0, raise_max-IsTable 0 m t v.1.entries (inr v.1.room), λ b. cc)

-- A table with one more slot keeps the chain valid once the maxima are raised.
pub grown-IsValid :
    (m : ℕ) (st : SymbolTable) (t : Table)
    → IsValid st
    → Entries (base st) (base st + t.num_definition) t.frees t.store
    → base st + t.num_definition ≤ m
    → t.max_definition ≡ (own st).max_definition
    → t.frees ≡ (own st).frees
    → IsValid (update_max_defs m (with_own st t))
unfolding update_max_defs base
grown-IsValid m (root t') t v e h k f = raise_max-IsTable 0 m t e (inl h)
grown-IsValid m (inner true t' p) t v e h k f = (
  update_max_defs-IsValid m p v.0,
  rw (next_index-update_max_defs m p) (raise_max-IsTable (next_index p) m t e (inl h)),
  λ b. (
    ground (arith, k, v.2 refl, max-raise_max m t, max-update_max_defs m p),
    frees-raise_max m t ∙ f ∙ (v.2 refl).1,
  ),
)
grown-IsValid m (inner false t' p) t v e h k f = (v.0, raise_max-IsTable 0 m t e (inl h), λ b. cc)

-- Fields that the invariant does not speak of, and new captures, may change.
pub with_own-IsValid :
    (st : SymbolTable) (t : Table)
    → IsValid st
    → Entries (base st) (base st + t.num_definition) t.frees t.store
    → t.num_definition ≡ (own st).num_definition
    → t.max_definition ≡ (own st).max_definition
    → (in_block st ≡ true → t.frees ≡ (own st).frees)
    → IsValid (with_own st t)
unfolding base in_block
with_own-IsValid (root t') t v e h k f = record { entries = e; room = ground (arith, v.room) }
with_own-IsValid (inner block t' p) t v e h k f = (
  v.0,
  record { entries = e; room = ground (arith, v.1.room) },
  λ b. (ground (arith, k, v.2 b), f b ∙ (v.2 b).1),
)
