-- ===== src/Emitter/Positions.antt =====
-- The source map: `SourcePos` of any byte of an instruction that `emit` wrote.
use gad.Prelude.{
  ℕ, zero, suc, ◌≤◌, ◌<◌, ◌≡◌, refl, sym, ap, Option, none, some, List, ◌++◌, arith, length,
  length-append,
}
use gad.Prelude.Int.{pos}
use gad.Prelude.Result.{Result, ok, err}
use native.Mathlib.Decide.{dec_lt}
use gad.Opcode.{Opcode}
use mathlib.Core.Path.{subst}
use gad.Instruction.Roundtrip.{length-make}
use gad.Instruction.{MakeError, make_instruction}
use gad.Emitter.{Emitter, emit, update, source_pos, source_pos_at}

-- No entry lies at or past the end of the instructions.
pub record IsBounded (c : Emitter) : Type 0 where
  pub bounded : (k : ℕ) → length c.instructions ≤ k → c.source_map k ≡ none

-- A read between an entry and the next one finds that entry.
source_pos_at_gap :
    (m : ℕ → Option ℕ) (p v ip : ℕ)
    → m p ≡ some v
    → p ≤ ip
    → ((k : ℕ) → p < k → k ≤ ip → m k ≡ none)
    → source_pos_at m ip ≡ v
unfolding source_pos_at
source_pos_at_gap m p v zero e le gap = let z : p ≡ 0 = omega arith in rw (← z) (ground arith)
source_pos_at_gap m p v (suc ip) e le gap = elim (dec_lt p (suc ip)) [
  | yes h ↦ ground (
    arith,
    gap (suc ip),
    source_pos_at_gap m p v ip e (omega arith) (λ k a b. gap k a (omega arith)),
  )
  | no h ↦ let z : p ≡ suc ip = omega arith in ground (arith, e, ap m z)
]

-- Reads below an entry do not see it.
source_pos_at_below :
    (m : ℕ → Option ℕ) (p v ip : ℕ) → ip < p → source_pos_at (update m p v) ip ≡ source_pos_at m ip
unfolding source_pos_at update
source_pos_at_below m p v zero h = ground arith
source_pos_at_below m p v (suc ip) h = ground (arith, source_pos_at_below m p v ip (omega arith))

-- What `emit` leaves when it does not panic.
abbrev pub emitted : Emitter → ℕ → List ℕ → Emitter
emitted c file_pos inst = record {
  instructions = c.instructions ++ inst;
  source_map = update c.source_map (length c.instructions) file_pos;
}

pub emit_cases :
    (c : Emitter) (file_pos : ℕ) (op : Opcode) (args : List ℕ) (r : Emitter × ℕ)
    → emit c file_pos op args ≡ some r
    → (inst : List ℕ) × (make_instruction op args ≡ ok inst)
      × (r ≡ (emitted c file_pos inst, length c.instructions))
unfolding emit
emit_cases c file_pos op args r e = go (make_instruction op args) refl
  where
    go :
        (m : Result MakeError (List ℕ))
        → make_instruction op args ≡ m
        → (inst : List ℕ) × (make_instruction op args ≡ ok inst)
          × (r ≡ (emitted c file_pos inst, length c.instructions))
    go (ok inst) q = (inst, q, ground (arith, e, q))
    go (err x) q = absurd (ground (arith, e, q))

abbrev Located : Emitter → ℕ → Emitter × ℕ → Type 0
Located c file_pos r =
    (r.1 ≡ length c.instructions)
    × ((ip : ℕ) → r.1 ≤ ip → source_pos r.0.source_map (pos ip) ≡ file_pos)
    × ((ip : ℕ) → ip < r.1 → source_pos r.0.source_map (pos ip) ≡ source_pos c.source_map (pos ip))
    × IsBounded r.0

emitted-Located :
    (c : Emitter) (file_pos : ℕ) (inst : List ℕ)
    → IsBounded c
    → 0 < length inst
    → Located c file_pos (emitted c file_pos inst, length c.instructions)
unfolding source_pos
emitted-Located c file_pos inst v n = (
  refl,
  λ ip h.
      source_pos_at_gap m p file_pos ip (unfold update in ground arith) h
        (λ k a b. unfold update in ground (arith, v.bounded k)),
  λ ip h. source_pos_at_below c.source_map p file_pos ip h,
  record {
    bounded =
        λ k h. unfold update in ground (arith, v.bounded k, length-append c.instructions inst);
  },
)
  where
    p : ℕ
    p = length c.instructions

    m : ℕ → Option ℕ
    m = update c.source_map p file_pos

-- After an `emit` that does not panic, on instructions with no entry of the source map past their
-- end: the new instruction starts at the old end; `SourcePos` of every byte from there on is the
-- position that was given; `SourcePos` of every byte before is what it was; and the source map
-- again has no entry past the end.
pub source_pos-emit :
    (c : Emitter) (file_pos : ℕ) (op : Opcode) (args : List ℕ) (r : Emitter × ℕ)
    → IsBounded c
    → emit c file_pos op args ≡ some r
    → (r.1 ≡ length c.instructions)
      × ((ip : ℕ) → r.1 ≤ ip → source_pos r.0.source_map (pos ip) ≡ file_pos)
      × ((ip : ℕ)
          → ip < r.1
          → source_pos r.0.source_map (pos ip) ≡ source_pos c.source_map (pos ip))
      × IsBounded r.0
source_pos-emit c file_pos op args r v e =
    let i = emit_cases c file_pos op args r e in
    subst (Located c file_pos) (sym i.2)
      (emitted-Located c file_pos i.0 v (length-make op args i.0 i.1))
