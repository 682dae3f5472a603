-- ===== src/Machine.antt =====
-- vm_loop.go: one turn of the loop of the machine, for the instructions that expressions without
-- calls, containers and captures use. Without calls the frame is the first one, at the bottom of the
-- stack: its locals, none of them captured by pointer, and the operands above them, the top first. `ip` is the position of the instruction that
-- comes next, `vm.ip + 1`.
pub mod Expression
pub mod Compile
pub mod Layout
pub mod Emission
pub mod Patching
pub mod Accepts
pub mod Correct
pub mod Fetch
pub mod Run
pub mod Pieces
pub mod Jumps
pub mod Branches
pub mod Values
pub mod Compiled
pub mod Leaves
use gad.Prelude.{
  String, ℕ, zero, suc, ◌+◌, Bool, true, false, not, Option, none, some, List, [], ◌∷◌, get_elem?,
  length, leb, if◌then◌else◌,
}
use gad.Prelude.Bytes.{word}
use gad.Prelude.Result.{Result, ok, err, ◌>>=◌}
use gad.Opcode.{
  Opcode, of_code, op_no_op, op_constant, op_get_local, op_set_local, op_binary_op, op_and_jump,
  op_or_jump, op_jump_nil, op_jump_not_nil, op_is_nil, op_not_is_nil, op_equal, op_not_equal,
  op_true, op_false, op_yes, op_no, op_jump, op_jump_falsy, op_nil, op_pop, op_unary,
}

-- What the loop asks of the objects. `equals_nil` is the test of the jumps, `is_nil` that of the
-- operators; a binary or unary operator can fail.
pub record Objects {ℓ} (V : Type ℓ) : Type ℓ where
  pub is_falsy : V → Bool
  pub equals_nil : V → Bool
  pub is_nil : V → Bool
  pub equal : V → V → Bool
  pub of_bool : Bool → V
  pub of_flag : Bool → V
  pub nil_value : V
  pub binary_op : ℕ → V → V → Result String V
  pub unary_op : ℕ → V → Result String V

pub record Frame {ℓ} (V : Type ℓ) : Type ℓ where
  pub ip : ℕ
  pub locals : List V
  pub stack : List V

-- int(vm.curInsts[vm.ip+2]) | int(vm.curInsts[vm.ip+1])<<8
unfoldable pub word_at : List ℕ → ℕ → Option ℕ
word_at insts ip = do
  lo ← get_elem? insts (ip + 2)
  hi ← get_elem? insts (ip + 1)
  some (word hi lo)

module _ {ℓ} {V : Type ℓ} where
  unfoldable pub pop : List V → Option (V × List V)
  pop [] = none
  pop (v ∷ s) = some (v, s)

  unfoldable pub pop_two : List V → Option (V × V × List V)
  pop_two (right ∷ left ∷ s) = some (left, right, s)
  pop_two _ = none

  unfoldable pub set_elem? : List V → ℕ → V → Option (List V)
  set_elem? [] i v = none
  set_elem? (x ∷ xs) zero v = some (v ∷ xs)
  set_elem? (x ∷ xs) (suc i) v = do rest ← set_elem? xs i v; some (x ∷ rest)

  abbrev pub moved : Frame V → ℕ → List V → Option (Result String (Frame V))
  moved f ip stack = some (ok (record f { ip = ip; stack = stack }))

  unfoldable pub with_value : Frame V → ℕ → List V → Result String V → Result String (Frame V)
  with_value f ip stack (ok v) = ok (record f { ip = ip; stack = v ∷ stack })
  with_value f ip stack (err e) = err e

abbrev pub stack_size : ℕ
stack_size = 2048

module _ {ℓ} {V : Type ℓ} where
  -- A push past the end of `vm.stack` panics. No turn pushes more than one value, so this is where the
  -- turn would leave too many cells in use.
  unfoldable pub within : Option (Result String (Frame V)) → Option (Result String (Frame V))
  within none = none
  within (some (err e)) = some (err e)
  within (some (ok f)) =
      if leb (length f.locals + length f.stack) stack_size then some (ok f) else none

module _ {ℓ} {V : Type ℓ} (o : Objects V) (constants : List V) (insts : List ℕ) where
  unfoldable pub execute : Opcode → Frame V → Option (Result String (Frame V))
  execute op_no_op f = moved f (f.ip + 1) f.stack
  execute op_constant f = do
    cidx ← word_at insts f.ip
    obj ← get_elem? constants cidx
    moved f (f.ip + 3) (obj ∷ f.stack)
  execute op_get_local f = do
    idx ← get_elem? insts (f.ip + 1)
    value ← get_elem? f.locals idx
    moved f (f.ip + 2) (value ∷ f.stack)
  execute op_set_local f = do
    idx ← get_elem? insts (f.ip + 1)
    top ← pop f.stack
    locals ← set_elem? f.locals idx top.0
    some (ok (record { ip = f.ip + 2; locals = locals; stack = top.1 }))
  execute op_binary_op f = do
    tok ← get_elem? insts (f.ip + 1)
    two ← pop_two f.stack
    some (with_value f (f.ip + 2) two.2 (o.binary_op tok two.0 two.1))
  execute op_unary f = do
    tok ← get_elem? insts (f.ip + 1)
    top ← pop f.stack
    some (with_value f (f.ip + 2) top.1 (o.unary_op tok top.0))
  execute op_and_jump f = do
    target ← word_at insts f.ip
    top ← pop f.stack
    if o.is_falsy top.0 then moved f target f.stack else moved f (f.ip + 3) top.1
  execute op_or_jump f = do
    target ← word_at insts f.ip
    top ← pop f.stack
    if o.is_falsy top.0 then moved f (f.ip + 3) top.1 else moved f target f.stack
  execute op_jump_nil f = do
    target ← word_at insts f.ip
    top ← pop f.stack
    if o.equals_nil top.0 then moved f target f.stack else moved f (f.ip + 3) f.stack
  execute op_jump_not_nil f = do
    target ← word_at insts f.ip
    top ← pop f.stack
    if o.equals_nil top.0 then moved f (f.ip + 3) top.1 else moved f target f.stack
  execute op_jump_falsy f = do
    target ← word_at insts f.ip
    top ← pop f.stack
    if o.is_falsy top.0 then moved f target top.1 else moved f (f.ip + 3) top.1
  execute op_jump f = do target ← word_at insts f.ip; moved f target f.stack
  execute op_is_nil f = do
    top ← pop f.stack
    moved f (f.ip + 1) (o.of_bool (o.is_nil top.0) ∷ top.1)
  execute op_not_is_nil f = do
    top ← pop f.stack
    moved f (f.ip + 1) (o.of_bool (not (o.is_nil top.0)) ∷ top.1)
  execute op_equal f = do
    two ← pop_two f.stack
    moved f (f.ip + 1) (o.of_bool (o.equal two.0 two.1) ∷ two.2)
  execute op_not_equal f = do
    two ← pop_two f.stack
    moved f (f.ip + 1) (o.of_bool (not (o.equal two.0 two.1)) ∷ two.2)
  execute op_true f = moved f (f.ip + 1) (o.of_bool true ∷ f.stack)
  execute op_false f = moved f (f.ip + 1) (o.of_bool false ∷ f.stack)
  execute op_yes f = moved f (f.ip + 1) (o.of_flag true ∷ f.stack)
  execute op_no f = moved f (f.ip + 1) (o.of_flag false ∷ f.stack)
  execute op_nil f = moved f (f.ip + 1) (o.nil_value ∷ f.stack)
  execute op_pop f = do top ← pop f.stack; moved f (f.ip + 1) top.1
  execute _ f = none

  -- `none` is a panic, or an instruction that is not modelled here; an error is thrown.
  unfoldable pub step : Frame V → Option (Result String (Frame V))
  step f = do b ← get_elem? insts f.ip; op ← of_code b; within (execute op f)
