-- ===== src/Opcode.antt =====
-- opcodes.go: the operation codes, their byte values and the widths of their operands.
use gad.Prelude.{ℕ, ◌≡◌, refl, Option, some, List, [], ◌∷◌, get_elem?}

pub data Opcode : Type 0 where
  op_no_op op_constant op_call op_get_global : Opcode
  op_set_global op_get_local op_set_local op_get_builtin : Opcode
  op_binary_op op_unary op_equal op_not_equal : Opcode
  op_jump op_jump_falsy op_and_jump op_or_jump : Opcode
  op_dict op_array op_slice_index op_get_index : Opcode
  op_set_index op_nil op_std_in op_std_out : Opcode
  op_std_err op_dot_name op_dot_file op_is_module : Opcode
  op_pop op_get_free op_set_free op_get_local_ptr : Opcode
  op_get_free_ptr op_closure op_iter_init op_iter_next : Opcode
  op_iter_next_else op_iter_key op_iter_value op_load_module : Opcode
  op_store_module op_setup_try op_setup_catch op_setup_finally : Opcode
  op_throw op_finalizer op_return op_define_local : Opcode
  op_true op_false op_yes op_no : Opcode
  op_call_name op_jump_nil op_jump_not_nil op_key_value_array : Opcode
  op_key_value op_callee op_args op_named_args : Opcode
  op_text_writer op_is_nil op_not_is_nil : Opcode

-- The codes in the order of the constants: the code of an operation is its place here.
abbrev pub opcodes : List Opcode
opcodes =
    op_no_op ∷ op_constant ∷ op_call ∷ op_get_global ∷ op_set_global ∷ op_get_local ∷ op_set_local
    ∷ op_get_builtin ∷ op_binary_op ∷ op_unary ∷ op_equal ∷ op_not_equal ∷ op_jump ∷ op_jump_falsy
    ∷ op_and_jump ∷ op_or_jump ∷ op_dict ∷ op_array ∷ op_slice_index ∷ op_get_index ∷ op_set_index
    ∷ op_nil ∷ op_std_in ∷ op_std_out ∷ op_std_err ∷ op_dot_name ∷ op_dot_file ∷ op_is_module
    ∷ op_pop ∷ op_get_free ∷ op_set_free ∷ op_get_local_ptr ∷ op_get_free_ptr ∷ op_closure
    ∷ op_iter_init ∷ op_iter_next ∷ op_iter_next_else ∷ op_iter_key ∷ op_iter_value ∷ op_load_module
    ∷ op_store_module ∷ op_setup_try ∷ op_setup_catch ∷ op_setup_finally ∷ op_throw ∷ op_finalizer
    ∷ op_return ∷ op_define_local ∷ op_true ∷ op_false ∷ op_yes ∷ op_no ∷ op_call_name ∷ op_jump_nil
    ∷ op_jump_not_nil ∷ op_key_value_array ∷ op_key_value ∷ op_callee ∷ op_args ∷ op_named_args
    ∷ op_text_writer ∷ op_is_nil ∷ op_not_is_nil ∷ []

unfoldable pub code : Opcode → ℕ
code op_no_op = 0
code op_constant = 1
code op_call = 2
code op_get_global = 3
code op_set_global = 4
code op_get_local = 5
code op_set_local = 6
code op_get_builtin = 7
code op_binary_op = 8
code op_unary = 9
code op_equal = 10
code op_not_equal = 11
code op_jump = 12
code op_jump_falsy = 13
code op_and_jump = 14
code op_or_jump = 15
code op_dict = 16
code op_array = 17
code op_slice_index = 18
code op_get_index = 19
code op_set_index = 20
code op_nil = 21
code op_std_in = 22
code op_std_out = 23
code op_std_err = 24
code op_dot_name = 25
code op_dot_file = 26
code op_is_module = 27
code op_pop = 28
code op_get_free = 29
code op_set_free = 30
code op_get_local_ptr = 31
code op_get_free_ptr = 32
code op_closure = 33
code op_iter_init = 34
code op_iter_next = 35
code op_iter_next_else = 36
code op_iter_key = 37
code op_iter_value = 38
code op_load_module = 39
code op_store_module = 40
code op_setup_try = 41
code op_setup_catch = 42
code op_setup_finally = 43
code op_throw = 44
code op_finalizer = 45
code op_return = 46
code op_define_local = 47
code op_true = 48
code op_false = 49
code op_yes = 50
code op_no = 51
code op_call_name = 52
code op_jump_nil = 53
code op_jump_not_nil = 54
code op_key_value_array = 55
code op_key_value = 56
code op_callee = 57
code op_args = 58
code op_named_args = 59
code op_text_writer = 60
code op_is_nil = 61
code op_not_is_nil = 62

-- `Opcode(b)` of a byte, where the tables have an entry for it.
unfoldable pub of_code : ℕ → Option Opcode
of_code b = get_elem? opcodes b

-- Reading back the byte of an operation gives the operation.
pub of_code-code : (op : Opcode) → of_code (code op) ≡ some op
unfolding of_code code
of_code-code op_no_op = refl
of_code-code _ = refl

-- The widths of the operands in bytes. `OpTextWriter` has no entry in the source's table, so its
-- entry is the zero value, no operands.
unfoldable pub opcode_operands : Opcode → List ℕ
opcode_operands op_no_op = []
opcode_operands op_constant = 2 ∷ []
opcode_operands op_call = 1 ∷ 1 ∷ []
opcode_operands op_get_global = 2 ∷ []
opcode_operands op_set_global = 2 ∷ []
opcode_operands op_get_local = 1 ∷ []
opcode_operands op_set_local = 1 ∷ []
opcode_operands op_get_builtin = 2 ∷ []
opcode_operands op_binary_op = 1 ∷ []
opcode_operands op_unary = 1 ∷ []
opcode_operands op_equal = []
opcode_operands op_not_equal = []
opcode_operands op_jump = 2 ∷ []
opcode_operands op_jump_falsy = 2 ∷ []
opcode_operands op_and_jump = 2 ∷ []
opcode_operands op_or_jump = 2 ∷ []
opcode_operands op_dict = 2 ∷ []
opcode_operands op_array = 2 ∷ []
opcode_operands op_slice_index = []
opcode_operands op_get_index = 1 ∷ []
opcode_operands op_set_index = []
opcode_operands op_nil = []
opcode_operands op_std_in = []
opcode_operands op_std_out = []
opcode_operands op_std_err = []
opcode_operands op_dot_name = []
opcode_operands op_dot_file = []
opcode_operands op_is_module = []
opcode_operands op_pop = []
opcode_operands op_get_free = 1 ∷ []
opcode_operands op_set_free = 1 ∷ []
opcode_operands op_get_local_ptr = 1 ∷ []
opcode_operands op_get_free_ptr = 1 ∷ []
opcode_operands op_closure = 2 ∷ 1 ∷ []
opcode_operands op_iter_init = []
opcode_operands op_iter_next = []
opcode_operands op_iter_next_else = 2 ∷ 2 ∷ []
opcode_operands op_iter_key = []
opcode_operands op_iter_value = []
opcode_operands op_load_module = 2 ∷ 2 ∷ []
opcode_operands op_store_module = 2 ∷ []
opcode_operands op_setup_try = 2 ∷ 2 ∷ []
opcode_operands op_setup_catch = []
opcode_operands op_setup_finally = []
opcode_operands op_throw = 1 ∷ []
opcode_operands op_finalizer = 1 ∷ []
opcode_operands op_return = 1 ∷ []
opcode_operands op_define_local = 1 ∷ []
opcode_operands op_true = []
opcode_operands op_false = []
opcode_operands op_yes = []
opcode_operands op_no = []
opcode_operands op_call_name = 1 ∷ 1 ∷ []
opcode_operands op_jump_nil = 2 ∷ []
opcode_operands op_jump_not_nil = 2 ∷ []
opcode_operands op_key_value_array = 2 ∷ []
opcode_operands op_key_value = 1 ∷ []
opcode_operands op_callee = []
opcode_operands op_args = []
opcode_operands op_named_args = []
opcode_operands op_text_writer = []
opcode_operands op_is_nil = []
opcode_operands op_not_is_nil = []
