-- ===== src/Instruction/Cases.antt =====
-- compiler.go, `MakeInstruction`: the cases of its switch. Each lists the bytes that it appends.
use gad.Opcode.{Opcode}
use gad.Opcode.{
  op_no_op, op_constant, op_call, op_get_global, op_set_global, op_get_local, op_set_local,
  op_get_builtin, op_binary_op, op_unary, op_equal, op_not_equal, op_jump, op_jump_falsy,
  op_and_jump, op_or_jump, op_dict, op_array, op_slice_index, op_get_index, op_set_index, op_nil,
  op_std_in, op_std_out, op_std_err, op_dot_name, op_dot_file, op_is_module, op_pop, op_get_free,
  op_set_free, op_get_local_ptr, op_get_free_ptr, op_closure, op_iter_init, op_iter_next,
  op_iter_next_else, op_iter_key, op_iter_value, op_load_module, op_store_module, op_setup_try,
  op_setup_catch, op_setup_finally, op_throw, op_finalizer, op_return, op_define_local, op_true,
  op_false, op_yes, op_no, op_call_name, op_jump_nil, op_jump_not_nil, op_key_value_array,
  op_key_value, op_callee, op_args, op_named_args, op_text_writer, op_is_nil, op_not_is_nil,
}

-- `unknown` is the default case.
pub data Layout : Type 0 where
  word word_word word_byte byte_byte byte nothing unknown : Layout

unfoldable pub layout : Opcode → Layout
layout op_no_op = Layout.nothing
layout op_constant = Layout.word
layout op_call = Layout.byte_byte
layout op_get_global = Layout.word
layout op_set_global = Layout.word
layout op_get_local = Layout.byte
layout op_set_local = Layout.byte
layout op_get_builtin = Layout.word
layout op_binary_op = Layout.byte
layout op_unary = Layout.byte
layout op_equal = Layout.nothing
layout op_not_equal = Layout.nothing
layout op_jump = Layout.word
layout op_jump_falsy = Layout.word
layout op_and_jump = Layout.word
layout op_or_jump = Layout.word
layout op_dict = Layout.word
layout op_array = Layout.word
layout op_slice_index = Layout.nothing
layout op_get_index = Layout.byte
layout op_set_index = Layout.nothing
layout op_nil = Layout.nothing
layout op_std_in = Layout.nothing
layout op_std_out = Layout.nothing
layout op_std_err = Layout.nothing
layout op_dot_name = Layout.nothing
layout op_dot_file = Layout.nothing
layout op_is_module = Layout.nothing
layout op_pop = Layout.nothing
layout op_get_free = Layout.byte
layout op_set_free = Layout.byte
layout op_get_local_ptr = Layout.byte
layout op_get_free_ptr = Layout.byte
layout op_closure = Layout.word_byte
layout op_iter_init = Layout.nothing
layout op_iter_next = Layout.nothing
layout op_iter_next_else = Layout.word_word
layout op_iter_key = Layout.nothing
layout op_iter_value = Layout.nothing
layout op_load_module = Layout.word_word
layout op_store_module = Layout.word
layout op_setup_try = Layout.word_word
layout op_setup_catch = Layout.nothing
layout op_setup_finally = Layout.nothing
layout op_throw = Layout.byte
layout op_finalizer = Layout.byte
layout op_return = Layout.byte
layout op_define_local = Layout.byte
layout op_true = Layout.nothing
layout op_false = Layout.nothing
layout op_yes = Layout.nothing
layout op_no = Layout.nothing
layout op_call_name = Layout.byte_byte
layout op_jump_nil = Layout.word
layout op_jump_not_nil = Layout.word
layout op_key_value_array = Layout.word
layout op_key_value = Layout.byte
layout op_callee = Layout.nothing
layout op_args = Layout.nothing
layout op_named_args = Layout.nothing
layout op_text_writer = Layout.unknown
layout op_is_nil = Layout.nothing
layout op_not_is_nil = Layout.nothing
