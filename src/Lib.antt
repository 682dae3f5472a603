-- ===== src/Lib.antt =====
-- The gad scripting language: parts of its compiler, modelled from the Go sources.
--
-- A script is scanned and parsed with its positions (parser/), compiled to bytes of instructions
-- (compiler.go, compiler_nodes.go) with the help of a chain of symbol tables (symbol_table.go), and
-- run by a stack machine (vm_loop.go). The parts meet as follows. The compiler forks a symbol table
-- for each function and block, defines and resolves the names of the script in it, and emits
-- instructions whose operands are the indexes of the symbols; it patches the targets of jumps
-- afterwards. The machine and the optimizer read the same bytes back. Every emitted instruction
-- remembers its position in the set of source files, and an error report turns it into a file, a
-- line and a column.
--
-- Which file models which part:
-- Opcode.antt: the operations and the widths of their operands, `Opcode` and `OpcodeOperands` of
--   opcodes.go.
-- Instruction.antt and Instruction/: the encoding of instructions, `MakeInstruction` and
--   `IterateInstructions` of compiler.go and `ReadOperands` of opcodes.go. Instruction/Stream.antt
--   has sequences of instructions as data (`Code`), and their bytes (`encode`).
-- Emitter.antt and Emitter/: the instruction buffer and the source map of `Compiler`, that is
--   `emit`, `addInstruction`, `changeOperand`, `replaceInstruction` and `Bytecode` of compiler.go,
--   and `SourcePos` of bytecode.go.
-- SymbolTable/: symbol_table.go. SymbolTable/Symbols.antt and Tables.antt have the data and the
--   chain of tables, Define.antt the operations that define names, Resolve.antt those that look
--   them up; the other files prove. SymbolTable/History.antt has every sequence of operations as
--   a step relation from a new table.
-- SourceFile/: parser/source_file.go. SourceFile/Search.antt has `searchInts` and the `sort.Search`
--   of Go's library, File.antt one file with its line table, FileSet.antt the set of files with its
--   cache.
-- Handlers.antt and Handlers/: the error handlers of the machine, `errHandlers`, `throw`,
--   `handleThrownError` and the instructions of try statements of vm.go, and `OpFinalizer` of
--   vm_loop.go. A frame is its handlers; the handlers and the calling frames are lists with the
--   innermost first. Handlers/Throwing.antt is about errors, Handlers/Returning.antt about finally
--   blocks before a return, Handlers/Leftovers.antt about the end of a statement without an error.
-- Parser.antt and Parser/: the parser of expressions of parser/parser.go. Parser/Tokens.antt has
--   what the switches ask of the next token, Parser/Expressions.antt the functions of the parser,
--   Parser/Printer.antt the tokens of an expression and the shape of one that can be returned
--   (`IsParse`); the other files have their laws. Constructs that are not modelled, such as calls,
--   end the model as `not_covered`, an error as `failed`. The parser works on
--   the tokens that `Parser.Next` lets through (`shown`).
-- Token.antt: token/token.go, the tokens, the precedence of operators, and the groups of tokens.
-- Numbers.antt and Numbers/: the operators of numbers, booleans and nil, `BinaryOp`, `Equal` and
--   `IsFalsy` of numeric.go, objects.go and objects_api.go. An integer is the word of its type.
-- Methods.antt and Methods/: methods.go, the methods of a callable object by the types of its
--   arguments. Methods/Signature.antt has the trees of signatures, Methods/Table.antt the table of
--   methods, Methods/Caller.antt `CallerObjectWithMethods`. A type is its identity, a number; what
--   the type assertions on a callable object give is an interface, `Callable`.
-- Args.antt and Args/: `Args` of call.go, the rows of positional arguments of a call. Args/Shift.antt
--   has `ShiftOk`, with the array that copies of the slice share, and Args/Destructure.antt
--   `Destructure` and its relatives.
-- Machine.antt and Machine/: vm_loop.go and compiler_nodes.go for expressions. Machine.antt has one
--   turn of the loop of the machine, over an interface of objects (`Objects`), Machine/Expression.antt
--   the expressions, their values and the cells of the stack that they need (`depth`),
--   Machine/Compile.antt the compiler, Machine/Layout.antt the code that it makes, and the other files follow that code through the machine, piece by piece.
-- Prelude.antt and its directory: shared notation: Boolean tests, lists over native numbers, Go's
--   signed integers, bytes, maps with string keys, results. Tests/: runs of the model on small inputs.
--
-- How the code is read. Positions, indexes and counts are numbers without a bound, but the base
-- of a set of files, which `AddFile` keeps within `int`, and the stack of the machine, which has
-- 2048 cells; the operands of instructions are cut to one or two bytes where the source cuts
-- them. Differences that can be negative are integers. A panic is `none` of an `Option`, an error
-- a value, but for `compile`, whose `none` is either. The tables of a `SymbolTable` are a chain of values, the innermost first: the source
-- links them by pointers to the parent, and only the innermost is ever used while it is open.
-- Go's maps are association lists or functions. A run of finally blocks gets more rounds than
-- there are handlers. The searches and the walks over instructions are recursive on fuel: a
-- search of n items gets n + 1, since each round halves a range that starts with n, and a walk
-- over n bytes gets n + 1, since every instruction has a byte; the theorems say that this is
-- enough.
--
-- Not modelled: calls, closures, containers, iteration, and modules of the machine, and
-- what the compiler emits for them; the optimizer, the scanner, the parser of statements and
-- calls, the objects that are not numbers, the encoder of bytecode, tracing and printing; and
-- what only binds Go's library (stdlib/, objects_reflect.go, the builtins for input and output,
-- cmd/), is generated (builtins_zfuncs.go) or copied from Go (parser/string_utils.go,
-- stdlib/json).
pub mod Prelude
pub mod Opcode
pub mod Instruction
pub mod Emitter
pub mod SymbolTable
pub mod SourceFile
pub mod Args
pub mod Machine
pub mod Methods
pub mod Token
pub mod Numbers
pub mod Parser
pub mod Handlers
pub mod Tests
