-- ===== src/Lib.antt =====
-- A model of benson's bytecode (code/bytecode) and of the machine that runs it (code/vm), with
-- theorems that the two fit together, and of the way of a source text from its bytes to lexemes
-- and trees (code/streams, code/lexing, code/parsing). The program compiles
-- a small language: code/lexing and code/parsing build the trees of code/ast, code/frontend turns them
-- into code/hlir, which is interpreted; code/bytecode writes modules and code/vm runs them.
--
-- The parts, and the files that model them:
--   * Prelude, Words: Boolean tests, lists and integers over the native numbers; a std::int8_t or
--     std::int16_t as bytes, with its wrap-around.
--   * Bytecode/Opcode, Bytecode/Module: the enumeration of code/bytecode/include/bytecode/opcode.h with
--     its bytes, and the tables of module.h. A function's position of -1 is `none`.
--   * Bytecode/Writer, Bytecode/Emitter, Bytecode/Instruction: `Bytecode_writer`
--     (code/bytecode/src/bytecode_writer.cpp). The state is the list of bytes written and the position.
--     `emit` is the emitter of an opcode, from the table of the DEFINE_ macros; `emit_jmp` and
--     `emit_jnz` may throw.
--   * Bytecode/Builder, Bytecode/Constants, Bytecode/Build: `Module_builder`
--     (code/bytecode/src/module_builder.cpp). Each operation maps the builder to a result with the new
--     builder; exceptions and violated assertions are errors. Spellings are numbers.
--   * Bytecode/Building: the uses of a builder before it is built, as a step relation; its
--     validity.
--   * Bytecode/Relocation: the patching loop of `build` on disjoint sites.
--   * Vm/Machine, Vm/Run, Vm/Arithmetic, Vm/Handler, Vm/Dispatch: `Virtual_machine`
--     (code/vm/src/vm.cpp, code/vm/include/vm/vm.h) in a state monad whose outcomes are a value, an
--     exception, undefined behaviour of C++, or the end of the fuel. `handler` is the table of the two
--     `switch` statements, `step` one round of `run`.
--   * Vm/Call, Vm/Calls: `Virtual_machine::call` with its guard; calls against returns.
--   * Vm/Scalar, Vm/Values, Vm/Registers, Vm/Pointer: typed values in 64-bit registers, and pointers.
--   * Format: what an emitter writes against what a step of the machine decodes. The operands of an
--     instruction are described apart from both.
--   * Linking: builders from the first operation to the built module, and the machine that runs it.
--   * Mask: indices of a buffer whose capacity is a power of two.
--   * Streams/Utf8, with Encoding, Inverse, Reading below it: `Utf8_char_input_stream`
--     (code/streams/include/streams/utf8_char_input_stream.h) on the bytes that are left, and UTF-8's
--     encoder, which the program has none of.
--   * Streams/Peeker, with Buffer, Lookahead: `Char_input_stream_peeker`
--     (code/streams/include/streams/char_input_stream_peeker.h) over any stream. `Text` is what it asks
--     of the stream; Streams/Source has the decoder keep it.
--   * Streams/Buffered, with Contract, Reads: `Buffered_input_stream`
--     (code/streams/include/streams/buffered_input_stream.h) over any stream that keeps the contract
--     of `Input_stream`.
--   * Hashing, Spelling/Buckets, Spelling/Table: `hash_text` (code/hashing/include/hashing/hash.h), and
--     `Spelling_table` with its `Builder` (code/spelling/include/spelling/spelling.h): open addressing
--     over bytes and entries. Spelling/Probing, Placing, Placed and Refill are about the buckets, Views,
--     Valid, Interning, Lookups and Building about the table.
--   * Lexing/Token, Lexing/Scanner: `Token`, source locations, and `Lexeme_stream::lex`
--     (code/lexing/src/lexeme_stream.cpp), with the states of its loop as functions on the text that
--     the peeker below it has yet to give. Scanner/Grammar has the spellings of tokens,
--     and what no token begins with, apart from the code; Words has the tokens of words; Runs, Symbols
--     and RoundTrip go from spellings to tokens, Tails, Signs, SymbolTails and Sound back.
--   * Lexing/RingBuffer, Lexing/Queue: `Ring_buffer`
--     (code/lexing/include/lexing/ring_buffer.h), its slots and masked indices, as a queue.
--   * Lexing/Reader, Lexing/Lookahead, Lexing/LexErrors: `Lexeme_stream_reader`
--     (code/lexing/src/lexeme_stream_reader.cpp) over any lexer, which is a parameter.
--   * Ast, with Operators, Lexemes, Spans: the trees of code/ast/include/ast/ast.h, the tables of
--     code/ast/src/operator.cpp, and `span_of` of code/ast/src/source_span.cpp against the lexemes of
--     a tree.
--   * Parsing/Result, Parsing/Parser: `Parser` (code/parsing/src/parser.cpp) on the lexemes that the
--     reader below it has yet to give, followed by `eof` without end or by an error of the scanner.
--     Parsing/Grammar says which trees are those of a program. Expects, Steps, Sound and Unit are
--     about what the parser reads from any stream; Onto, Longer, Heads, Rounds, Kinds, Spines, Parts,
--     Blocks, Primary, Operands and Complete about the lexemes of a tree, put in front of a stream.
--     Exact has both.
--   * Frontend/SymbolTable, Frontend/Scoping: `Symbol_table` (code/frontend/src/symbol_table.cpp), with
--     symbols by their places and the hash maps of scopes as functions.
--   * Tests: concrete runs.
--
-- Bounds and fuel: registers, constants and functions have 16 bits, which theorems on a step
-- assume of emitted operands. The patched displacement is computed modulo 2 ^ 64, as std::size_t
-- does, hence the bound on the code's size. `run` takes the number of instructions as fuel; the
-- theorems are about single steps, and about `call` with any fuel. The loops of `peek` have
-- `offset + 1` rounds, which are enough since each adds a lexeme or a character. Locations are
-- not bounded. A read of the buffered stream has one round more than bytes are asked for, since
-- every round but the last copies some. A probe of the spelling table has as many rounds as
-- there are buckets, of which one is always free; its offsets, lengths and handles have 32 bits.
-- The parser has a unit of fuel for each call and each round of a loop, 20 for each lexeme that is
-- left and 20 more: between two lexemes that it takes there are less than 20 calls.
-- The stack memory has 2 ^ 24 bytes.
--
-- Not modelled: floating-point arithmetic is a parameter on bit patterns (`Floats`); output
-- streams and `flush` are I/O; the source map is not used by the program. What `build` leaves of a builder is not modelled, and
-- the theorems on sequences of a builder's uses are about those before it. Signed overflow,
-- division by zero, and accesses out of bounds are `undefined`. `assert(amount.value >= 0)` of
-- `emit_alloca_i` and the `assert` of `write_narrow_register` are the callers' duty. A lexeme
-- has its text in place of a handle of the spelling table, and what the scanner does where the
-- text does not decode is left out. The other parts of the program (hlir, and of frontend the checker
-- and compiler) are not modelled here, and code under extern is not its own.
pub mod Prelude
pub mod Words
pub mod Mask
pub mod Bytecode
pub mod Vm
pub mod Format
pub mod Linking
pub mod Tests
pub mod Lexing
pub mod Streams
pub mod Hashing
pub mod Spelling
pub mod Frontend
pub mod Ast
pub mod Parsing
