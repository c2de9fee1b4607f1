-- ===== src/Lib.antt =====
-- The CPU of the Hexheld emulator (pilot-cpu): a model of its memory controller, its microcode, its
-- instruction decoder and its execute stage, and what is proved of them.
--
-- The parts and their files. The decode stage reads opcode words from a fetch unit, decodes them into
-- a record of control words and micro-operations, and hands it to the execute stage by raising a
-- semaphore. The execute stage's sequencer takes the record, and chooses for each cycle a control
-- word: an entry of the microcode, before or after the operation, or the operation itself. Two half
-- cycles carry it out: the first latches the operands and the second the result, and either may make
-- an access through the memory controller.
--   Types, System: pilot-cpu/types.h, cpu_regs.h, cpu_interconnect.h, pilot.h. A C structure is a
--     record, an enumeration a data type, an array a function of the index with a check of its
--     length, and a pointer between the stages an address.
--   Memory: pilot-cpu/memory_bus.c. Map is the memory map, Requests the request functions as a port,
--     Protocol what holds along a sequence of calls.
--   Mucode: pilot-cpu/cpu_mucode.c. Entries has a function for each entry, Chain is the order of the
--     entries, Defined which fields are assigned.
--   Decode: pilot-cpu/cpu_decode.h. Rm is cpu_decode_rm.c; its children are the addressing modes (as a
--     type, with its equivalence to the specifiers), the use of the pointer to a micro-operation,
--     the source operands, and the destinations. Widths are the ranges of the variables. Inst is
--     the opcode map and the groups of cpu_decode.c, Stage its two half cycles.
--   Execute: pilot-cpu/cpu_execute.c. Fetch and Write are the data bus, Alu the shifter, the flags and
--     the result latch, Half1 and Half2 the half cycles, Sequencer the choice of the control word,
--     Cycle the halves one after the other, without an access and with one in the second half,
--     Stuck and Waiting sequences of calls, Widths the ranges of the variables.
--   Pipeline: the decode and execute stages and the memory controller over one machine, with any
--     sequence of their calls: Handover is the semaphore between the stages, Widths what no call
--     writes, Arithmetic an instruction from its opcode word to the result, Instruction the same
--     through the calls of both stages. The pointer `interconnects.decoded_inst`, which no code
--     here assigns, is taken to be the address of the decoder's `work_regs`.
--   Prelude, Bits: the Boolean tests, the result type and the bitwise operations as arithmetic.
--   Scenarios: concrete machines and instructions, and the theorems at them.
--
-- Conventions. A function that changes a structure returns the structure. Code that may read outside
-- an array, use a pointer that was never set, or call a function that does not return, gives an
-- `Outcome`: a value, or a fault. A number of w bits is a native number, cut by `% 2 ^ w` where the
-- source stores it. A local variable that is read before it is assigned is an argument, `junk`.
-- `fetch_data_` calls itself; the model bounds the depth of the calls by two: the inner call is at
-- one of the codes 0 to 7 of the data bus, since the mask of the macro `ACCESS_REG_BITS_` is on the
-- whole sum, and no such code makes a further call. The other loops are over two elements and are
-- written out.
--
-- Outside the model: the functions that the repository declares and does not define (the fetch unit's
-- `decode_try_read_word_`, the reports `decode_unreachable_`, `execute_unreachable_`,
-- `decode_not_implemented_` and `decode_invalid_opcode_`), which are parameters; the
-- register enumerations and operand types of types.h that nothing uses.
pub mod Prelude
pub mod Bits
pub mod Types
pub mod System
pub mod Memory
pub mod Mucode
pub mod Decode
pub mod Execute
pub mod Pipeline
pub mod Scenarios
