-- ===== src/Bits.antt =====
-- Laws of `&`, `|` and `^` at variables, through which the operations of the emulator are read: the
-- native operations work digit by digit (Step), what follows for any such operation (Split), and
-- masks, single bits and fields as arithmetic (Masks).
mod Step
mod Split
mod Masks
pub use Split.*
pub use Masks.*
