-- ===== src/Mucode/Entries.antt =====
-- pilot-cpu/cpu_mucode.c: the control words of the microcode entries. `junk` is what the local
-- variable `prg` holds before anything is assigned to it, which C leaves open.
mod Base
mod OneCycle
mod TwoCycle
unfoldable pub use Base.*
unfoldable pub use OneCycle.*
unfoldable pub use TwoCycle.*
