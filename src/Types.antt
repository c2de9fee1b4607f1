-- ===== src/Types.antt =====
-- pilot-cpu/types.h, by children: the data bus (Bus), the microcode entries (Micro), the control
-- word (Control), the decoded instruction (Inst).
mod Bus
mod Micro
mod Control
mod Inst
unfoldable pub use Bus.*
unfoldable pub use Micro.*
unfoldable pub use Control.*
unfoldable pub use Inst.*
