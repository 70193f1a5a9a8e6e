-- ===== src/Base.antt =====
-- What the modules share: names of the libraries, arrays, digits of numbers, memory.
mod Core
pub mod Bits
pub mod Memory
pub mod Result
pub mod Bytes
pub mod Copy
unfoldable pub use Core.*
