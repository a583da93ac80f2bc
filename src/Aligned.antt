-- ===== src/Aligned.antt =====
-- src/common/aligned.c: the cursor over a byte buffer by which every packet is read and written.
-- `exception_throw_literal` leaves the function at once, so a call ends in one of three ways: it
-- returns, it throws and leaves the cursor where it stood then, or it touches a byte outside the
-- buffer's memory (a fault, for which C gives no meaning).
pub mod Defs
pub mod Bytes
pub mod Reads
pub mod Bounds
pub mod RoundTrip
mod Tests
