-- ===== src/Contract.antt =====
-- lab/contract.py: the operations of the byte-stream contract, their replies, and the reference
-- model that says what each operation returns.
pub mod Hex
pub mod Ops
pub mod Model
pub mod Validate
pub mod Generate
