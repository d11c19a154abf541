-- ===== src/Opcode.antt =====
-- types/opcode/opcode.go: the opcodes of the messages.
pub mod Opcodes
pub mod Consistency
