-- ===== src/Cpu.antt =====
-- cpu/src and utils/src/utils/instruccion: the memory management unit and the registers.
pub mod Registros
pub mod Tlb
pub mod Tests
