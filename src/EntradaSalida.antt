-- ===== src/EntradaSalida.antt =====
-- entradasalida/src: the interfaces.
pub mod FileSystem
pub mod Tests
