-- ===== src/Utils.antt =====
-- utils/src/utils: what the five programs share.
pub mod Codec
pub mod Tests
