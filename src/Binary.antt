-- ===== src/Binary.antt =====
-- include/libant/encoding/binary: the encoder into a growing string (BinaryWriter), the decoder
-- (BinaryReader), and the encoder that can also prepend (BinaryBuffer).
pub mod Integer
pub mod Writer
pub mod Reader
pub mod Buffer
pub mod Message
mod Tests
