-- ===== src/Bytes.antt =====
-- Byte strings (`Buffer`, `Uint8Array`) as lists of numbers, and the two ways to spell a number in
-- them, as plain recursions: what the encoders and decoders of sdk/src and circuits are compared to.
mod BigEndian
mod LittleEndian
unfoldable pub use BigEndian.*
unfoldable pub use LittleEndian.*
