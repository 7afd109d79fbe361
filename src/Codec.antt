-- ===== src/Codec.antt =====
-- core/codec/src: the bits of a byte slice and the fields of a wire format. A byte is a number below
-- 256, and a slice is a list.
pub mod Bits
pub mod Reader
pub mod Numbers
pub mod SortUnique
pub mod Slices
