-- ===== src/Hash.antt =====
-- src/common/hash.c: the hash of a file's contents as text. Hash/Hex has the text's encoding.
pub mod Hex
pub mod File
