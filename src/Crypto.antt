-- ===== src/Crypto.antt =====
-- include/libant/crypto and src/crypto: the ciphers.
pub mod Xxtea
