-- ===== src/Noise.antt =====
-- noise.go: the handshake, the certificates and keys, and the encrypted transport.
pub mod Aead
pub mod Cipher
pub mod Transport
pub mod Digest
pub mod Secp256k1
pub mod Ellswift
pub mod Keys
pub mod Certificate
pub mod Proc
pub mod Handshake
