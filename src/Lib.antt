-- ===== src/Lib.antt =====
-- A model of the Go package stratumv2, the Stratum V2 mining protocol: binary.go, types.go,
-- core.go, mining.go, constants.go, noise.go, ellswift.go, and of the programs under examples:
-- the connections of examples/shared, the server, the logger and the key grinder.
--
-- MessageTypes holds the numbers of the message types and their names.
--
-- Layers. A message (Core/*, Mining/*) is written field by field by a BinaryBuilder
-- (Binary/Builder) and read back by a BinaryReader (Binary/Reader); sequences of values have an
-- interface of their own (Binary/Sequence). A Frame (Frame, Frame/Tlv) carries the bytes of one
-- message behind a header of six bytes, and TLV fields behind them (Frame/Order, Frame/Fields,
-- Frame/Loop, Frame/Twice). U256 (U256) is the type of hashes and targets, and U256/Hex its
-- hexadecimal strings.
--
-- Correspondence. A Go method `AddU16` is `add_u16`, and a method `Encode` of a type is `encode`
-- of the type's module. A builder is its bytes and its first error. A reader is its data,
-- position and error, and its methods are functions from readers to an outcome: a value and the
-- new reader, or a panic (Binary/Outcome). A `[]byte` that code compares with nil is a `Slice`,
-- nil or a list of bytes; other byte slices, arrays and strings are lists of numbers. An integer
-- is a natural number, its range a hypothesis (`IsValid` of each message), and conversions to a
-- narrower type are written with `%`. A float32 is its bit pattern. `Encode` of a message gives
-- the bytes and the error; `Decode` gives the value that it leaves in its receiver, and the
-- error. The interface Codable is the record `Codable` of Frame, and Messages lists the message
-- types with their laws; Kinds does so by the message type's number and name.
--
-- The outputs of a SetCustomMiningJob are written by github.com/btcsuite/btcd/wire, a parameter
-- (Mining/SetCustomMiningJob).
--
-- Noise/Cipher is the `CipherState` of noise.go, Noise/Cipher/Concurrent two of its calls at the
-- same time, step by step, and Noise/Transport encrypts and decrypts frames with it;
-- Noise/Transport/Session is a connection in one direction, with sends and reads in any order.
-- The AEAD, golang.org/x/crypto/chacha20poly1305, is a parameter with its documented laws
-- (Noise/Aead). A connection is the list of the bytes on it that have not been read, and
-- io.ReadFull takes them off (Binary/Stream). `maxNoiseNonce` is a parameter too, since Go leaves
-- the conversion of the float 2^64 to a uint64 open.
--
-- Noise/Handshake is the `HandshakeState`: its operations change the state, return a value or an
-- error, or panic. A side of the handshake is a process that writes bytes and reads a number of
-- bytes (Noise/Proc); it runs alone, on a connection that ends, or with the other side in a
-- network, where the two make their steps in the order of a schedule and a read waits for its
-- bytes. Noise/Certificate is SIGNATURE_NOISE_MESSAGE, Noise/Keys the keypairs and the authority
-- keys, Noise/Ellswift the keys' encodings (ellswift.go), Noise/Digest the hash functions.
-- github.com/minio/sha256-simd (Noise/Digest), btcec, ellswift and schnorr (Noise/Secp256k1),
-- crypto/rand (Noise/Ellswift), and base58 (Noise/Keys) are parameters with documented laws. What
-- NewKeypair draws and the time are arguments of the handshake.
--
-- Connection is the `Sv2Conn` of examples/shared, made from what a handshake returned as
-- examples/logger and examples/server make it: two ends that write frames to each other and read
-- them, in any order (Connection/Actions, Connection/Delivery), and a message that passes from
-- one to the other (Connection/Messaging).
--
-- Examples/Server is the goroutine that examples/server runs for a connection, and
-- Examples/Logger the client of examples/logger: its messages, its check of the server's
-- certificate, its reading goroutine and its last message. Examples/Meeting puts the two
-- together. Their connections are lists of bytes, as above; the logger's signal comes after some
-- rounds of its reading loop. Grinder is examples/grinder: its goroutines, the channel, the
-- cancellation and the wait, as a relation of steps.
--
-- Binary/Codec holds the rules by which round trips are put together: what a chain of builder
-- calls writes, the matching reads take off the front of the data.
--
-- Bounds. The loop of Frame.Decode over the TLV fields runs on fuel, the length of the data; each
-- round takes at least five bytes (Frame/Loop), and `none` is a loop that has run out. So does
-- the server's reading loop; each round takes a header of 22 bytes at least (Examples/Endings).
-- The loop of XElligatorSwift runs on fuel, and enough is what reaches the first round that finds
-- an encoding (Noise/Ellswift/Ending).
--
-- Not modelled: concurrent use of a CipherState (calls happen one after the other), but for two
-- calls of EncryptWithAd; the spare capacity of slices (Grow, Cap; a slice's capacity is taken to
-- be its length); a frame's payload that is nil, as in `Frame{}` (it is taken for an empty one
-- that is not nil); overflow of Go's 64-bit int; constants that no modelled code reads (most
-- protocols, extensions, flags and error strings); logging, and the flags, dialling, listening
-- and the wait for signals of the examples; that the server shares one HandshakeState among its
-- connections, and the logger's unsynchronized access to chanid; jobdeclaration.go and
-- templatedistribution.go, which declare nothing.
pub mod Prelude
pub mod Binary
pub mod U256
pub mod Examples
pub mod Frame
pub mod Connection
pub mod Core
pub mod Mining
pub mod MessageTypes
pub mod Grinder
pub mod Messages
pub mod Kinds
pub mod Noise
mod Tests
