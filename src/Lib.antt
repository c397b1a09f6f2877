-- ===== src/Lib.antt =====
-- A model of govis, threshold ECDSA over secp256k1, and the theorems about it.
--
-- The program. Two protocols share one library. src/core.rs makes Feldman shares of a secret polynomial,
-- and Lagrange coefficients. src/lindell/dkg.rs runs key generation and refresh on top of it: the
-- parties broadcast a hash of their commitments, then the commitments, then send each other shares,
-- which every receiver checks. src/cggmp21/sign.rs is the online phase of the other protocol: each
-- signer sends its signature share, adds those of the others, and verifies the result with
-- src/lindell/sign.rs. Before it, src/cggmp21/keygen.rs makes the shares and Paillier keys, and
-- src/cggmp21/presign.rs the presignature. Paillier encryption (src/paillier.rs), the proofs about its
-- ciphertexts (src/paillier_zk.rs) and the multiplication protocol (src/mta.rs) serve these phases.
-- src/tcp_delivery.rs carries the messages, and src/main.rs reads the arguments and runs a protocol.
--
-- The files.
--   Curve: the interface of the elliptic-curve library, its laws (Curve/Laws), a small instance (Curve/Toy).
--   Big: the interface of num_bigint, with an instance; Big/Draws has what it draws below a number, which
--     panics where there is none. Prelude/Int has the signed integers.
--   Vss: src/core.rs and src/types.rs. Vss/Polynomial is what the loops compute, Vss/Shares the
--     shares and their check, Vss/Lagrange the coefficients, Vss/Refresh the refresh of shares.
--   Net: what a party does over the round_based library.
--   Lindell: src/lindell/types.rs. Lindell/Dkg: src/lindell/dkg.rs, a run of honest parties in Dkg/Honest.
--   Lindell/Sign: run_sign of src/lindell/sign.rs; Sign/Parties is what the signers compute, Sign/Rounds
--     the rounds. Ecdsa: the rest of that file, verification and encodings; Ecdsa/Der is a strict decoder
--     for the Bitcoin encoding.
--   Cggmp21: the presignature. Cggmp21/Keygen: src/cggmp21/keygen.rs. Cggmp21/Presign:
--     src/cggmp21/presign.rs. Cggmp21/OnlineSign: src/cggmp21/sign.rs. Cggmp21/Session puts the last
--     two together. Cggmp21/KeyData and Lindell/KeyData: src/cggmp21/types.rs, src/lindell/types.rs.
--   Paillier: src/paillier.rs, its key generation in Paillier/Keygen.
--   Zk: src/paillier_zk.rs, a child for each proof. Mta: src/mta.rs.
--   Delivery: the sink of src/tcp_delivery.rs, against a queue for each peer in Delivery/Fifo, whose
--     specification is Delivery/Promise. Delivery/Incoming is its read task, on the frames that the
--     sink's channel has, and Delivery/Connect how connect_tcp fills the table of channels.
--   Cli: the arguments of src/main.rs and their checks (Cli/Accepted). Cli/Session is what a run does to
--     the outside: lines printed, files, exits. Cli/World has the libraries, networks and draws of a
--     run. Cli/RunLindell, Cli/RunCggmp21 and Cli/Main are the functions of src/main.rs; Cli/Printed,
--     Cli/Kept and Cli/Saved are about what they print, which files they leave alone, and the key files.
--   Prelude: the names and lemmas that the others share. Tests: concrete runs.
--
-- The modelling. Definitions have the names of the code. A panic is `none`, or `Outcome.panic` where the
-- code also returns errors. A function that draws random values takes them as arguments. A protocol is
-- a `Run`, the messages sent in order and the outcome; what the network does (errors of sends, what the
-- rounds deliver) is an argument, and the theorems name as hypotheses what honest parties deliver.
-- `i + 1` on u16 wraps around, as in a release build; u8 arithmetic of the encodings too. Lengths
-- (usize) are not bounded. SHA-256, the curve and num_bigint are parameters, with their documented laws
-- as fields. A signed integer is a sign and a number of any size. Loops are recursion on the list that
-- they go through; the division loop of the modular inverse recurses on the accessibility of its
-- remainder, the loop over prime candidates recurses on the list of the numbers that are drawn and
-- returns an error where the list ends, so nothing runs on fuel. The honest presigning assumes that the
-- curve reads 32-byte numbers modulo its order. A channel of the delivery is the list of what was sent
-- into it and whether its receiver is alive; message numbers are a u64 that wraps around. A run of the
-- program is a function of the files that gives the lines printed, the files after it and its end. The
-- file system is an interface, and so is bincode; what is printed on the standard error is left out,
-- but for the reason of an exit, and the addresses are only counted.
--
-- Not modelled: the prime generator behind src/paillier.rs, a library, and the global bit size that is
-- passed to it; sockets, framing and the serialisation of src/tcp_delivery.rs, and its write task, which
-- copies a channel into a socket; the texts that src/main.rs formats. They are libraries, or input and
-- output. The tests of src/lindell/mod.rs and src/cggmp21/mod.rs are not part of the program.
pub mod Prelude
pub mod Curve
pub mod Cli
pub mod Delivery
pub mod Big
pub mod Paillier
pub mod Zk
pub mod Mta
pub mod Lindell
pub mod Vss
pub mod Net
pub mod Ecdsa
pub mod Cggmp21
pub mod Tests
