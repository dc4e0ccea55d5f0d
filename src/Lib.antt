-- ===== src/Lib.antt =====
-- ratum: a DATUM mining pool (prime) and the gateway that miners connect to, over a shared core.
--
-- The gateway takes work from its node, serves it to miners over stratum at a difficulty per
-- connection, and sends their shares to the pool in DATUM frames; the pool credits the shares to a
-- window of work and answers what a block's coinbase must pay. The files here follow those parts.
--
-- Base and its children hold what the rest shares: Boolean tests on the native numbers, lists,
--   results, bit operations at variables (Base/Bits), little-endian bytes (Base/Bytes) and maps
--   (Base/Dict).
-- Reader is core/src/reader.rs, a cursor whose reads return the field or name the one missing;
--   Reader/Laws follows chains of reads.
-- Target is the part of core/src/target.rs on powers of two.
-- Datum is core/src/datum: Framing the frame header, its ratchet, the derived keys and the nonce;
--   Bulk the reassembly of bulk transfers; Messages the pieces of every message and, below it, the
--   request and response about what a coinbase pays (Coinbaser), the pool's configuration (Config),
--   the submitted share and its sections (Share), the answer to it (ShareResponse), the
--   messages against block withholding (Abw) and the lists of a job's transactions (Validation),
--   each after the file of its name in core/src/datum/messages.
-- Bitcoin is core/src/bitcoin.rs and core/src/bitcoin/transaction.rs: Merkle the branches and roots,
--   CompactSize the counts, Transaction the id of a transaction and the parsing of a coinbase.
-- Bounded is prime/src/bounded.rs, a map that forgets its oldest keys.
-- Ledger/Split is prime/src/ledger/split.rs, the division of a block's value over the window.
-- Ledger/Window is the contents of the share window in prime/src/ledger.rs: the shares, the
--   identities they credit, pushing, dropping and trimming. Window/Sound says when contents stand
--   for a list of names and work, and Window/Weights what a split is given. Ledger/Record is the
--   ledger around it: batches, the window's size, the store as an interface, and the re-read.
-- Ledger/Blocks is prime/src/ledger/blocks.rs: the blocks found, what is owed for them and their
--   readings, over a database that is an interface, and the rows they are packed into.
-- Header is core/src/header.rs: the block header on the wire, and the stages that hash it.
-- Accounting is the part of prime/src/accounting.rs on the hashes of accepted shares and on what a
--   coinbase leaves owed.
-- Abw is prime/src/abw.rs, the slots of a session: their seeding, retirement and reveal, and when a
--   rotation is due. Abw/Session runs a session through every operation on them;
--   Abw/Waiting is what a connection asks of them and waits for.
-- Gateway/Vardiff is gateway/src/vardiff.rs, the difficulty of one connection; Gateway/FailedLogins
--   the login limit of gateway/src/api/auth.rs, and Gateway/SeenShares gateway/src/seen_shares.rs.
-- Tests holds runs at fixed inputs.
--
-- A Rust integer is a native number below its width, with every wrap that the code can reach
-- written as a remainder and every saturation as a minimum; arithmetic of sizes in memory is
-- unbounded. A byte slice is a list of numbers, a read on a reader returns the advanced reader,
-- and a method that changes `self` returns the new state. The loops of the coinbaser decoder, of a
-- share's sections and of `ilog2` run on a count of rounds: each decoded output is one round of
-- at most `max_coinbaser_outputs`, each section takes a byte at least and has a round for every
-- byte left, and 64 halvings bring a u64 to zero. An `Instant` is an argument, and so are the
-- UTF-8 checks of strings, which are lists of bytes.
--
-- Not modelled: sockets, threads, files, the database, JSON and HTML, and cryptography, which are
-- libraries or input and output around these parts; the migration message, and the
-- scripts and addresses of Bitcoin.
pub mod Abw
pub mod Base
pub mod Reader
pub mod Bitcoin
pub mod Target
pub mod Datum
pub mod Gateway
pub mod Bounded
pub mod Ledger
pub mod Accounting
pub mod Header
pub mod Tests
