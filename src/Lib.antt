-- ===== src/Lib.antt =====
-- A verification library for p2p-folder-sync, a Go program that keeps a folder the same on several
-- peers. A file is split into chunks, sent, collected and assembled; every change is an operation
-- with a vector clock; concurrent changes are resolved or merged; peers compare their manifests
-- and share out the files to fetch; connections, discovery and bandwidth are managed beside that.
--
-- Which file models which part (paths from the repository's root):
-- VectorClock: internal/sync/vectorclock.go. `compare` also stands for the copy of it,
--   compareVectorClocks of internal/sync/conflict/resolver.go.
-- Queue: internal/sync/queue.go.
-- Chunking: internal/chunking/chunker.go (ChunkFile) and assembler.go. Split is about the chunks of
--   a file, Sort about their order, Assembly about putting them together, Made about their hashes.
-- Operation: internal/sync/operation.go. Messages: internal/network/messages/message.go and types.go.
-- Handler: internal/network/handler.go. A call ends in an outcome, the new handler and whether
--   the caller gets an error. Receiving is about handling messages in turn, Delivery follows a
--   chunked file to the engine, Answers is about acknowledgements. Its environment Env stands for
--   the engine, the digest, the decompression and the connections.
-- Messenger: internal/network/messenger.go. Retries is about sending until an acknowledgement comes,
--   Acks about handing one to the sender that waits. What a send meets is its attempts. Sending
--   holds what is sent for an operation, for a file and to all peers.
-- Engine: internal/sync/engine.go, over a World for the disk, the database, the file ids and the
--   peers. Receiving holds what is done with an incoming operation, and Incoming is about which
--   version it leaves; Events holds the handlers of file system events, and Events/Local is about
--   what they queue; Clocks is about the engine's clock. Direct holds HandleMessage, and Replay what
--   is done with the log at the start; Replay/Waits is about a row that waits, and Replay/Survival
--   about an operation over a restart. Machine is the World with the tables of Database in it, and
--   Machine/Recorded is about what an incoming version leaves there.
-- Rows: the row types of internal/database/files.go and operations.go.
-- Database: internal/database, the tables of db.go. Files, Log and Chunks hold the statements of
--   files.go, operations.go and chunks.go. Files/Stored and Log/Durable are about what is read back,
--   Log/Waiting about the operations that are not acknowledged, and Chunks/Missing about the chunks
--   that are missing.
-- Handshake: internal/crypto/handshake.go and the keys of keyexchange.go; Agreement is about what both
--   peers have in the end. Auth: internal/crypto/auth.go. The cryptographic packages are Crypto.
-- Fallback: internal/network/transport/fallback.go, over two transports; Carried is about which of
--   them takes a message.
-- Tcp: internal/network/transport/tcp.go, over the sockets of a Wire; Sending holds what opens
--   connections and sends on them. Keys is about the session keys of both ends, Serving about the
--   answers to messages, Opening about the first call for a peer.
-- Encryption: internal/crypto/encryption.go, over AES-GCM as a parameter.
-- Config: internal/config/config.go, with what the operating system says of the folder as a parameter.
-- Buffer: internal/chunking/buffer.go.
-- Transfer: internal/chunking/manager.go.
-- Lines, Conflict, Conflict/Diff: internal/sync/conflict/resolver.go and merge.go. Diff/Repeat, Ends
--   and Kept are about what a merge of lines keeps.
-- Reconcile: internal/state/reconciliation.go and loadbalance.go.
-- Declaration: internal/state/declaration.go over the tables; Exchange is about two peers that
--   declare their tables to each other, Clock about the clock that is declared.
-- FlowControl: internal/network/flowcontrol/rate_limiter.go and controller.go. Bounds is about what a
--   limiter lets through, Slots about the slots that are held.
-- Connection: internal/network/connection/manager.go. Heartbeat: heartbeat.go beside it, and the check
--   of the connections' health; Alive is about which connections outlive it.
-- Registry: internal/network/discovery/registry.go and internal/filesystem/rename_detector.go.
-- Prelude holds what these share; Tests, SyncTests, PeerTests, TransferTests, NetworkTests,
--   HandshakeTests, EngineTests, DatabaseTests and TcpTests hold inputs for the theorems.
--
-- How the code is read. A Go string is its list of bytes; a map is an association list, whose order
-- stands for the order of a range loop; a pointer that may be nil is an Option. A method under a
-- mutex is one step, a function from the state to the new state, with the clock's time as an
-- argument. An int or int64 that can be negative in the code is a signed integer without a bound,
-- except where the code adds one to a counter or a timestamp, or a chunk size to the length of a file,
-- which wraps at 64 bits; times, byte offsets, lengths, token counts and ports are natural numbers. A
-- size or a time that the log reads through a float64 is rounded as a float64 is. The digest of hashing.HashString is
-- a parameter, since a library computes it, and so is the float product of the token bucket.
-- Loops are recursions on lists or on the rounds left; TrimSpace takes as fuel the length of its
-- text, and each round removes a byte or more.
--
-- The parts meet as in the code: the messenger turns an operation and the chunks of a file into
-- messages, the handler collects the chunks and calls the engine, and the engine resolves conflicts,
-- merges clocks and queues. The goroutine of HandleIncomingFile is run to its end, since nothing
-- waits for it, and so is each broadcast.
--
-- A SQL statement is a function of the tables, and a fault of the database engine an argument: a
-- statement that fails leaves the tables as they are.
--
-- Not modelled: opening and migrating the database and its table of peers, QUIC, the sockets, the
-- store of keys, file access, compression, metrics and the command, the start, the stop and the
-- periodic goroutines of the engine, the comparison of manifests behind a type assertion of the
-- handler that always fails, the race of a call that opens a TCP socket with the goroutine that reads
-- from it, and the waiting loops and goroutines of the parts above. They are input and output, calls
-- of libraries, or left for later.
pub mod Prelude
pub mod VectorClock
pub mod Queue
pub mod Chunking
pub mod Buffer
pub mod FlowControl
pub mod Reconcile
pub mod Connection
pub mod Registry
pub mod Transfer
pub mod Operation
pub mod Messages
pub mod Handler
pub mod Messenger
pub mod Rows
pub mod Database
pub mod Engine
pub mod Config
pub mod Handshake
pub mod Fallback
pub mod Tcp
pub mod Heartbeat
pub mod Encryption
pub mod Declaration
pub mod Auth
pub mod HandshakeTests
pub mod TransferTests
pub mod NetworkTests
pub mod EngineTests
pub mod DatabaseTests
pub mod TcpTests
pub mod Lines
pub mod Tests
pub mod SyncTests
pub mod PeerTests
pub mod Conflict
