-- ===== src/Lib.antt =====
-- zEngine is a Go library for game servers. These files model the parts of it that decide what
-- a server accepts, keeps and promises; every definition follows the Go code that its file names.
--
-- Net: what comes from the wire. Packet (zNet/packet.go) reads and writes packets; Packet.Limits
-- and Packet.Payload (zNet/packet_limits.go, zNet/packet_payload.go) bound and unpack their data.
-- Protocol (zNet/protocol_version.go) negotiates versions, and Handshake
-- (zNet/protocol_handshake.go) carries the negotiation in frames and checks the version of each
-- packet of a session. KeyRotation and Replay (zNet/key_rotation.go) keep the keys of a session
-- and refuse sequence numbers. Wire has integers as bytes. A session decodes a frame, checks
-- its version and its sequence number, and then its payload. Delivery (zNet/delivery.go) is the
-- bounded queue between the senders of a session and its writer; Requests
-- (zNet/request_correlator.go) gives a response to the call that waits for it.
-- DdosProtection (zNet/ddosProtection.go) limits and bans addresses.
--
-- Server: State (zServer/state.go), Cleanup (zServer/cleanup.go) and Lifecycle
-- (zServer/lifecycle.go, zServer/server.go) are the life of a server. Lifecycle calls the other
-- two. `Start` and the function under `stopOnce` are threads that take one step at a time; a run
-- is any sequence of their steps and of calls from elsewhere, and each step is what the Go code
-- does under one lock or in one call.
--
-- Consistency: Contract (zConsistency/store_v2.go), Retry (`retryDelay`), Selection (the
-- listings), Outbox and Inbox
-- (zConsistency/memory_store.go and zConsistency/memory_store_v2.go) are the stores on the two
-- ends of a message: the sender's, which sends again until it is told not to, and the
-- receiver's, which tells a message from its copies. Transaction (zConsistency/transaction.go) is
-- the two-phase commit of one transaction, with `Prepare` and `Commit` as threads.
--
-- Service (zService/service_manager.go): the order of the services of a server, which is a search
-- through what they depend on; Service.Startup initializes and closes them in that order.
--
-- Instance (zInstance/pool.go): the pool of instances that are built on demand. Pool has its state
-- and the changes of one entry, Acquire and Reap the calls that act on what they observed before,
-- and Run their interleavings.
--
-- Where Go code takes a lock more than once (Transaction, Requests, Delivery, Instance), a run is a
-- list of steps, each of which is what the code does under the lock once; an application's
-- function that is called between two locks is an argument of the step after it.
--
-- Common has what the modules share; Common.TypedMap states what they rely on of
-- `zMap.TypedMap`, a package that is not part of the repository. It enters as a parameter, as do
-- the cipher and the decompressor of Packet.Payload; time is an argument. Examples applies the
-- theorems to concrete inputs.
--
-- A Go integer of w bits is a number with its range as a hypothesis, and wraps around where the
-- code can make it (`to_int`, `to_uint`, `% 2 ^ w`). Loops run over
-- lists, over the attempts of `retryDelay` or over the numbers that a window slides by. Only the
-- depth-first search of `topologicalSort` takes fuel, one more than there are services: a path
-- of the search has no service twice. The theorem on the progress of a stop counts the steps it
-- needs, at most twelve.
--
-- The counters of Instance and the elements and channels of Delivery and Requests are numbers
-- without a bound: a `uint64` that is counted up by one does not wrap around in the life of a
-- process. The sums of occupants and reservations in Instance are taken not to overflow.
--
-- Not modelled: sockets and goroutines around these parts, logging and metrics, contexts beyond
-- being done or not, the SQL stores, the calls of the original interface of the outbox (`Add`,
-- `MarkSent` and so on, some of which delete a message whatever its state), the table of all
-- transactions, and the other packages of the library.
pub mod Common
pub mod Net
pub mod Server
pub mod Consistency
pub mod Service
pub mod Instance
pub mod Examples
