-- ===== src/Lib.antt =====
-- Inkmail: a mail network of peers that meet for short encrypted sessions, with optional relays, called
-- Daddies, that look up routes and hold opaque encrypted envelopes until their owner polls for them.
-- This library models the parts that decide what is accepted, kept, delivered and refused.
--
-- The parts, the files that model them, and the code that they follow:
--
-- Base: Boolean tests, lists, byte texts, results and maps that the other modules share.
-- Hex: `encodeHex`, `decodeHex` and `hexDigit` of internal/database/database.go.
-- Limits: `Limits`, `Defaults` and `Validate` of internal/resource/limits.go.
-- Limiter: the admission state of internal/network/listener.go. Slots holds the counters that
--   connectionLimiter (Connections) and requestAdmission (Requests) share; Rate is requestLimiter, the
--   token buckets; Handshake is handshakeLimiter; Oldest is the two functions evictOldest. Each operation
--   runs under its mutex, so an interleaving is a sequence of operations.
-- Wire: internal/network/frame.go. BigEndian is Go's encoding/binary, Frame is writeFrame and
--   readFrameLimit, Channel is the sealed frames and the messages in them. A connection that is written to
--   follows a script of short writes and failures; one that is read from is the bytes still to come.
-- Session: `Session` of internal/network/protocol.go: the mailbox that it is bound to, the envelopes that
--   it offered, its keys and counters.
-- Store: internal/database/mailbox_privacy.go over the tables of internal/database/database.go. Held is
--   the held envelopes with the replay records, Outbox the sender's queue, Routes the mailbox routes and
--   their owners. A table is a list of rows; an operation in a transaction gives a new store only when it
--   commits.
-- Mailbox: `MailboxEnvelope` of internal/message/mailboxenvelope.go: its checks, padding, closing, opening.
-- Daddy: the request handlers of internal/network/daddy.go, over Session, Store and Mailbox.
-- Identity: the namespaces, fingerprints and addresses of internal/identity/identity.go.
-- Handshake: internal/network/handshake.go: the hello, its transcript, its checks and the two session keys.
-- Messages: internal/message/message.go: `New`, the signatures, `EncryptForRecipient`, `DecryptFromSender`, and
--   decryptEncryptedEnvelope of internal/network/messaging.go.
-- Letters: the local messages of internal/database/database.go: folders, status changes, deletion, and
--   MarkMessageDeliveredFromReceipt of internal/database/mailbox_privacy.go. Letters/Storing is
--   StoreMessage, GetMessage and the lists.
-- Meta: the table node_meta of internal/database/database.go with the node's mailbox ID, and the addresses of
--   internal/network/daddy.go that are kept in it.
-- Peers: Contact is internal/database/peer_contact.go and ParsePeerID; Directory is the table of known peers of
--   internal/database/database.go, peers.go, peers_alias.go and resource_usage.go; Routes is the table of their
--   routes, from StoreRoute to DeleteAllRoutesForPeer, and internal/database/peers_delete.go.
-- Relays: internal/network/relays.go: the relay file, the order of the relays, the addresses to dial.
-- Outgoing: internal/network/failover.go and the outbox rounds of internal/network/opaque_mailbox.go.
-- Receiving: what internal/network/messaging.go does with an envelope that arrives, and the receipt it
--   answers with.
-- Ghost: internal/network/ghost.go: probes, and envelopes that are passed on over several hops.
-- Serving: serveSession and dispatchRequest of internal/network/messaging.go, over all handlers.
-- Tests: the theorems at concrete inputs.
--
-- How they interact: Handshake gives Session its keys, with which Wire carries the requests and replies.
-- Serving takes a slot of Limiter for each request, charges it to the token buckets, within Limits, and
-- calls a handler. A handler of Daddy reads a request body, asks Session whether the peer may act on the
-- mailbox and Store whether the identity owns it, and then runs one operation of Store. What Store keeps
-- is the printed MailboxEnvelope, which only the recipient opens: Receiving opens it with Mailbox,
-- decrypts it with Messages, stores it in Letters, records the sender in Peers and queues a receipt in
-- the outbox, which Outgoing empties to the addresses of Relays. Ghost receives an envelope, or passes it
-- on, or holds it in Store.
--
-- Numbers: counts, sizes, Unix seconds and nanoseconds are natural numbers. Frame lengths keep their
-- 32-bit and counters and time steps their 64-bit bounds; hop counts and priorities are integers
-- (Base/Int). The tokens of a bucket are doubles, counted in units of 2^-1074, and each operation on them
-- is rounded as the program's is. A negative time or limit in a request is refused as 0 is. White space and
-- letter case are those of ASCII, but for namespaces, whose runes are a parameter. No function runs on
-- fuel: every loop is recursion on a list, a script, or the exchanges that a session has left.
--
-- Parameters: SHA-256, Ed25519, X25519, HKDF, the AEAD, encoding/json, fmt's decimal numbers, the
-- decoding of runes, net.SplitHostPort, the random source, the rounding of floating point, and whether
-- another node accepts what is sent to it, are arguments. Aead, Lawful, Exchange, Sound, Signer, Receiver
-- and Ieee name what is relied on: what is sealed opens under the same key, nonce and data with a tag of 16
-- bytes; JSON gives back what it was given, if its texts are valid UTF-8 (Base/Utf8) and its numbers have 64
-- bits; both sides of an exchange agree; what a key signs its public key verifies; keys, hashes and
-- signatures are bytes of their sizes; rounding keeps the order, and the whole numbers up to 2^53.
--
-- Not modelled: failures of SQLite and the opening and migration of its file, the accept loop and its
-- goroutines, deadlines and the sending of answers, the client side of Daddy in internal/network/daddy.go
-- with the dialling of internal/network/dial.go and the retries of internal/network/retry.go, the measuring
-- of relays, key files, metrics and the command line programs: they are I/O around the parts above.
pub mod Base
pub mod Hex
pub mod Limits
pub mod Limiter
pub mod Wire
pub mod Session
pub mod Store
pub mod Mailbox
pub mod Daddy
pub mod Identity
pub mod Peers
pub mod Meta
pub mod Relays
pub mod Outgoing
pub mod Handshake
pub mod Messages
pub mod Ghost
pub mod Serving
pub mod Letters
pub mod Receiving
pub mod Tests
