-- ===== src/Lib.antt =====
-- direct-transfer: peer-to-peer file transfer over authenticated, encrypted TCP sessions.
--
-- A sender offers files to a trusted peer, the receiver's user decides on the offer, and accepted
-- files travel in numbered chunks into partial files. This library models the parts below.
--
-- Lifecycle (src/direct_transfer/core/lifecycle.py, core/models.py): TransferInfo is a record,
--   `allowed` the table _ALLOWED, `set_status` the function of that name; now and force are arguments.
-- Inbox (core/inbox.py): IncomingRequestManager as a record of its entries and limits. Each method
--   is a function on it that also returns what the method returns and the requests that its
--   callbacks get. What holds the lock once is one step, and `run` is any sequence of such steps.
--   Inbox/Waiting has the methods that take the lock several times, wait_for_decision and cancel_all,
--   with the calls of other threads in between as arguments.
-- Frame (utils/crypto.py and the frame functions of core/protocol.py): a socket is a list of
--   arrivals, `recv` takes from the first. The loop of _recv_exact runs on fuel, the number of bytes
--   wanted, which is enough as each round brings one or ends it. The AES-GCM of the cryptography
--   package is the parameter `Aead`, the nonce of os.urandom an argument.
-- Json: what json.loads returns. A float keeps the integer that it equals, if any.
-- Config (utils/config.py): the limits.
-- Protocol (core/protocol.py, and the messages that core/transfer.py builds): each validator is a
--   do block over Result, whose raise is Python's. Python's path library is the parameter FileNames.
--   Protocol/Frames holds the messages, Protocol/Text the regular expressions, character by character.
-- Transfer (core/transfer.py): the sender's loop over the chunks of a file returns the frames that
--   it sends, the receiver's runs over the frames that arrive. Both run on fuel, the bytes still to
--   carry, and each round carries one at least or ends the loop. An arrival is a decrypted frame or
--   what the socket raises; the json module is the parameter JsonModule, and a text that json.dumps
--   made of a message is loaded as that message. A partial file is its bytes.
--   Transfer/Batch is the retry loop of _batch_worker, with as many attempts as range(MAX_RETRIES + 1)
--   has; what an attempt does to the records, and how it ends, is a parameter.
--   Transfer/Approval is the wait of a session for its user: the calls that other threads make on the
--   inbox in each round are an argument, and so is what arrives from the peer.
-- Resume (core/resume.py): the resume query and the resume state, which carry each side's view of the
--   files, as Protocol does it. A lookup of a JSON value that has no hash raises.
--   Resume/Store is the directory of one transfer: its metadata and its partial files.
-- History (core/history.py): a table is the list of its rows, and a statement does to it what SQLite
--   documents. Each call takes whether SQLite fails in it, and `transact` then rolls back. `run` is
--   any sequence of calls; History/Abstract is the book, the function from transfer IDs to rows that
--   the store refines. LIKE is a parameter.
-- Primitives: what the program uses of the cryptography package, of hashlib and of base64, a record
--   of functions, and IsSound, what their documentation says of them. Primitives/Samples has
--   concrete functions for which this holds.
-- Identity (core/identity.py): device IDs and fingerprints, and what an identity is.
-- Trust (core/trust.py): the store is its memory and its file; a call may fail to write after it has
--   changed the memory, and a restart reads the file.
-- Session (core/session.py): a side of the handshake is a function of the key and the nonce that it
--   draws and of its socket, to the bytes that it sends and what it returns. Json/Canonical sorts the
--   names of an object. Session/Agreement puts both sides together, Session/Authenticity a server and
--   its trust store.
-- Pairing (core/pairing.py): the two sides of the exchange, as in Session; Pairing/Inbox is the
--   PairingInbox, with its clock as an argument.
-- Prelude holds what they share: Python's exceptions as Result, dictionaries as association lists,
--   lists over native numbers, integers, sorting.
--
-- Times are natural numbers, where their order is all that matters; those of the trust store may be
-- negative, infinite or nan, as its validation tests for that. Not modelled: the text interface and the entry points,
-- threads and sockets outside the steps above, logging, and for now the
-- files of the identity, and how a partial file becomes a received one.
pub mod Prelude
pub mod Lifecycle
pub mod Inbox
pub mod Frame
pub mod Json
pub mod Config
pub mod Protocol
pub mod Transfer
pub mod Resume
pub mod History
pub mod Primitives
pub mod Identity
pub mod Trust
pub mod Session
pub mod Pairing
