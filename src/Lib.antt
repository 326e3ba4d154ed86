-- ===== src/Lib.antt =====
-- MyQUIC2 tunnels UDP and TCP traffic over one QUIC connection. This library models the wire of its
-- third revision, the codecs that both endpoints run on every datagram and control message, and the
-- flow tables that let a datagram name its destination by a short id.
--
-- The program's parts, and the files that model them:
-- * src/mqp/error.rs, the refusals: Mqp/Error (`MqpError`, and a result type for the codecs).
-- * src/mqp/addr.rs, target addresses: Mqp/Addr. `header` measures an address, `encode_into` writes
--   a measured one into a slice, `encode` appends one to a buffer, `decode` reads one.
-- * src/mqp/r3.rs, the frames: Mqp/R3 with a child for each part. Frame has the class and form bits,
--   the limits and the classification of a first byte; Fid the flow ids, split in two halves by
--   owner, and the allocator `FlowIds`; Field the readers and writers of integers, addresses and
--   item lengths; Data, Frag and Train the three kinds of frame, each with its encoders and its
--   decoder; Ctl the control messages.
-- * src/mqp/ctl_stream.rs, the control stream: Mqp/CtlStream has the first byte of a stream, the
--   incremental framing of control messages and the receiver's rate budget.
-- * src/mqp/r2.rs and src/mqp/wire.rs, wire ids: Mqp/R2 (a sender-local id over an owner bit) and
--   Mqp/Wire (the map to the flow ids of revision 3); the allocator is Mqp/Flow/Ids.
-- * src/mqp/r2_flow.rs, flows: Mqp/Flow. Binding is `FlowBinding` with its atomics in a store, Window
--   its racing methods as atomic accesses of interleaved threads (Promise: what they promise one), Registry the `FlowRegistry` of a
--   connection (Purge: `remove_session`, `remove_sessions`), Session the `SessionFlows` of a session,
--   Handshake the `CtlState` of a connection: its HELLO, its CAPS and its rate window.
--   Registry/Steps is the step relation of a connection: its registry, allocator and atomics under
--   every operation; Registry/Tally, Retain, Sync and Invariant carry its invariant.
-- * src/bin/myquic2-client/rev2.rs, the client's flows: Client/Rejects, the targets a server
--   rejected, and Client/Uplink, `ensure_binding` and `sync`, which find, reuse or open the flow of a
--   payload.
-- * src/bin/myquic2-server/reader.rs and accept.rs: Server/Install, `install_unsolicited`, `r2_install`
--   and `r2_remove_flow`, which keep the registry and a session's table in step.
-- * src/udp/r2_frag.rs and r2_reasm.rs, payloads over one frame: Udp/Frag is the sender's `FragPlan` and
--   the chunks that `send` takes by it; Udp/Partial is a `Partial` with its buffer, its mask and its
--   queue, and Udp/Reasm the `R2Reassembler`: `push_frame` in its parts, `expire`, `evict_oldest`,
--   `prune_orders`, `drop_session` and `drop_flow`. Partial/Fits says what a partial is while the chunks
--   of a planned payload arrive, Partial/Bounded what it costs, Reasm/Live when a frame
--   is taken, and Reasm/Account what the counters count.
--   The limits are those of src/mqp/fragment.rs, in Mqp/Fragment.
-- * src/dns/key.rs, the keys of the DNS caches: Dns/Key. The loops over a name and a port's digits run on
--   the name's length and on the five digits that a port can have.
-- * src/dns/memo.rs, a thread's memo of resolved names: Dns/Memo. A call takes its deadline in the
--   coarse clock and the epochs that it reads.
-- A client opens a flow in its registry and its session's table (Uplink over Registry and Session);
-- the server installs it in its own two tables (Install), and each side opens ids of its own half only.
-- Frames carry addresses (Addr) and flow ids (Fid) and are built from fields (Field); the control
-- stream frames the messages of Ctl, and its first byte shares a code space with the address types
-- of Addr. Common holds what the parts share; Mqp/Runs runs them on concrete bytes.
--
-- How the code is read:
-- * A byte is a number below 256 and a buffer a list of bytes; a theorem that needs the bound says
--   so. `&b[off..]` is `drop off b`, a checked `get` an Option. `usize` has 64 bits, so
--   `checked_add` and `checked_mul` fail from 2 ^ 64 on. `as u8` and `as u16` keep their remainder.
-- * Pushes onto a `Vec` are the list of the pieces in order; `encode_into` writes a prefix of its
--   slice and leaves the rest. A `debug_assert!` is compiled out.
-- * An encoder returns an Option, as in the code; a decoder the result type of Mqp/Error.
-- * The arms of a decoder's `match` are definitions of their own. Loops over a count are recursion
--   on the rounds left, so no fuel is needed; an iterator is collected with one call more
--   than its frame counts items, and `Gives` is its calls up to the first that returns nothing.
-- * A `[u16; 64]` array and its number of used entries are the list of these entries.
-- * A string is its bytes, tested by a UTF-8 automaton. The wire drops the flow label of an IPv6
--   address (`on_wire`) and refuses one with a scope id.
--
-- * A map is an association list without repeated keys, in some order of iteration. The functions on
--   it take the first entry of a key. A counter of 64 bits wraps.
-- * A binding is shared: the part that never changes is copied, its atomics are a cell of a store.
--   Window interleaves single accesses of one binding, taken as sequentially consistent; everywhere
--   else a method is one step. An operation of the registry, its locks included, is one step too.
-- * The server's installs take the session's table twice: as the bounds check saw it, and as it is
--   when the new table is published. `is_rejected` likewise takes the cache under each of its locks.
--
-- Not modelled: the owned `TargetAddr`, which calls the borrowed form; `CtlSender`, `CtlReceiver` and
-- the stream openers, which are asynchronous reads and writes on QUIC streams; the frames of the second
-- revision (src/mqp/r2.rs, and the views over both revisions in src/mqp/wire.rs) and the older formats
-- beside them; the stager, the socket calls and the older fragments of src/udp, the
-- DNS caches but the memo and the keys (src/dns), and of the client and server programs all but the flow functions above: their
-- queues, sockets and timers are asynchronous I/O. Counters of the statistics and log lines are left
-- out of the functions that are modelled.
pub mod Common
pub mod Mqp
pub mod Client
pub mod Server
pub mod Dns
pub mod Udp
