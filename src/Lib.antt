-- ===== src/Lib.antt =====
-- msgbroker: a messaging library in C, with sockets of several kinds (request and reply, publish and
-- subscribe, pipeline, pair, survey, bus) over transports (inproc, ipc, tcp, tls, ws), and a small
-- cluster layer. Paths below are from the root of the repository.
--
-- How the parts interact. A socket type (src/protocol) is a table of callbacks over the pipes that
-- connect it to its peers. It keeps its pipes in a fair queue to receive (src/utils/fq.c) or a load
-- balancer to send (src/utils/lb.c), and calls each pipe through the functions that the transport
-- installed. The inproc transport holds the messages of a pipe in a queue of chunks
-- (src/transport/inproc/msgqueue.c). A SUB socket filters by a trie of topics (src/utils/trie.c). In
-- src/distributed, gossip keeps the list of the nodes that are alive, the ring assigns keys to nodes by
-- consistent hashing, and the cluster adds a node to both and takes it out of both.
--
-- Which file models which part:
--   Prelude, Errno      shared names, tests, words and bits; the codes that functions return
--   Memory/Msg          struct mb_msg of src/memory/msg.c as three lists of bytes
--   Transport/Msgqueue  src/transport/inproc/msgqueue.c: mb_msgqueue_push and _pop are push and pop,
--                       in steps: writable, store, settle, prepare; take_out, advance
--   Transport/Sinproc   src/transport/inproc/sinproc.c: mb_sinproc_send and _recv are send and recv, over
--                       the queue above
--   Transport/Stream    what a session of a transport asks of its descriptor
--   Transport/Sipc      src/transport/ipc/sipc.c, the session of ipc and of tcp: mb_sipc_send, _recv, _stop
--                       are send, recv, stop
--   Transport/Stls      src/transport/tls/stls.c, as the session of ipc over OpenSSL
--   Transport/Sws       src/transport/ws/sws.c: mb_ws_mask, mb_sws_build_frame are mask, build_frame;
--                       mb_sws_send and _flush_outbuf are in Out, mb_sws_recv is in In and Recv
--   Utils/Trie          src/utils/trie.c: mb_trie_add, _rm and _match are add, rm and match
--   Utils/Rotor, Fq, Lb src/utils/fq.c and lb.c, of which the rotation is the same code: rotate
--   Utils/Wire          src/utils/wire.h
--   Core/Pipe           what src/protocol.h and src/core/pipe.c offer a socket type of a pipe
--   Aio/Timerset        src/aio/timerset.c
--   Core/Socktypes      the table of socket types of src/core/global.c, which calls on every type
--   Core/Global         mb_socket and mb_close of src/core/global.c, as far as the table of the open
--                       sockets goes: socket, create_socket, close
--   Core/Sock           src/core/sock.c: mb_sock_setopt, mb_sock_getopt_inner are setopt, getopt; Calls has
--                       mb_sock_send, _recv, _pipe_add, _pipe_rm
--   Core/Limits         src/core/limits.c
--   Memory/Slab         src/memory/slab.c
--   Utils/Queue, Chain  src/utils/queue.c, without its lock-free queue, and src/utils/list.c, with their
--                       links
--   Utils/Hash          src/utils/hash.c: mb_hash_insert, _erase, _find and _grow are insert, erase,
--                       find, grow
--   Protocol/Req, Rep, Sub, Pub, Surveyor, Respondent, Push, Pull, Pair, Bus and the raw types, whose
--                       names begin with X
--                       the file of that name below src/protocol, callback by callback: create, add, rm,
--                       in_pipe, out_pipe, events, send, recv, setopt, getopt, ispeer
--   Protocol/Spread     the loops over the pipes that these files write out alike
--   Protocol/Turns      the order of requests and replies, which three of the types keep
--   Protocol/Types      the numbers of the types, of include/msgbroker
--   Distributed/Ring, Gossip, Cluster, Protocol
--                       src/distributed/ring.c, gossip.c, cluster.c (with routing.c) and protocol.c
-- The child modules hold the proofs and are named for what they prove; each Tests module runs the
-- definitions at concrete inputs and applies the theorems there.
--
-- How the code is modelled. A structure is a record, and a function returns the new one; `int` results
-- are Rc, and a function that also gives a value returns it in an Answer. Machine words are natural
-- numbers with the wrap-around written out. A doubly linked list is a list, and a pointer into it is
-- the key of the item (the number of the pipe, the id of the node). The functions that run under a
-- lock are single steps. Whether mb_alloc succeeds is an argument: a Boolean at one place, a number of
-- allocations that succeed for the trie, a test on the size for the growing arrays of the ring. What
-- lies outside the source read here is a parameter: the functions of a pipe are a record over the state
-- of all transports, the text that snprintf makes of a virtual node is an argument of the ring, and
-- the clock is an argument.
--
-- Bounds and fuel. The loops are recursion on the list or the bytes that they walk. The search of
-- the ring has as fuel the number of virtual nodes, which halving cannot use up. The loop of a SUB
-- socket that skips messages takes fuel, of which one round more than the messages that the pipes
-- can give is enough; the loop that fires timers needs as many rounds as timers are due, since a
-- callback makes none due. The loops of a SURVEYOR socket that drain a pipe take fuel, of which one
-- round more than the messages that the pipes can give is enough. The loops over send and recv have as
-- fuel the number of bytes left, of which each round moves one; the loop of a WebSocket session has a
-- round more for each control frame. Hypotheses bound what the source bounds by its types or by a
-- constant: sizes below 2^64, fewer than 2^32 - 1 subscriptions in a trie and
-- 2^31 - 1 on a socket, at most 256 nodes in one tick.
--
-- Not modelled: the loops of the transports that accept and reconnect, the handshakes, the event
-- loop and its threads, the other allocators, what a socket does beside its type (blocking,
-- polling, binding, its statistics beside those of messages), mb_term, the discovery by multicast,
-- the threads of gossip, and the program's tests, tools and examples: they do I/O or start threads,
-- or are not reached yet. The callback destroy of a socket type only frees what the socket holds.
-- Outside Utils/Queue and Utils/Chain an intrusive queue or list is a list.
pub mod Prelude
pub mod Errno
pub mod Memory
pub mod Core
pub mod Utils
pub mod Aio
pub mod Transport
pub mod Protocol
pub mod Distributed
