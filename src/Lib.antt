-- ===== src/Lib.antt =====
-- wsd and wscat: a websocket daemon that relays between websocket clients and one backend that speaks
-- proxy protocol 2, and a command line client. This library models the frame processing of both, the
-- upgrade request and its answer on both sides, the life of the daemon's sockets, what they do with input
-- and output events, timeouts, the daemon as a whole, and its start.
--
-- How the parts interact. main of src/wsd.c makes a configuration of its options and calls wschild_main,
-- which runs event_loop of src/common.c: in each round try_recv for the sockets in the work list, then
-- the timeouts of all sockets, then the events of epoll. wscat writes an upgrade request to its socket.
-- The daemon accepts a socket (src/wschild.c), whose bytes arrive in its receive buffer (Skb) by sk_read
-- and put it into the work list. try_recv calls http_recv for it, which reads the upgrade request and
-- hands it to ws_decode_handshake (src/ws_wsd.c) for the answer. From then on try_recv calls ws_recv,
-- which opens the backend if needed and calls ws_decode_frame (src/ws.c) until there is no whole frame
-- left. That reads a masked frame, unmasks the payload in place and dispatches by opcode: data goes
-- through pp2_encode_frame (src/pp2.c) to the send buffer of the backend's socket, behind a proxy header
-- with the client's addresses and connection hash; control frames are answered in the client's send
-- buffer. In the other direction pp2_recv calls pp2_decode_frame, which reads a proxy header from the
-- backend's receive buffer, finds the client by its hash (src/hashtable.h) and has ws_encode_frame write
-- a text frame to that client's send buffer. wscat (src/wscat.c) cuts its input into masked frames of
-- its own, prints the payloads that come back and answers control frames with the functions of src/ws.c.
--
-- The files.
--   Prelude      names of the libraries, Boolean tests, lists over native numbers, machine words, texts
--   Memory       byte arrays as functions from the index
--   Skb          skb_t of src/types.h, the macros of src/common.h, skb_compact, skb_put_strn; its
--                contents as a queue of bytes (Skb/Contents), copy loops (Skb/Moves) and what a
--                sequence of stores appends (Skb/Append)
--   Types        error codes, chunks, frames and sockets of src/types.h
--   Sock         the epoll mask: turn_on_events, turn_off_events; sk_init of src/common.c
--   Mask         mask of src/common.c and the loop that unmasks a payload
--   Ws           src/ws.h and src/ws.c: frame headers (Ws/Header), control frames and the closing
--                handshake (Ws/Control), data frames (Ws/Data)
--   Pp2          the codec of src/pp2.c and pp2_encode_frame
--   Hashtable    src/hashtable.h, its lists as sequences; an access outside of its 16 buckets is `none`
--   Server       the backend's socket and the clients: pp2_decode_frame
--   Http         the upgrade request: src/parser.c (Http/Token, Http/Parser), and trim of src/common.c
--                and src/http.c (Http/Validate, Http/Recv)
--   Upgrade      ws_decode_handshake and what it calls, of src/ws_wsd.c: the text of the reply
--                (Upgrade/Reply), how it is put together (Upgrade/Laws), its guards (Upgrade/Checks)
--   Io           sk_read, sk_write, on_read, on_write, on_epoll_event of src/common.c
--   Child        sk_accept, sk_close, post_read, try_recv and hash of src/wschild.c, pp2_close of
--                src/pp2.c and sk_open of src/ws_wsd.c: the lists of sockets and their invariant
--   Recv         ws_recv of src/ws_wsd.c, first the backend that it opens (Recv/Backend) and then its loop
--                (Recv/Laws), and pp2_recv of src/pp2.c
--   Start        main of src/wsd.c: the options and the configuration (Start/Laws), and the order of its
--                calls from getpwnam on (Start/Launch, Start/Order)
--   Daemon       what `ops->recv` calls for each socket; event_loop with on_iteration, and wschild_main
--                (Daemon/Loop), over the sockets by their descriptors (Daemon/Sockets); the invariant of the
--                lists through event_loop (Daemon/Keeps, Daemon/Invariant), the end of wschild_main
--                (Daemon/Shutdown), a round of try_recv (Daemon/Forward), and a kernel that counts
--                (Daemon/Kernels)
--   Timeout      has_timed_out, check_timeout of src/common.c, check_timeouts of src/wschild.c
--   Wscat        src/wscat.c: its globals (Wscat/State), frames (Wscat/Frame), input (Wscat/Input), the
--                last input repeated (Wscat/Repeat), events (Wscat/Events), the upgrade request
--                (Wscat/Request), TLS (Wscat/Tls), main up to event_loop (Wscat/Main), and what both
--                programs do together: the handshake (Wscat/Handshake), for which the request is
--                read as a line and fields (Wscat/Request/Fields, Http/Fields), accepted
--                (Wscat/Request/Found, Wscat/Request/Accepted), answered (Wscat/Request/Upgraded)
--                and the answer taken (Wscat/Request/Reply), and frames in both directions
--                (Wscat/Relay)
--   Uri          parse_uri of src/uri.c, which wscat uses
--   Fixtures     buffers and sockets for the Tests modules
--
-- Conventions. A byte is a number below 256 and an `unsigned int` or `unsigned long` wraps where the
-- code adds to it; an `int` that can be negative is the word that holds it; the host is little-endian
-- with 8-byte longs (x86-64). A function that returns 0, or -1 with wsd_errno, returns `ok` or `fail`
-- and the error; where a failed assertion ends the process, or a store leaves an array on the stack,
-- the result is `none`, and so where a null pointer or a freed socket is used, or the table of clients
-- is accessed outside of its buckets: a world in which the node of a freed socket is in the work list
-- is marked as `dangling`, and what walks this list then uses it. A buffer's array is a function
-- without an end, so that a store behind the array is visible as a write position above the capacity;
-- the NUL that strcpy stores in put_str behind a text that fills the room is not. A socket in the
-- lists of the daemon is named by its descriptor, and so it is in an event. The kernel is a parameter,
-- of which is used that it gives out a descriptor only while it is not in use. A run of event_loop is
-- the list of its rounds: the time, the events, and what the calls of the kernel return in it; the
-- signal that sets `done` is the list's end. The options of both programs are as getopt has split
-- them.
--
-- Loops recurse on the number of rounds that the code computes before them. The two loops of src/http.c
-- over tokens recurse on the length of the text or of the chunk, and every round takes at least one byte
-- away. The loops that decode frames until one fails recurse on the bytes in the buffer and one more:
-- every frame takes its header at least. The round of hosts has as many tries as the configuration has
-- hosts. The loop of repeat_last has a number of rounds as an argument, since a round in which the send
-- buffer is full leaves the number of repetitions as it is.
--
-- The text that the HTTP parsers see is the list of the bytes of memory from a pointer on; they read
-- behind the end of a token, and so do their definitions. The accept value, SHA1 and base64 of OpenSSL,
-- is a parameter of the upgrade; the results of read, write, connect, accept and of the functions of
-- OpenSSL are arguments, and so is the time.
--
-- Not modelled: logging and print_help; malloc and its failure; the pointers of the lists of src/list.h,
-- a copy of those of Linux; the setup of the listening socket and, but for whether it succeeds, that of
-- the TLS context in wssk_tls_init.
pub mod Prelude
pub mod Memory
pub mod Skb
pub mod Types
pub mod Mask
pub mod Sock
pub mod Ws
pub mod Pp2
pub mod Hashtable
pub mod Server
pub mod Uri
pub mod Http
pub mod Io
pub mod Timeout
pub mod Upgrade
pub mod Child
pub mod Recv
pub mod Start
pub mod Daemon
pub mod Wscat
pub mod Fixtures
