-- ===== src/Lib.antt =====
-- A model of the QRTR name server and its client library, and theorems about them.
--
-- The name server (src/ns.c) answers packets on the control port. It keeps a map from node
-- numbers to nodes; each node has a map from ports to servers, and local clients leave lookups, the
-- observers. Both maps are the hash map of src/map.c with the hash of src/hash.c. Clients send
-- requests through lib/qrtr.c, which also decodes what the name server sends, and src/lookup.c
-- prints the replies to a lookup. The messages of services are QMI messages, which
-- lib/qmi.c encodes from C structures and decodes into them by tables that describe these.
--
-- Files:
--   Base           shared names, Boolean tests (Base/Tests), lists (Base/Lists), digits (Base/Bits)
--   Hash           src/hash.c: hash_u32, hash_u64, hash_pointer, hash_mem
--   Map            src/map.c and src/map.h, one function for each function and loop there;
--                  Map/Probe has the invariant, Map/Search the two probing loops, Map/Lookup the reads,
--                  Map/Store, Map/Round, Map/Move, Map/Rehash and Map/Reput the writes, Map/Remove the
--                  removal, Map/Iterate the loop map_for_each, Map/Update a write through a pointer,
--                  Map/Abstract the operations on the map that map_get reads
--   Packet         include/libqrtr.h and include/ns.h: addresses, control packets, byte order
--   Ns             src/ns.c: Ns/State has the structures and the packets, Ns/Registry node_get,
--                  server_add, server_del and server_query, Ns/Control the handlers, ctrl_port_fn and
--                  the loop of main; Ns/Invariant has the invariant of the registry; Ns/Nodes,
--                  Ns/Notices, Ns/Servers, Ns/Removals, Ns/Acts, Ns/Greetings, Ns/Handlers, Ns/Serve,
--                  Ns/Effects (NEW_SERVER), Ns/Withdrawals (DEL_SERVER), Ns/Clients (DEL_CLIENT), Ns/Hello,
--                  Ns/Lookups and Ns/Bye are about the operations of these names; Ns/Main is main, and
--                  Ns/Main/Started is about the server that it runs
--   Qrtr           lib/qrtr.c: the four requests and qrtr_decode; Qrtr/Calls and Qrtr/Requests; Qrtr/Sockets
--                  has qrtr_open and the receiving calls
--   Lookup         src/lookup.c: the table of names, the request and the lines; Lookup/Listing
--   Qmi            lib/qmi.c: memory, tables and the walks over them; Qmi/Encode has qmi_encode, Qmi/Decode
--                  qmi_decode, Qmi/Message the minimum length and the functions that clients call;
--                  Qmi/Memory has lemmas on copies, Qmi/Bounds is about where the encoder writes,
--                  Qmi/Inside about where the decoder writes, Qmi/Tables and Qmi/Finish about how the
--                  encoder ends, Qmi/Progress about how the decoder ends, and Qmi/Flat about tables of
--                  fields: their encoding (Flat/Encoded), what does not fit (Flat/Refused), their decoding
--                  (Flat/Decoded) and Flat/RoundTrip
--   Waiter         src/waiter.c: tickets, the pollset and the waits; Waiter/Steps has the calls of a program
--                  as steps and what holds after them (Steps/Lengths, Steps/Waits, Steps/Reached),
--                  Waiter/Ready is about when a wait ends, Waiter/Answers about
--                  waiter_wait_timeout and Waiter/Synchronized about waiter_synchronize
--   LinkedList     src/list.h: the operations on links; LinkedList/Segments has lists of links,
--                  LinkedList/Writes, LinkedList/Edits and LinkedList/Removal are about one operation,
--                  LinkedList/Runs about many and LinkedList/Prepend about list_prepend
--   System         how a program ends, and the calls and constants of the kernel; System/Laws has what its
--                  documentation says of them
--   Addr           src/addr.c: qrtr_set_address; Addr/Sets
--   Cfg            src/cfg.c: main; Cfg/Argument
--   Tests          concrete inputs (Tests/Data), and the theorems applied to them
--
-- How the state corresponds: `Ns` is struct context with the global map of nodes and the packets
-- that were given to sendto, in order; pointers to items are their owners, and `map_update` is a
-- write through such a pointer. An `Env` answers for the system while one packet is handled: which
-- allocations succeed, what sendto returns, and what uninitialised words hold; within one packet the
-- same message or size gets the same answer. `Datagram` is what
-- recvfrom gives. A machine word is a number below 2 ^ 32 with the wrap-around written out; the
-- C ints of the map bound its size by 2 ^ 31, which is asked of the allocator.
--
-- In the QMI coder memory is a function from addresses to bytes, one for the memory that is read
-- and one for the memory that is written, so the two never overlap; a table is a list of elements
-- with inner tables; `EncodeVars` and `DecodeVars` are the local variables of qmi_encode and qmi_decode. The
-- machine is little-endian, with 32-bit int and 64-bit size_t, and a result is a number of bytes
-- below 2 ^ 31 or an error. A length field of an array is read up to the four bytes of the variable that
-- holds it, where the code overruns it for a wider one.
--
-- In the waiter the tickets are a list, each with its address; poll is a function of the file descriptors
-- and the timeout, and the times that time_ms returns are arguments. Callbacks are returned in the
-- order in which they run and do not change the waiter. C ints do not overflow there.
--
-- Fuel: the loops of qmi_encode get as many rounds as the table and its inner tables have
-- elements, since each round and each inner call goes on in the table; the loops of qmi_decode get
-- as many as the message has bytes and the table elements, since a round reads three bytes of the
-- message or goes on in an inner table. The loop of map_reput gets 2 rounds, which
-- are enough for a valid map, since a map that was just made larger has room; the loop of
-- map_for_each gets as many rounds as the table has entries, since it only moves forward. The
-- probing loops count their rounds as the code does.
--
-- The links of src/list.h are two functions from the addresses of items, and a write through NULL is
-- `none`. The lists of src/ns.c and src/waiter.c are List; LinkedList is about the links themselves. A program of src/addr.c, src/cfg.c and the main of
-- src/ns.c is a function on a state of the kernel that may exit; its getopt, strtoul and calls are
-- parameters, the latter with the laws of System/Laws where a theorem needs them: of a request over
-- netlink they say that it is acknowledged, and that an error of 0 in the acknowledgement means that it
-- was carried out.
--
-- Not modelled: logging, the release of memory, qrtr_poll and time_ms, which only call the system, and
-- the closing of sockets by a process that exits.
pub mod Base
pub mod Hash
pub mod Map
pub mod Packet
pub mod Ns
pub mod Qrtr
pub mod Lookup
pub mod Qmi
pub mod Waiter
pub mod LinkedList
pub mod System
pub mod Addr
pub mod Cfg
pub mod Tests
