-- ===== src/Lib.antt =====
-- A model of rd, the routing daemon of this repository (rd/), with the theorems on it. A node of
-- the network runs one daemon. The daemon floods its links and the names of its objects to its
-- neighbours by UDP packets (LSA), keeps the newest packet of each node in a routing table, keeps
-- a hash table from the name of an object to the nodes that have it, with the cost of each, and
-- answers a local web server that asks where an object is or adds one. The model covers both ports,
-- the tables between them, the files that are loaded, and the loop that serves them.
--
-- The parts, from the ground up:
--
--   Prelude      numbers, C's words of 32 bits (`add32`, `sub32`, `shl32`, `sle` for a signed
--                comparison), the bit operations (Prelude/Bits), strings without their NUL byte
--                (Prelude/Strings), arrays as functions from the index (Prelude/Arrays), lists,
--                and `defined` for undefined behaviour (Prelude/Faults).
--   Tables       rd/direct_links.h and rd/local_objects.h: lists of the counted entries, in which
--                entry 0 of the links is the node itself.
--   HashSet      rd/hashset.c and rd/hashset.h: the object table. HashSet/Hash has SuperFastHash
--                and the index; the parent has `hash_add`, `hash_remove_object`,
--                `hash_remove_node`, `contains_object`, `get_paths`, `link_contains_obj`,
--                and the rest. Below it: Hash/Bounds (the bytes that the hash reads),
--                Chain (one bucket), Paths (a list of paths), Invariant (`IsValid`, and `view`,
--                the abstract map from names to paths), Add, RemoveNode and RemoveObject (the
--                operations on the abstract map), Names (the names that stay in the table), Release
--                (`collapse`, with the blocks that it frees) and Print (`printPairs`, as the text
--                that it writes).
--   Lsa          rd/lsa.h and the part of rd/flooding_engine.c that makes and reads packets:
--                `create_packet`, `bytes_to_packet`, `store_node_objects`. The macros on the
--                first word are in Lsa/Header. Below it: Header/Fields, Layout (bytes and
--                packets), RoundTrip (what is sent is what is stored), Created (the header) and
--                Learns (what the objects of a packet do to the object table).
--   Routing      rd/routing_table.h, and `get_routing_entry` and `update_entry`. Below it:
--                Lookup, Update (`IsTable`, the invariant of the table), Update/Routes (a call of
--                `update_entry` as one write) and Update/Effect (what the call does).
--   Flooding     rd/flooding_engine.c: `State`, which is the routing table, the object table and
--                the datagrams sent so far, and `rt_recvfrom`, `lsa_handler`, `flood`,
--                `flood_received_lsa`, `retransmit_missing`. The handler is cut in three at its
--                branches: `handle_lsa`, `handle_ack`, and `handle_packet`, which decides between
--                them after the bytes were read. Below it: Checkers (one write to the checkers of
--                an entry), Nodes (what stays when only checkers are written), Flood, Forward
--                (`flood_received_lsa`), Retransmit, Age (the time to live), Accept (an LSA), Ack
--                (an ACK), Hear (a new packet, from its bytes to the answer), Marks and Settle
--                (the ACKs of the own packet), Owed and Own (the own packet, from its flood to the
--                last ACK), Wellformed and Retries (the tables after a packet and after a
--                retransmission), and Routed (`IsRouted`, the routes) with Routed/Same (the
--                loops that change no route), Routed/Packets and Routed/Retries (the routes after a
--                packet and after a retransmission).
--   Engine       rd/engine_actions.c: the block of `engine_event` that runs when select times
--                out. Below it: Period (the flooding period and the ageing of the entries), Runs
--                (the step relation of timeouts and datagrams), Routed (the routes after a
--                timeout) and Ticks (its two counts).
--   Text         the functions of the C library on texts that the code calls (strcpy, strncpy, strtok,
--                atoi, and %d of sprintf), on lists of bytes: an array is a list of its length, and a
--                text in it ends at the first NUL. Below it: Tokens (strtok on words) and Decimal
--                (atoi of a printed number).
--   Loader       rd/file_loader.c: `load_node_conf` and `load_node_file` on the bytes of the files.
--                Below it: Lines (what fgets reads), Filled (the table after the lines), Conf and
--                Objects (the lines of a configuration and of a list of objects), and Overflow (the
--                stores behind the array of tokens).
--   Request      rd/tcp_connection.h, rd/tcp_connection.c, and `process_buffer` of
--                rd/flask_engine.c. Below it: Fresh (requests on a connection that was just
--                initialised) and Short (requests of too few words).
--   Web          rd/flask_engine.c: `build_response`, cut at its branches (`respond_get`,
--                `respond_add` and their parts), and in Web/Clients the handlers of new clients,
--                requests and responses. Below it: Reply (what a question is answered), Serve (a
--                question from its arrival to its end), Add and Put (an addition, and the question
--                after it), Unknown (other methods), Keeps (what no request changes), Counts
--                (the handlers, and how they count the clients) and Reload (the file of objects at
--                the next start).
--   Daemon       rd/rd.c, and `create_engine`, `recv_handler`, `send_handler` and the loop of
--                `engine_event` of rd/engine_actions.c: the daemon as a whole. `engine_round` is one
--                round of `while (1)`. Below it: Keeps (`IsDaemon`, and what the handlers of
--                one socket keep), Loop (the loop over the sockets and a whole round), Loads
--                (the objects at the start), Runs (the start, and rounds in any order) and Cadence
--                (the counts over rounds).
--   Network      the daemons of neighbouring nodes: what one sends is the datagram that the other
--                receives, as bytes, from the address that its configuration has for the link
--                (sendto and recvfrom between them lose and change nothing; a datagram that is
--                lost is one that does not arrive). Network/Hop (a packet is sent on) and Network/Travel
--                (a packet over any number of nodes) have the hops after the first, and
--                Network/Publish has a client that asks a node for an object of another.
--   Tests        the operations on concrete tables and packets.
--
-- How C is read. Code that changes memory takes the memory and returns it: `LisoHash` for the
-- object table, `RoutingTable` for the 150 places of the routing table, `State` for both. An
-- index that the C reads as a pointer into the routing table (`&rt->table[i]`) is the index, so a
-- write by one function is seen by the next. `Option` stands for two things, and each definition
-- says which: a pointer that may be null, and a step with undefined behaviour (a null pointer
-- that is followed, an index outside an array, a value that was never set), which has no result.
-- An int is a natural number below 2 ^ 32 with C's wrap-around. A count that was never set is
-- `none`. The chains of the hash table are lists of pairs, and the bytes that malloc leaves
-- behind a packet are a parameter, `unset`.
--
-- Loops are recursion on the number of rounds left, which is the C bound minus the counter at the
-- start (`rounds` reads the bound as a signed int, so a negative one gives no round). The loop over
-- the sockets reads its bound anew in each round, since a new client can raise it; it gets 1024
-- rounds, which is enough because no descriptor is 1024 or more. The loop of `store_node_objects`
-- runs `num_objects` rounds. Loops over lines and lists are recursion on them.
--
-- What the system does is an argument: the datagrams (recvfrom), the descriptors that accept returns,
-- the bytes or the error of recv, whether send takes the bytes or fails and whether errno is then
-- EPIPE or ECONNRESET, which sockets select finds ready, the host name, and whether the server
-- sockets can be made. sendto appends to `sent`, send to `replies`, and the file of objects is its
-- bytes. exit is `none`, like undefined behaviour. The files can be opened. What lies
-- behind the array `tokens` of `load_node_conf`, into which each line stores six tokens for its five
-- places, is up to the compiler: `spare` is the number of words there that hold nothing, 0 by the
-- standard, and a store behind those is a fault like any other.
--
-- Not modelled: what the other functions print, the memory that other functions than `collapse`
-- free, how long select waits, the check of the
-- number of arguments in `main`, the null tests of addresses that are never null, and the web
-- server itself (starter/webserver.py), which is another program.
mod Prelude
pub mod Tables
pub mod Text
pub mod HashSet
pub mod Lsa
pub mod Routing
pub mod Flooding
pub mod Engine
pub mod Loader
pub mod Request
pub mod Web
pub mod Daemon
pub mod Network
mod Tests
