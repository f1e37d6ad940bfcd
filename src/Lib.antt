-- ===== src/Lib.antt =====
-- A peer-to-peer file service: peers keep files in a shared directory, find files of other peers, and
-- send them over TCP. A central index server (src/index_server.cpp) knows which peer has which file; peers
-- without it (src/decentralized_peer.cpp) pass queries on to their neighbours. A user works at the menu of a peer
-- (src/peer_cli.cpp), or runs the benchmarks (src/benchmarks.cpp). All of them speak the
-- messages of src/comms.c, whose payloads src/messages.cpp makes and reads.
--
-- Files and what they model:
--   Prelude, Word: shared names, lists and their lemmas, `int`s of 32 bits and little-endian words.
--   Comms: `conn_t`, `msg_t`, the types of messages, createupdt_msg, createfile_msg and delete_msg.
--     Comms.Send is send_msg with sendupdt_msg and sendfile_msg, Comms.Name is getname, and Comms.Recv is
--     recv_msg with recvupdt_msg and recvfile_msg. Transmit and Holed say what goes on the wire, Basename
--     what getname does, Header, Dispatch and Reassemble how a stream is read back, Closed and Overrun how that
--     fails, Errors what recv_handleerror releases, and RoundTrip, FileBlock and FileTrip put the two sides together.
--   Messages: create_message and parse_message of src/messages.cpp, one definition for each overload.
--   FileIndex: the class FileIndex of src/file_index.cpp; Lookup sees it as a function from
--     names to peers, and Refines is about any sequence of calls.
--   IndexServer: message_handler of src/index_server.cpp and all that it calls. `search_file` is its
--     search_index. Circle and Replication are about find_replication_peers, Handlers about single requests,
--     and History about any sequence of them.
--   Exchange: send_once and send_and_recv of src/messages.cpp; Exchange.Reply puts a reply through both sides.
--   CentralizedPeer: the class of src/centralized_peer.cpp. `fetch` is request_file with a name alone, and
--     `request_file_from` the one with a peer. Search is about its messages to the index server, Transfer
--     about files and replicas, and Fetched about a file on its way from one peer to another.
--   DecentralizedPeer: the class of src/decentralized_peer.cpp. `answer_search` is its search_index and
--     `fetch` its request_file. Ids is about get_message_id, Queries about queries that come in, Stores
--     and Replies about the stores of the threads of broadcast_query, Broadcast and Alone about that and the
--     searches that rest on it.
--     Config is init_neighbors and init_fileset with the constructor; Config.Read and Config.Linked are about the
--     files that they read.
--   Flood: one query in a network of such peers, as a step relation of their threads (search_index,
--     broadcast_query and search_for_file of src/decentralized_peer.cpp). Invariant, Covered, Steps and Outcome
--     are about what holds in every run, Sums and Measure count the steps, and Progress is about runs that
--     can go on.
--     Asked compares whom a peer asks in it with broadcast_query, Threads is about how many threads the peers
--     need for it, and Shipped and Shipped.Located are about the topologies of config/.
--   Text: what the sources use of C++'s strings, and `%d`; Numbers and Lines are about reading back what is
--     printed.
--   PeerCli: src/peer_cli.cpp. Arguments is about parse_conn_arg and main, Session, Ended
--     and Offered about launch_cli.
--   Sockets: the functions on a `conn_t` of src/comms.c, and in Sockets.Loop those of src/server.cpp that
--     call them. Address, Accept, Returns and Leaks are about them.
--   Benchmarks: src/benchmarks.cpp; Names and Counts are about its file names and its loops.
--   ThreadPool: the class of src/thread_pool.cpp as a step relation. Totals counts its threads, and Jobs,
--     Wakeups and TearDown are about its runs.
--   Server: init_new_connection and the result of start of src/server.cpp; Ports is about the former. The
--     loop and the destructor are in Sockets.Loop.
--   The modules named Tests run the definitions on small inputs.
--
-- How the model is made. Bytes and sizes are natural numbers, an `int` is an integer whose range is a
-- condition, and a payload is a list of bytes, with the size kept beside it as in the code. What the
-- operating system and the C library answer is a parameter: `malloc`, `send` (by the number of its
-- call), `recv` (a list of deliveries), `open`, `ftruncate`, `mmap`, `readlink` and `rand`. A result
-- is an Outcome: a value, an error that the code reports, memory touched out of bounds, or not yet
-- returned when the fuel is used up; where only a crash is possible it is an Option. What a handler
-- sends is a list of effects. A peer asks the network through an interface, `ask` and `once`, of which
-- Exchange is the implementation; the stores of the threads of a broadcast, three for each reply and
-- without a lock, may happen in any order. A copy that reads behind a payload is memory touched out of
-- bounds, whatever is there. The sending loops run on fuel, and more fuel than bytes is enough; the
-- receiving loop runs on fuel, and more fuel than deliveries is enough; the circular search of the
-- index server runs on the number of peers, which is always enough.
--
-- A query in the network of peers is a relation between states, in which any thread of any peer may go
-- on next: a request arrives at a peer that has seen the query, has the file or passes it on, or the
-- threads of a peer are joined. A peer stands for its address, a reply is a DUP_REQUEST or names a
-- peer, and no message is lost. One query is looked at: others share the neighbours, the files and the
-- threads of the pools with it, so what is said of a search that goes on to a result is about a search
-- that is alone. Its measure bounds the runs by a number that the number of peers gives. Whether a
-- request that has arrived has a thread to serve it is left open but in Threads and Shipped.Located,
-- where it has one only while the pool of the peer has one that is free. The open descriptors of a
-- process are a function from numbers to Booleans. The menu runs on fuel, of which a session needs one
-- more than it has commands.
--
-- Not modelled: several queries at once, which compete for the threads of the pools; debug output and
-- perror, the prompts of the menu, the clock and the waits of the benchmarks, the scripts. Requests to
-- the index server and to a peer are taken one at a time. What `atoi` makes of a number that is no
-- `int` is not defined by C, and is 0 here.
pub mod Prelude
pub mod Word
pub mod Comms
pub mod Messages
pub mod FileIndex
pub mod IndexServer
pub mod Exchange
pub mod CentralizedPeer
pub mod DecentralizedPeer
pub mod Flood
pub mod Text
pub mod PeerCli
pub mod Sockets
pub mod Benchmarks
pub mod ThreadPool
pub mod Server
