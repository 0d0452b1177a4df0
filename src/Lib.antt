-- ===== src/Lib.antt =====
-- RtCSP, a client and server framework in C: verification of its core.
--
-- The server listens on a socket, hands each accepted connection to one of a fixed number of worker
-- threads, reads packets from it, and calls the receive hook of a module that the packet names. The
-- parts and their files:
--
--   Base        lists, text, tests and integers over the native numbers, for all parts.
--   Queue       queue.c and queue.h. The linked queue over an explicit heap of items (queue_init,
--               queue_push, queue_pop, queue_free_ex). Chain describes the cells of a queue in the
--               heap, Refine compares each operation with a list of payloads, and Fifo is that list
--               as the other parts use it.
--   Conn        conn.c and conn.h. The table of connections: slots `iconns`, spare indices `iqueue`,
--               number of connections, and the store of objects (attach_conn, insert_conn,
--               remove_conn, index_conn, ref_conn, unref_conn, clean_conn, detach_conn). Lock is the
--               reader-writer lock as a step relation on threads.
--   Getopt      getopt.c and getopt.h. rtcsp_getopt, with its static variables in a state, and the
--               loop of its callers.
--   Socket      socket.c: recv_data_len, socket_recv, socket_send, socket_connect. What the kernel
--               answers is an argument.
--   Loop        loop_event.c, loop_event.h, and socket_close of socket.c. The state of the server is
--               the connection table, each worker's two queues and pipe, and how it listens. Listen is
--               listen_handler, Serve notify_handler, read_handler and socket_close, Shutdown
--               signal_handler and the end of a worker, Hooks the registration of receive hooks,
--               Dispatch the way of a packet to its hook.
--               Lifecycle is the start and the end of the threads and the order of the modules' hooks.
--               Reach is the relation of all states that steps of all threads lead to.
--   Serialize   serialize.c and serialize.h: the writer serialize_string_ex, the reader
--               _serialize_parse and the skipper _serialize_parse_force, for all formats. Api
--               has the functions around them; Values, Objects and Entries are about what is read back,
--               Memory about what the reader writes to.
--   Bench       bench_event.c, bench_event.h and bench.h, the load generator. Worker has the handlers of a
--               worker thread (worker_notify_handler, read_handler, send_request) on its connections,
--               Main those of the main thread (main_notify_handler, send_recv_call, signal_handler,
--               stdin_handler), Window the statistics of the last seconds (timeout_req_handler). Round
--               and Rounds follow a worker through a round, Plan, Schedule and Order the main thread
--               through all rounds, Results is about the sums, Average and Seconds about statistics.
--   Program     RtCSP.c (Server) and bench.c (Load): the tables of options, the loop over the options
--               and what is done with them. Rendered, Commands and Service are about the meaning of a
--               command line, Ending and Total about the end of the loop, Pages and Sizes about the size that
--               the usage shows (fsize of api.c).
--   Control     server.c: server_start, server_stop and server_status over what the system calls answer;
--               Stopping is about stop after start, Groups about the credentials of the service.
--   Demo        modules/demo: the receive hooks of demo.c and the entries of demo_bench.c.
--               Table is the table that demo_mysql writes, Queries the queries that the hooks make.
--   Session     models/session.c and models/session.h: the format of a row of the table session.
--   Database    mod_my.c and mod_my.h. The settings from the configuration file (mod_my_start); Config is
--               about them. Handles has the calls of the client library by mod_my_start, mod_my_stop,
--               mod_my_thread_init, mod_my_thread_destory and the timer, Query the macros of a query.
--               Schedule joins Handles with the life of the threads; queries of other modules are not in it.
--   Exchange    a request from Bench.Worker through Loop.Dispatch and back.
--   Examples    the theorems at concrete inputs.
--
-- Bench.Worker uses Socket and the reader and writer of Serialize; Program uses Getopt.
-- Loop uses Conn for its table, Socket in read_handler, and the list view of Queue for the queues of
-- the workers and the spare indices.
--
-- Conventions. `none` and `fault` are a failed assertion or an access outside an array or through a
-- pointer to no object. A pointer is a number, NULL is 0 or `none`. Fields of fixed width that can
-- wrap have their wrap-around written out. A handler, or its turn on one byte of a pipe, is one step:
-- the pushing of a connection and the writing of its letter are in the same step. Hooks of modules
-- are taken to leave the server's state alone, except that they may ask for any step of their own.
--
-- Fuel. all_options and free_loop run on fuel that the theorems bound from below by what is left of
-- the command line and by the number of items. The reader and the skipper of Serialize run on fuel
-- and say so with `starved` or `none`; where a theorem says that a value is read, it says for which
-- fuel.
--
-- options_loop runs on fuel in the same way, and the theorems about it say how much is enough. The
-- loops of bench_event.c are recursion over the workers, the connections and the letters. server_stop
-- runs on fuel for its polls, of which a terminal of `cols` columns allows `cols - 30`.
--
-- What glib and the MySQL client library answer is an argument of Database and Demo. What the library
-- asks for in the use of a handle or a statement (Database/Handles/Uses, Demo/Queries/Blocks) is
-- taken from its manual.
--
-- Not modelled: api.c but for strnprint and fsize; messages on stdout and stderr and the texts of the
-- pages; what pthread_join does to the detached workers; times and throughput, which are floating
-- point; the options of sockets; what libevent, glib and pthread do inside. A worker of the load
-- generator without connections writes the letter `b`, which Bench.Worker and Bench.Main handle and
-- Bench.Order leaves out. The choice of a module and an entry by the user, without HAVE_SKIP_BENCH, is
-- left out: the load generator begins with the first.
pub mod Base
pub mod Queue
pub mod Conn
pub mod Getopt
pub mod Socket
pub mod Loop
pub mod Serialize
pub mod Bench
pub mod Program
pub mod Session
pub mod Database
pub mod Demo
pub mod Exchange
pub mod Control
pub mod Examples
