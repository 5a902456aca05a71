-- ===== src/Lib.antt =====
-- The proxy: one process that accepts connections of browsers, reads HTTP requests from them,
-- forwards them to servers and copies the answers back. One thread runs coroutines: a coroutine that
-- would block on a descriptor yields, and the epoll loop resumes it.
--
-- Parts and files
--   Strbuf    core/strbuf.c: struct strbuf with its block, strbuf_init to strbuf_append_num.
--   Conn      core/conn.h, core/conn.c: struct conn, struct conn_endpoint, conn_close and, in
--             Conn/Tostring, ep_tostring.
--   ConnIo    core/conn_io.c: conn_read, conn_getc, conn_ungetc, conn_gets, conn_write, conn_copy;
--             ConnIo/Negative holds conn_copy of a negative length.
--   Event     core/event.c: event ids, the table of handlers, event_post and event_work.
--   NetPull   core/net_pull.c: the table of descriptors, net_pull_work and net_pull_done;
--             proxy_epoll_err of core/net_utils.c.
--   Arg       core/arg.c: proxy_parse_arg.
--   NetData   core/net_data.c: the header table and its lookups; NetData/Parse holds
--             net_parse_header, net_parse_req and net_parse_rsp, NetData/Forward net_append_headers
--             and the two functions that forward a head.
--   NetHandle core/net_handle.c: net_handle_register, net_get_handler, net_fetch_headers,
--             net_fetch_http, net_bad_request and net_bad_gateway; NetHandle/Pipeline is the list of
--             requests that net_http_req_handler and net_connect_req_handler of core/net_http.c fill
--             and net_rsp_handler empties, as a step relation, NetHandle/Nodes the same list by its nodes
--             with head, tail and next; NetHandle/Connect holds
--             net_connect_to_server; NetHandle/Request is the loop of net_req_handler;
--             NetHandle/Session holds the rounds of net_rsp_handler, the end of net_req_handler, the
--             owners of connections and requests (Session/Turns: what changes them), and in
--             Session/Ending the flags and events by which the two tell each other that they end.
--   NetHttp   core/net_http.c: net_transfer_body_HTTP_1_1; NetHttp/Handlers holds the handlers of
--             responses and the loops of a tunnel, NetHttp/Requests those of requests, NetHttp/Methods
--             net_http_module_init with net_handle_module_init of core/net_handle.c.
--   ConnPool  core/conn.c: the pool of free connections, conn_done, conn_get_by_endpoint, conn_free;
--             ConnPool/Node holds the pointers of its nodes, ConnPool/Done the loops of
--             conn_module_done over the pool.
--   Listen    core/conn.c: conn_module_init, and the closing of its sockets in conn_module_done.
--   Accept    core/conn.c: conn_accept_handler, conn_async_final, conn_epoll_handler and
--             conn_event_handler over the coroutines of Async, and the setters of the two handlers.
--   NetUtils  core/net_utils.c: net_dns_lookup_a, dns_notify_handler, net_setnonblocking.
--   Async     core/async.c: async_init, async_yield and async_resume, with what a coroutine does
--             between two yields as a tree of yields.
--   Mem       core/mem.c: mem_alloc_auto, mem_incref and mem_decref.
--   Log       core/log.c: gen_log_string in its buffer, _PROXY_LOG, log_http_req, and the opening and
--             closing of the file.
--   Main      core/main.c: proxy_main, its loop and proxy_done over the sockets of Listen, and
--             sig_handler between two calls of a run.
--   Proxy     proxy.c: parse_uri and format_log_entry.
--   Libc      strcmp, atoi and sprintf on lists of bytes, sscanf ("%x") in Libc/Scan, and in
--             Libc/Digits that atoi reads back what sprintf prints.
--   Run       results of code that may wait, with the rules for total correctness.
--   Prelude   shared names and list lemmas; Prelude/Uthash is the interface of a hash table that
--             Event, NetPull, NetData, ConnPool and NetUtils take as a parameter; an association list
--             fills it, in Prelude/Uthash/Assoc for numbers and in Prelude/Uthash/Keyed for any key;
--             Prelude/Uthash/Iter adds HASH_ITER.
--   Examples  connections that the tests use.
-- NetHandle reads lines with ConnIo into the Strbuf of a NetData, which Parse takes apart and
-- Forward writes out again with ConnIo. regexec is a parameter: a function from one of the five
-- patterns and a text to the offsets of the groups. NetHttp reads a message with NetHandle, forwards
-- its head with NetData and copies its body with ConnIo; it puts requests into the list of
-- NetHandle/Pipeline, and what net_connect_to_server returns to it is a list of results. That function
-- has its own model over ConnPool, where connections are addresses with counts of owners, as in
-- NetHandle/Session. Main composes its run with the sockets of Listen. ConnIo calls Conn and Strbuf,
-- Conn calls NetPull (net_pull_del and close are entries in a list of calls), and the handlers that
-- NetPull and Event call are scripts: lists of the calls that each one makes back into the component.
--
-- State
--   What C leaves undefined is a result of its own, none, where it can be reached: conn_copy of a
--   negative length hands send a length beyond all memory, or moves buf_s in front of its buffer, and
--   NetHttp passes that result on.
--   A struct is a record and a static variable a field. Bytes and addresses of handlers are numbers;
--   an int that may be negative is an integer. A block of memory is the list of its cells, and what
--   malloc leaves in it is a parameter. The 32-bit ids of Event wrap around.
--   recv and send answer from a list: bytes, EAGAIN with what happens during the wait, an error. An
--   empty list is a connection that has nothing to say yet: the run waits there.
--
-- Fuel
--   The loops of net_transfer_body_HTTP_1_1 and those that copy without end run on the bytes that can
--   still be read and one: a round that goes on uses up a byte or more, or a conn_copy of a
--   negative length has closed the destination, and the next round ends.
--   conn_read and conn_write run on the number of bytes asked for, conn_gets on the bytes that can
--   still be read and one, conn_copy on its length, proxy_parse_arg on the number of arguments:
--   each round uses one up. net_fetch_headers runs on HTTP_HEADER_MAXLEN, since each header adds a
--   byte to a text that may not pass it. event_work takes its fuel as an argument, since handlers
--   may post for ever. conn_module_done takes the number of nodes that a list of the pool may have.
--
-- Not modelled
--   async_call of core/async.c, which runs code on a stack of its own, and async_done; a signal inside
--   one of the calls of core/main.c. event_module_done, net_data_done, net_req_done and net_rsp_done
--   free what they are given; net_data_module_init compiles the patterns; net_utils_init,
--   net_dns_lookup and net_tostring only call the C library, and net_connect is never called.
--   What a handler of requests does is a parameter of the loop in NetHandle/Request, and what
--   rsp_handler leaves is the state that a round of NetHandle/Session is given. While a handler of
--   requests in NetHttp/Requests waits, net_rsp_handler does not change the list of requests or
--   cxt->pool, and net_connect_to_server has finitely many results to give: no theorem is stated of
--   the whole net_http_req_handler. While conn_copy waits for one of its two connections, only that one
--   may be closed meanwhile. The handlers that net_pull_done calls after its closes are those of
--   NetPull; in Main they do nothing to the listening sockets. csapp.c and
--   uthash are copies of libraries. The counters rx and tx are unbounded here, and a struct conn is a record in
--   ConnIo and an address in ConnPool.
pub mod Prelude
pub mod Libc
pub mod Run
pub mod Strbuf
pub mod Conn
pub mod ConnIo
pub mod Event
pub mod NetPull
pub mod Arg
pub mod NetData
pub mod NetHandle
pub mod NetHttp
pub mod ConnPool
pub mod Listen
pub mod Accept
pub mod NetUtils
pub mod Mem
pub mod Async
pub mod Log
pub mod Proxy
pub mod Main
pub mod Examples
