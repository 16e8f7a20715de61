-- ===== src/Lib.antt =====
-- A model of db_proxy_server, a server between the nodes of a messaging system and their databases
-- (MySQL and redis). A node sends requests over TCP, each a message of a 27-byte header and a
-- protobuf body; a web interface sends JSON over HTTP; an account server answers with JSON texts. An
-- event loop cuts the input into messages, makes each into a task and deals the tasks to a pool of
-- threads. A thread finds the handler of a task, the handler asks MySQL and redis and writes a reply
-- into the task's message, and one more thread sends the replies.
--
-- Parts and files:
--
-- Message: src/message.h and the fields, read_head's reading of them and write_msg of
-- src/message.cpp. MsgHead is `struct msg_head`, Message the class. The region that `m_msg` points
-- to is a list of bytes; write_msg returns `overrun` for a write past its end. Message.Bytes has
-- the byte orders, over either host's; Message.Frame says what write_msg leaves in the region, and
-- Message.RoundTrip what a reader makes of it. `write_reply` is the end of every handler, as in
-- update_user_id of src/handler_cache.cpp. protobuf's ByteSize() and SerializeToArray() are the
-- record PbData, realloc the record Allocator.
-- EvBuffer: the evbuffer of libevent, an interface with laws.
-- Framing: message::read_head and message::handle_head. `scan`, `next_extent` and `handle_head` are
-- the `for` loop, what follows it and the `while` loop; `read_head` is the outer loop. Both run on
-- fuel; `seek_header` and `next_head` give one more than the bytes in the buffer, which is enough
-- as each round takes at least one byte off (Framing.Progress, Framing.Termination).
-- NetServer.HandleData: net_server::handle_data of src/net_server.cpp with message::read_msg, on
-- fuel that is again one more than the bytes in the buffer. NetServer.AccountData: the loops of
-- account_handle_data and account_handle_head, on any fuel; what is shown of them is for input in one
-- extent of the buffer.
-- NetServer.Responses, NetServer.Logins: the queue of responses with the thread that sends them, and
-- the map of the logins that wait for the account server, of src/net_server.cpp.
-- ThreadPool: src/thread_pool.cpp. A pool is the list of its threads' queues and m_task_index;
-- an arrival of a task and a round of a thread are the steps, in any order.
-- Cache: src/cache_conn.cpp, with hiredis as the list of the answers that it will give; a context
-- that had no reply for a command sends nothing any more, as hiredis documents.
-- PreStatement: src/pre_statement.cpp, over the interface PreStatement.Client of the MySQL client
-- library. The loop of free runs on fuel from the number of pending results.
-- HandlerMap: the table of src/handler_map.cpp and its lookup. HttpTask: the choice of a handler in
-- http_task::run of src/http_task.cpp, over jsoncpp as an interface.
-- Sending: the loops around ::send in src/pb_task.cpp, src/json_task.cpp, src/http_task.cpp and
-- src/net_server.cpp, over the list of the socket's answers.
-- Links: the connections that the server opens itself, in src/net_work.cpp, with read_data,
-- account_read_data and the timers of src/net_server.cpp and get_router_table of
-- src/handler_router.cpp. NetWork has the fields of the class, and the sockets that are watched and
-- open; what the operating system answers is an argument. Links.Kept.Step is a callback.
-- Config: src/config_file_oper.cpp, from the bytes of the file to a lookup. load_file runs on one
-- round of fuel for each byte of the file, and a round takes one byte at least.
-- Handlers: the handlers of src/handler_cache.cpp, handler_server.cpp, handler_buddy.cpp,
-- handler_group.cpp and handler_msg.cpp, one function for each. Handlers.Program is the language that
-- they are written in: a handler is a program of commands (the calls of pre_statement, of redis, of
-- the clock, of the queue of responses, and the delete of the task), which branches on what it is
-- answered; Handlers.Program.Values has the cells of rows, the texts of SQL and the messages. A
-- `do { … } while (false)` with its breaks is `scope`, or `closing` where more than free() follows it.
-- protobuf and jsoncpp are the record Formats, and a message is given by its fields. The statements
-- of a handler have the numbers 0 and 1, that of a function of handler_cache.cpp has 2. A loop
-- `while (0 == fetch_result())` begins with one command that answers all its rows, since get_result
-- has stored them with the client, and what a round asks of another statement leaves them; a variable
-- is kept from row to row, and starts as `unset` where the source does not give it a value.
-- CacheTables, Cache: handler_cache.cpp. ServerQueries, ServerUpdates: handler_server.cpp. Buddy,
-- BuddyRequests: handler_buddy.cpp. GroupQueries, GroupUpdates, GroupMembers: handler_group.cpp.
-- MessageUpdates, MessageQueries, MessageCounts: handler_msg.cpp. Dispatch: the program of each handler of the map.
-- Handlers.Discipline is an automaton that follows the commands and accepts the orders that
-- pre_statement and the queue of responses rely on; Handlers.Run runs a program against an
-- environment with a state of its own that gives the answers. Check, Sound, Parts, Ordered, Sessions,
-- Loops, Friends, Members, Users and Kinds lead to Handlers.Keeps, for the whole map. Results and Cached are
-- about what redis is given, Fields reads messages and logs, Remarks is about the remarks in what redis is
-- given, Counts about the order of get_offline_msg_cnt, Pages about the size of an answer, Passwords
-- about logins and changes of a password.
-- Prelude: names, lists and Boolean tests that the parts share. Tests: concrete runs.
--
-- Not modelled: the handlers of src/handler_account.cpp, src/handler_http.cpp and src/http_server.cpp and the rest of
-- src/handler_router.cpp, the dispatch of src/json_task.cpp, src/mysql_conn.cpp, listening and HTTP
-- connections, logging, threads and locks of the operating system (a critical section is one step),
-- src/md5.cpp, and the libraries kept beside the source. `int` lengths are taken to stay below 2^31,
-- and the buffers of fixed size that columns are read into to be as long as what is read. Memory that
-- the source frees is not tracked, but for the task and the statements of a handler.
pub mod Prelude
pub mod Message
pub mod EvBuffer
pub mod Framing
pub mod NetServer
pub mod ThreadPool
pub mod Cache
pub mod PreStatement
pub mod HandlerMap
pub mod HttpTask
pub mod Sending
pub mod Links
pub mod Config
pub mod Handlers
pub mod Tests
