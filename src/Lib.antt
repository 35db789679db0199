-- ===== src/Lib.antt =====
-- Servers on Boost.Asio: the message server of src/05_ftp and the earlier one of src/02_async
-- with its test client, the HTTP server of src/03_beast-http, the WebSocket server of
-- src/04_beast-websocket, the echo programs of src/01_base and main.cpp, and the functions of
-- include/lyf.h.
--
-- The program. A session (src/05_ftp/Session.cpp) reads messages off a socket, each an id, a
-- length and a body, and posts them to the queue of the logic system
-- (src/05_ftp/LogicSystem.cpp), whose worker thread calls the callback of the message's id. The
-- callback answers through the session's `Send`, which queues the answer and writes one message
-- at a time. The server (src/05_ftp/Server.cpp) keeps the sessions in a table, from which a
-- session removes itself. A pool of contexts (src/05_ftp/IOServicePool.cpp) runs the sessions;
-- the log (src/05_ftp/include/AsyncLogSystem.h), the configuration (ConfigManager.h) and the
-- users' sessions (UserManager.h) are objects that all of it uses.
--
-- The files.
--   Common, Memory, Map: shared names; arrays of chars with `memcpy`; `std::unordered_map`.
--   Wire: src/05_ftp/include/const.h (Wire/Const), the byte order of the machine with the
--   conversions of Boost (Wire/Host, with two machines in Wire/Machines) and the message nodes
--   of src/05_ftp/include/MsgNode.h (Wire/Node, and Wire/Layout for the bytes of a node).
--   World: what sessions share. Inbox: `LogicNode` and `LogicSystem::PostMsgToQue`.
--   Server: src/05_ftp/Server.cpp and include/Server.h, with the destructors of the
--   sessions; Server/Steps is about the states that it comes to and the pool in them, Server/Race
--   about `HandlerAccept` and the threads of the pool, and Server/Signal about the handler of
--   signals in src/05_ftp/Run_FtpServer.cpp.
--   Session: the session object, `Send`, `HandlerWrite` and the clearing functions of
--   src/05_ftp/Session.cpp and include/Session.h. Session/Fifo is the specification of the
--   sending side; Session/Queue, Order and Failure prove things of it.
--   Reader: `Start`, `PraseHead`, `PraseMsg`, `HandlerReadHead` and `HandlerReadMsg` of
--   src/05_ftp/Session.cpp. Its children treat one message (Message), a connection (Stream,
--   Arrival), messages that are not taken (Rejected), the two variants (Callbacks), the end of
--   the coroutine (Ending) and two sessions connected (EndToEnd).
--   Logic: src/05_ftp/LogicSystem.cpp, with what it takes from JsonCpp, the base64 decoder and
--   the file system in Logic/Codec; Logic/Worker is about the worker's loop, Logic/Upload and
--   Logic/Files about uploads, Logic/Posts and Logic/Delivery about uploads that come from a
--   session. Logic/Waking has the worker's thread, the threads that post and the destructor as
--   turns, with Sleep about messages that wait, Shutdown about the destructor, and Trace,
--   Rounds, Steps and Order about the messages that are handled.
--   Pool: src/05_ftp/IOServicePool.cpp and the destructor of a session; Pool/RoundRobin is about
--   `GetIOService`, Pool/Stopping about `Stop`. Pool/Threads is IOThreadPool.cpp.
--   Log: `FormatMessage` of src/05_ftp/include/AsyncLogSystem.h, with Log/Placeholders about the
--   format; Log/Queue is `LogQueue`, as turns of its threads; Log/System is the class with its
--   worker, with Log/System/Queues about its queue, and Steps and Streams about what is written.
--   Config: src/05_ftp/include/ConfigManager.h, with Config/Loading about the constructor.
--   Users: src/05_ftp/include/UserManager.h, with Users/Table about the table without its order,
--   as a quotient. Stopwatch: include/stopwatch.h.
--   Http: src/03_beast-http/RunServer.cpp, with Http/Serving about the answers, Http/Deadline
--   about the timer and Http/Accepting with the accept loop.
--   WebSocket: src/04_beast-websocket/Connection.cpp and ConnectionManager.h, with
--   WebSocket/Order about the queue and WebSocket/Sends about the buffers of writes;
--   WebSocket/Accepting is WebSocketServer.h.
--   Echo: src/01_base/server.cpp and client.cpp and the handler of main.cpp, with Echo/Sessions
--   about what is sent back and Echo/Accepting with the accept loops.
--   Async: src/02_async, where lengths are 16 bits with a sign. Async/Wire is const.h and
--   MsgNode.h, with Async/Layout about the bytes of a node; Async/Session is Session.h and
--   Session.cpp, with the sending side in Sending, the coroutine in Reading, headers with a
--   negative length in Negative and the variant without coroutines in Callbacks; Async/Logic is
--   LogicSystem.cpp, with Async/Logic/Answer about the answer to a message and
--   Async/Logic/Waking, with Sleep, about its thread; Async/Client is RunClient.cpp, with its
--   arrays in Buffers and Answers and its `main` in Running. Async/Pool is IOServicePool.cpp,
--   with Joining about the loop of its `Stop`; Async/Server is server.cpp and the handler of
--   signals in RunServer.cpp, with Contexts about the states that it comes to and Signal about the
--   handler. Async/Exchange and Async/Conversation are about the client
--   and the server together.
--   StringTool: the namespace of include/lyf.h, over the members of `std::string` that it calls.
--   StringTool/Search has lemmas on these; Split, Replace and Affixes are about the functions.
--   PrintTool: the namespace of include/lyf.h. Ranges: `range_compare`, `range_max` and
--   `range_min` of include/lyf.h, with `max` and `min` in Ranges/Variadic.
--   TypeName: `getTypeName` and `type_class` of include/lyf.h. Random: its `getRandom` and
--   `assure`.
--   Tests: the theorems at concrete inputs.
--
-- How the code is modelled. An array of chars is a list of bytes; an access outside it, a
-- pointer to nothing and an uncaught exception are `none`. In Async, where an exception is
-- caught in one place and not in the other, `Async.Wire.Outcome` keeps exceptions and faults
-- apart. A `short` is its 16-bit pattern, an `unsigned int` its 32-bit pattern. A receive node
-- is shared by `shared_ptr`, so it stands on a heap and is named by its index; a send node is
-- shared with nothing that changes it, so it is a value. The uuid of a session is a number, and
-- a pointer to a session is that number. Asynchronous calls are functions of what they completed
-- with: `Reader.resume_at` for a `co_await async_read`, `Session.write_done` for an
-- `async_write`. `async_read` fills its whole buffer or fails, as Boost documents. Each function
-- that holds a lock is one step; where it matters what comes between, the threads are turns
-- (Log/Queue, Logic/Waking, Async/Logic/Waking) or the function is cut in two (Server). The
-- builds are those with the pool of contexts; both the coroutines and the callbacks are here.
--
-- Bounds and fuel. `Reader.feed` runs the coroutine on fuel, of which one unit is one
-- resumption; a fuel above the number of bytes of the connection is enough, since each
-- resumption reads a byte at least or ends the coroutine. `Logic.drain` has the length of the
-- queue for fuel, since each round takes one message. `Log.format_loop` has one more than the
-- length of the format, since each turn passes a placeholder. The loops of StringTool are on
-- fuel, of which a unit more than the length of the string is enough, except for `replace_all`
-- of an empty string.
--
-- Not modelled. Logging calls inside the components, and the addresses and ports that they
-- print. src/05_ftp/base64.cpp is a copy of another project's library: its decoder is a
-- parameter. The `main` functions of main.cpp, of src/01_base/server.cpp, and of
-- src/03_beast-http and src/04_beast-websocket are wiring. Of the `main` of src/05_ftp and of that
-- of src/02_async/RunServer.cpp only the handlers of signals are modelled: not the start, with the
-- configuration and the log file that may not open, nor what is destroyed at the end and after it,
-- the server, its pending accept and the `LogicSystem`. A wait on a condition variable that
-- ends with no notification is left out. A `Singleton` of include/lyf.h is a value that is
-- passed on, and its `getCurrentTimeStamp` is the clock.
pub mod Common
pub mod Memory
pub mod Map
pub mod Wire
pub mod Inbox
pub mod World
pub mod Server
pub mod Session
pub mod Reader
pub mod Logic
pub mod Pool
pub mod Http
pub mod WebSocket
pub mod Config
pub mod Log
pub mod Users
pub mod Stopwatch
pub mod StringTool
pub mod PrintTool
pub mod Ranges
pub mod TypeName
pub mod Random
pub mod Echo
pub mod Async
mod Tests
