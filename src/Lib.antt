-- ===== src/Lib.antt =====
-- A verification library for latypus, an HTTP server and client in C++.
--
-- The program. A server engine runs threads, each with a set of masks (listener, router, keepalive,
-- worker) and a pollset. A connection of the engine's table is passed from thread to thread by
-- messages; whoever holds it polls it, and its state's handler runs on an event. Handlers move bytes
-- through the connection's ring buffer, ask a request handler for a response, and either keep the
-- connection alive or put it back on the free list. The client works in the same way: a request waits
-- on a connection to its host, which sends the requests of its list one after the other.
--
-- Parts and files.
--   Common      names of the libraries that all files share, tests on numbers, and lists.
--   Bits        src/bits.h: the bit counts and the rounding to a power of two. A value of a w-bit type
--               is a number; the width is an argument. A shift that C++ leaves undefined is `none`.
--   Io          src/io.h, src/io.cc: results, memory copies with their bounds, files (Io.File), the
--               linear buffer with its buffered reader and writer (Io.Buffer), the ring buffer (Io.Ring).
--               `io_reader::read` and `io_writer::write` are parameters.
--   HttpCommon  src/http_common.cc: `sanitize_path`. The string in place of which the path is written
--               is two lists, what is to be read and what has been written.
--   Server      src/http_server.cc with src/protocol_connection.h, src/connection.cc and the parts of
--               src/protocol_thread.cc and src/pollset_poll.cc that it uses. Server.State has the engine's
--               state, Server.Table the connection table, Server.Forward the message callbacks and the
--               forwarding functions, Server.Handlers the handlers of events and timeouts, Server.Accept
--               the listener. Server.Ownership counts who holds a connection.
--   Trie        src/trie.h: the map by which a path finds its location. Keys are the characters of a C
--               string without the terminating zero, below 128 where char is signed.
--   Queue       src/queue_atomic.h: push and pop, each without another thread inside of one, and in
--               Queue.Threads with any number of threads inside, a step for each atomic access.
--               Queue.Single has one that pushes and one that pops, Queue.Overtaken more of them.
--   ThreadMask  src/protocol_thread.cc and src/protocol.cc: the table of masks, and a thread's masks as text
--               and as the protocols that it serves.
--   LogThread   src/log_thread.cc: one thread that logs and the one that writes as a step relation over
--               what they share, one step for each access, a call of a queue being one step: each
--               queue then has one thread that pushes and one that pops. LogThread.Pc and LogThread.LogPc are the
--               places where a thread stands in `log` and in `mainloop`.
--   HttpConstants
--               src/http_constants.cc: the tables of texts, the maps made of them and the look-ups.
--   Config      src/config.cc and the configuration of src/http_server.cc: Config.Directives and
--               Config.ServerDirectives have the directives, Config.Numbers `atoi`, whose result
--               is undefined where an int does not hold the number, Config.Blocks the callbacks of the
--               parser, Config.Vhosts the virtual hosts that `engine_init` makes ready,
--               Config.Paths `lookup_vhost` and `translate_path`, and Config.Mime the types of
--               files. Config.Nesting has the invariant of the blocks.
--   Hex         src/hex.cc: bytes as hexadecimal text.
--   HttpMessage src/http_request.cc and src/http_response.cc, what they have in common: the buffer in which
--               strings and fields are stored (HttpMessage itself), and the writing of fields to a
--               caller's buffer (HttpMessage.Output, HttpMessage.Decimal). A string is an offset and a
--               count; the capacity of the vector is its size, as after the one `resize` from empty.
--   HttpResponse, HttpRequest
--               the strings, setters and `to_buffer` of each.
--   Client      src/http_client.cc with src/protocol_connection.h: Client.State has the engine's state,
--               Client.Table the table and the queues of connections by host, Client.Messages the
--               message callbacks, Client.Handlers the handlers of events and timeouts, Client.Submit
--               `submit_request`. The request that a connection sends is the one of HttpRequest.
--               Client.Body is src/http_client_handler_file.cc, how it reads a response's body.
--   HandlerFile src/http_server_handler_file.cc: the request handler that answers with a file. It fills the
--               response of HttpResponse; Site stands for the system's files and the status texts
--               and the types of files.
--   HandlerFunc src/http_server_handler_func.cc: the handler that answers with the text of a function.
--   Url         src/url.cc: the parts of a url and its text.
--   Engine      src/protocol_engine.cc: the engine's threads by mask, and the turns by which one is
--               chosen.
--
-- How state corresponds. A connection is named by its index in `connections_all`; the free list, the
-- pollsets of all threads and the messages under way are fields of one engine, so a callback is a
-- function from engine to engine and an interleaving of threads is a sequence of callbacks. A callback
-- runs to its end before the next one: the locks that the source takes inside of one are not modelled.
-- What the source leaves undefined (a call through a null handler, a copy past the end of a buffer)
-- sets the engine's `fault` or makes a buffer's operation `none`.
--
-- Fuel. The loop of `sanitize_path` has fuel, two rounds for each character and one more, which is
-- shown to be enough; the digits of a status code or port have ten, enough below 2 ^ 31, and those of
-- a content length twenty, enough below 2 ^ 64.
--
-- Not modelled. System calls, OpenSSL, the virtual request handler and the ragel parsers are
-- parameters: what they answer is an argument (Answers, Work, Delegate, and ClientAnswers, Next,
-- ClientDelegate, Site, Asked). Formatting a log entry (src/log.cc), the access log, and addresses
-- are left out. Several threads that log, whose calls of one queue overlap, are not followed. The text of
-- an error page is whole, which it is within the 1024 bytes of its buffer. The loop of a thread, the server's handler for statistics, the database code, the
-- ragel machine that calls the configuration's callbacks and src/base64.cc, a copy of public code,
-- are not modelled. Of the client, who holds a connection is not followed over all threads, as it is for the server.
pub mod Common
pub mod Bits
pub mod Io
pub mod HttpCommon
pub mod Trie
pub mod HttpConstants
pub mod Config
pub mod ThreadMask
pub mod LogThread
pub mod Queue
pub mod HttpMessage
pub mod HttpResponse
pub mod HttpRequest
pub mod Client
pub mod HandlerFile
pub mod HandlerFunc
pub mod Url
pub mod Hex
pub mod Engine
pub mod Server
