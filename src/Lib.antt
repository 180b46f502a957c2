-- ===== src/Lib.antt =====
-- cyclone-HTTPServer: an HTTP server library over muduo (HttpServer/) and a chat application on
-- it (AIApps/).
--
-- The bytes of a connection arrive at HttpServer::onMessage, which parses them with the
-- connection's HttpContext, a state machine that fills in an HttpRequest. A whole request goes to
-- onRequest, which makes an HttpResponse, lets HttpHandleRequest fill it in (the middlewares'
-- before, the router, the middlewares' after in reverse) and sends its bytes. Handlers find a
-- visitor's session with SessionManager::getSession.
--
-- Common holds byte strings, maps, decimal numbers and lists on the native numbers. Strings are
-- lists of bytes. A std::unordered_map is an association list; where the code goes through one,
-- its order is a parameter. A std::map is one that is kept in order.
--
-- Http is HttpServer/include/HttpTypes.hpp (Types), HttpRequest (Request: setMethod,
-- parseRequestLine, parseQueryParams, addHeader, swap), HttpContext (Context: parseRequest with
-- one function for each of its private functions) and HttpResponse (Response: the setters and
-- appendToBuffer). muduo's Buffer is the parameter BufferApi of Http.Buffer, known by its
-- readable bytes. A function of the parser that may fail ends with a verdict: true, false, an
-- exception of std::stoi, or a failed assertion, which ends the process. The loop of parseRequest
-- takes fuel, one more than the readable bytes; every round that goes on takes two bytes at
-- least, or is the one that turns to the body, so the fuel is never used up. The loop of
-- parseQueryParams takes the length of its text.
--
-- Middleware is Middleware.hpp and MiddlewareChain (process_before, process_after), where a
-- middleware may throw a response or an exception; Middleware.Cors is CorsMiddleware with
-- CorsConfig.
--
-- Server is onMessage, onRequest and HttpHandleRequest of HttpServer.cpp. The router with its
-- handlers is a parameter, which Router fills; what is sent is a list of actions. Server.Tls is
-- the same over TLS: onConnection, and onMessage as the message callback of SslConnection.
-- Logging is left out everywhere.
--
-- Session is Session, MemorySessionStorage and SessionManager. Sessions are shared by pointers,
-- so they stand on a heap in the manager. The clock and the random numbers are arguments.
--
-- ResponseCache is CachedResponse, CacheConfig and the interface KICachePolicy, and Router is
-- Router with its registrations (Router.Register, and Router.Endpoints for Get, Post and addRoute
-- of HttpServer), the order of its routes and its use of the cache. The regular expressions of
-- the standard library are a parameter of the router. A cached response is a value here; the
-- buffer that its body takes from the memory pool is not modelled.
--
-- LruCache is KLruCache of KLruCache.hpp, with KLruKCache in LruCache.LruK: its nodes stand on a
-- heap, linked both ways between a head and a tail, and a map leads from the keys to the nodes.
-- LruCache.Links is about the links, Nodes about the keys, Model has the list of entries that the
-- cache stands for, and Moves, Edits, Append and Put are about its operations; Router.Lru makes
-- it the cache of the router. Each holds the mutex from its start to its end, so they are
-- functions.
--
-- MemoryPool is SizeClass and ThreadCache of HttpServer/*/MemoryPool: a free list is the list of
-- the blocks that its links lead to, a count is a 64-bit number, and the central cache is a
-- parameter of it. MemoryPool.CentralCache fills it: fetchRange, returnRange and the delayed
-- return of spans, over MemoryPool.PageCache, whose free spans are lists of addresses by their
-- number of pages. A Span object that would stand in two lists, and a block whose first word
-- nothing wrote, are marked as such, since the links in memory then differ from the lists.
--
-- Ssl is SslConnection, with OpenSSL as the parameter OpenSsl: a state with what its write BIO
-- holds and what can be decrypted of its read BIO. sendPendingData takes as much fuel as bytes
-- are pending, and the loop of onRead as much as can be decrypted, one more each; every round
-- takes a byte at least. Ssl.Context is SslConfig and SslContext.
--
-- Db.Connection is DbConnection over the MySQL connector, a parameter whose calls return or
-- throw, and Db.Pool is DbConnectionPool: a relation of steps of threads, one step for each part
-- of the code that holds the mutex.
--
-- Chat is the chat application of AIApps/ChatServer. Strategy is AIStrategy with AIFactory,
-- Config is AIConfig, Tools is AIToolRegistry, Escape the SQL of AIHelper, with the two literals
-- of escapeString that are no C++ as parameters, and Helper the rest of AIHelper with
-- MQManager::publish: functions with exceptions that change the state of a conversation.
-- Chat.Server is ChatServer with the handlers of the login, the logout and the registration
-- (Login) and those that send a question (Send), which use Session and fill in a response. JSON,
-- curl, the database, the message queue and the clock are parameters.
--
-- Not modelled: KHashLruCaches; ChatServer::readDataFromMySQL and ChatHistoryHandler, which
-- assign a pointer to a map of pointers and do not compile; the pages, the speech and the image
-- handlers, which only call libraries and services, and the base64 copy of another project.
pub mod Common
pub mod Http
pub mod Middleware
pub mod Server
pub mod Session
pub mod ResponseCache
pub mod Router
pub mod LruCache
pub mod MemoryPool
pub mod Db
pub mod Ssl
pub mod Chat
