-- ===== src/Lib.antt =====
-- ServiceFramework: connections, threads, fibers and ids of a C++ service library
-- (baselib/, over folly, wangle and proxygen).
--
-- The parts. A program asks for groups of threads in its configuration
-- (net/thread_group_list_manager); each network thread runs an event base and keeps its own
-- connections, either in the manager of the thread (net/thread_local_conn_manager) or in a pool of
-- IO threads (net/io_thread_pool_manager), which finds the thread of a connection in the high half
-- of its 64-bit id and sends messages to other threads as closures on their event bases. On a
-- thread, requests run as fibers whose data a manager keeps under ids of the same form
-- (net/fiber_data_manager), with counters that are reported from time to time. The service manager
-- makes the configured servers and groups of clients (net/service_manager) and sends a message for
-- a connection's id to the thread that its high half names; an older router does it on one pool of
-- IO threads (net/service_router_manager). The last handler of each pipeline (net/conn_handler)
-- enters its connection in the manager of the thread, and a TCP client (net/server/tcp_client)
-- makes its connection again when it fails or ends. HTTP requests go out through clients that count
-- references (net/server/http_client, net/rabbit_http_client), and come in through handlers that
-- answer from a fiber (net/rabbit_http_request_handler). The program's frame (base/base_main,
-- net/root) gives each part its section of the configuration (base/config_manager), makes the threads
-- and the services, and runs the timer of the program until a signal ends it; IotHubServer
-- (server/IotHubServer/) is such a program. Unique ids for messages come from a
-- worker for each thread (base/snowflake_id_util), and texts are coded for URLs in base/util.
--
-- The files:
--   Prelude, Prelude/*    numbers, tests, lists, maps as association lists, bits
--   Ids                   the 64-bit ids: `thread << 32 | number`
--   Conn, Conn/*          baselib/net/thread_local_conn_manager.{h,cc}: `ThreadLocalConnManager`
--   IoThread, IoThread/*  baselib/net/io_thread_pool_manager.{h,cc}: `IOThreadConnManager`
--   IoPool, IoPool/*      the same files: `IOThreadPoolConnManager`, `GetEventBaseByRand`
--   ThreadGroup, ...      baselib/net/thread_group_list_manager.{h,cc}: `ThreadGroupListOption`,
--                         `ThreadGroupListManager`
--   Json                  what the code asks of the JSON library, as a record of operations
--   Config, Config/*      baselib/base/config_util.{h,cc}: `ServiceConfig`, `ToServiceConfigs`
--   Service, Service/*    baselib/net/service_manager.{h,cc}, baselib/net/base/service_factory_manager.cc:
--                         `ServiceManager`, `CreateService`; baselib/net/server/tcp_client_group.cc:
--                         `TcpClientGroup::SendIOBuf`
--   Handler, Handler/*    baselib/net/conn_handler.{h,cc}: `ConnHandler`; `OnNewConnection` and
--                         `OnConnectionClosed` of baselib/net/server/tcp_server.cc
--   Pipelines             baselib/net/conn_pipeline_factory.cc, conn_pipeline_factory_t.h,
--                         simple_conn_pipeline_factory.cc: the handlers of each new pipeline
--   Tcp, Tcp/*            baselib/net/server/tcp_client.{h,cc}: `TcpClient`;
--                         baselib/net/base/client_bootstrap2.h: `ClientBootstrap2`
--   SimpleTcp, ...        baselib/net/simple_conn_handler.{h,cc}: `SimpleConnHandler`;
--                         baselib/net/server/simple_tcp_client.{h,cc}: `SimpleTcpClient`
--   HttpClient, ...       baselib/net/server/http_client.{h,cc}: `HttpClient`, `HttpClientGet`,
--                         `HttpClientPost`, `HttpClientSyncFetch`;
--                         baselib/net/rabbit_http_client.{h,cc}: `RabbitHttpClient`
--   HttpServer, ...       baselib/net/rabbit_http_request_handler.{h,cc}: `RabbitHttpRequestHandler`;
--                         baselib/net/rabbit_http_handler.{h,cc}: `RabbitHttpHandlerFactory`
--   Router, Router/*      baselib/net/service_router_manager.{h,cc}: `ServiceRouterManager`
--   ConfigManager         baselib/base/config_manager.{h,cc}: `ConfigManager`
--   Configuration         baselib/base/configuration.{h,cc}: `Configuration`
--   Servers, Servers/*    baselib/net/server/tcp_server.{h,cc}, tcp_server_t.h, http_server.{h,cc},
--                         tcp_service_base.cc: the servers' start and stop, the factories of services
--   BaseMain              baselib/base/base_main.{h,cc}: `DoMain`
--   Root, Root/*          baselib/net/root.{h,cc}: `Root` with its timer and its run
--   Logger, Logger/*      baselib/base/glog_util.{h,cc}: `LogInitializer`
--   IotHub, IotHub/*      server/IotHubServer/IotHubServer.{h,cc}, IotHubUtil.{h,cc}: `IotHubServer`,
--                         `IotHubConfig`
--   Fiber, Fiber/*        baselib/net/fiber_data_manager.{h,cc}: `FiberDataInfo`, `FiberDataManager`
--   Stats, Stats/*        baselib/net/fiber_data_manager.h: `Stat`, `Stats`
--   Snowflake, ...        baselib/base/snowflake_id_util.cc: `IdWorker` and its globals
--   Clock, Clock/*        baselib/message_util/call_chain_util.h: `CallChainTimeUtil`;
--                         baselib/base/time_util.{h,cc}: `DiffTimeUtil`
--   UrlCodec, ...         baselib/base/util.cc: `UrlEncode`, `URLDecode`
--   PidFile, PidFile/*    the same file: `writePid`
--   Util                  the same file: numbers as texts, the local time
--
-- How the code is written here. An object is a record of its fields, a method a function from the
-- object and the arguments to the new object and the answer; a method has the name of the C++ method
-- in lower case with underscores. Pointers to pipelines and event bases are numbers, and a null
-- pointer is `none`. What a method writes to pipelines, or posts to event bases, is a list in the order
-- of the calls. Unsigned integers are natural numbers with the wrap-around written out, signed ones
-- of the configuration are ℤ. Logging is left out. What wangle, proxygen and the fibers call, in
-- orders of their own, is a list of events or a step relation (Handler/Life, Tcp/Reconnect,
-- HttpClient/Reply, HttpServer/Life); a use of an object that is gone is `none`.
--
-- Bounds and fuel. The loop of `OnNewConnection` runs on one round more than the table has entries;
-- with fewer than 2^32 - 1 entries that is enough for it to end. The removal of a server's entries
-- runs on one round more than the list has entries, which is enough for any list. The closures of the
-- pool run on as much fuel as there are threads, which is enough for each message. The program's main
-- loop runs for a list of rounds, with the delay of each, until a signal ends it. The clock and the
-- random numbers are lists of readings; a list that ends before the loop does gives `none`.
--
-- Not modelled: wangle's pools, pipelines and sockets, proxygen's sessions, folly's fibers, event bases
-- and random numbers, the JSON parser (thirdparty/), HTTPServerLib and RendezvousHash, which are copies
-- of other projects' code, the sockets of servers, and what logging writes. Where the modelled code
-- calls a library, the library's answers are arguments, or its calls a list: the bootstrap of a
-- server is the list of the calls on it, the main event base its closures with the times at which
-- they are due, and what a program meets around it is the record `System` of Root/Running.
mod Prelude
pub mod Ids
pub mod Conn
pub mod Stats
pub mod Fiber
pub mod Snowflake
pub mod Clock
pub mod UrlCodec
pub mod IoThread
pub mod IoPool
pub mod Json
pub mod ThreadGroup
pub mod Config
pub mod Service
pub mod Servers
pub mod Handler
pub mod Pipelines
pub mod Tcp
pub mod SimpleTcp
pub mod HttpClient
pub mod HttpServer
pub mod Router
pub mod ConfigManager
pub mod Configuration
pub mod Logger
pub mod Util
pub mod PidFile
pub mod BaseMain
pub mod Root
pub mod IotHub
