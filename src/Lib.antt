-- ===== src/Lib.antt =====
-- The two programs of this repository. The media server, xrtcserver/rtcserver/src, in C++: clients
-- send requests over TCP, workers parse them, a media side answers, and the answer goes back over the
-- same connection. Its client is the HTTP front end, signaling/src, in Go: it makes a push request of
-- a form, sends it to a media server, and answers with the offer that comes back.
--
-- Parts and files of the media server (paths are from xrtcserver/rtcserver/src):
--   main.cpp                    Main          setup, and the signals that stop the servers
--   server/signaling_server.*   Server/SignalingServer  accepts connections, deals them to workers
--   server/signaling_worker.*   Server/SignalingWorker  the table of connections and the callbacks
--                               Server/Receive   bytes that come in (read_query,
--                                                process_query_buffer, process_request_,
--                                                process_push_)
--                               Server/Reply     bytes that go out (_response_server_offer,
--                                                _add_reply, _write_reply)
--   server/tcp_connection.*     Server/Connection
--   server/rtc_server.*         Server/Inbox (its queue and pipe), Server/RtcServer (the rest)
--   server/rtc_worker.*         Server/RtcWorker
--   base/Lock_Free_Queue.hpp    Base/LockFreeQueue
--   base/xhead.hpp              Base/Xhead
--   base/event_loop.*           Base/EventLoop
--   base/socket.*               Base/Socket; the pipes between threads are Base/Pipe
--   base/conf.*                 Base/Conf
--   base/log.*                  Base/Log
--   xrtcserver_def.hpp          Messages
-- Parts and files of the front end (paths are from signaling/src):
--   framework/xrpc/header.go    Frontend/Header (Marshal, Unmarshal)
--   framework/xrpc/request.go, response.go  Frontend/Packets, on Frontend/Streams (io and bufio)
--   framework/xrpc/selector.go  Frontend/Selector
--   framework/xrpc/client.go    Frontend/Client
--   framework/xrpc.go           Frontend/Xrpc, with Frontend/Text (strconv and strings)
--   action/push.go, base.go     Frontend/Push
-- Server/Shares and Server/Hiring have what the two servers share: lists of items for each
-- worker, and the loop of Init that makes the workers; Server/Dismissing has the loop of _stop.
-- Server/Thread is the std::thread that each of them keeps, with join and delete. Server/Journey
-- follows one request through all of them, and Frontend/Journey a push from the form to the
-- offer. Prelude has the numbers, lists and tests; Examples applies the theorems to concrete
-- objects.
--
-- A request travels like this: SignalingServer.dispatch_conn gives a descriptor to a worker's
-- LockFreeQueue and notifies its pipe; the worker's new_conn puts a TcpConnection into its table;
-- conn_io_cb reads, Receive makes an RtcMsg and puts it into the Inbox; RtcServer.process_rtc_msg
-- hands it to the RtcWorker of its stream name; that one sends the offer back to the signaling
-- worker, whose response_server_offer queues a slice on the connection, which conn_io_cb writes.
--
-- State is a record and each operation a function on it. What a call of the system answers (read,
-- write, accept, pipe, malloc, the time) is an argument. A pointer to an object is its index or
-- its address, and null is `none`; a fault (a null or freed node of the queue, an index out of
-- range) is `none` too. Each section under a mutex, each callback, and each queue operation is one
-- step. A failed call is `failed` and an exception of a getter is `none`. In the front end a call
-- ends with a value, an error or a panic (Frontend/Outcome); a pointer that is shared by calls is
-- a state that goes in and comes out. What arrives on its connection is a list of pieces, up to
-- the end or the deadline. A goroutine's `PickServer` is two steps, one under each lock.
--
-- The queue is modelled twice. LockFreeQueue has produce, consume and the destructor as wholes, as
-- the callbacks use them. LockFreeQueue/Threads has one producer and one consumer that run their
-- statements in any order, each statement one step on memory that is sequentially consistent; what a
-- compiler or a processor may reorder, since the fields are not atomic, is not modelled.
-- Threads/Whole and Threads/WholeConsume relate the two.
--
-- A signaling worker's thread is a sequence of callbacks, in any order that the event loop may
-- call them and with messages of other threads between them (SignalingWorker/Callbacks);
-- SignalingWorker/Streams follows the bytes of every connection through them, and
-- SignalingWorker/Descriptors keeps account of the descriptors that it was given and closed. The
-- threads of RtcWorker, RtcServer and SignalingServer are run_loop (Server/Rounds): each event
-- reads one notification, until `quit`, and a number bounds the events; the theorems on stopping
-- give one that is enough. The accepted connections of SignalingServer are accept_new_conn, apart
-- from that loop. `looping` says whether ev_run still runs; a `join` before that has not returned,
-- and the destructor of a thread that was not joined terminates the program. The `_stop` of a
-- server stops and joins its workers in turn (Server/Dismissing); what a worker's thread does
-- until it ends is an argument there. RtcWorker and SignalingWorker/Lifecycle have a child
-- Stopping with `drained`, a thread that handles what is in its pipe; an RTC worker has no other
-- events. A signaling worker has its clients' too: Lifecycle/Turns has them in any order with what
-- other threads send, and Lifecycle/Amid what becomes of a notification to stop among them.
--
-- Bounds: lengths in a header have 32 bits, times wrap at 64. The loop of process_query_buffer runs
-- on fuel, of which three iterations are enough unless 65535 bytes have piled up behind a request.
-- The loop over a reply list runs on the list of the kernel's answers.
--
-- Taken as parameters, with their documented behaviour: libev (Base/EventLoop.Libev), yaml-cpp
-- (Base/Conf.Yaml), jsoncpp, which escapes a NUL in what it writes, and rtc::ComputeCrc32
-- (Platform), and for the front end encoding/json (Frontend/Push.GoJson), goconfig
-- (Frontend/Xrpc.ConfigFile), the resolver and the network.
--
-- Not modelled: freeing memory apart from the queue's nodes and a connection's buffer, which
-- messages the logging library hands to its sink, the text of log messages of the servers
-- themselves, xrtcserver/rtcbase and xrtcserver/rtcserver/thirdparty (other projects' libraries).
-- Of the front end: signaling/src/goconfig and signaling/src/glog (copies of other projects), the
-- HTTP server with its routes, templates and configuration (framework/https-server.go, conf.go,
-- log.go, init.go, action/xrtcclient_push.go), which is glue between libraries, and texts that are
-- not ASCII.
pub mod Prelude
pub mod Messages
pub mod Platform
pub mod Base
pub mod Server
pub mod Main
pub mod Frontend
pub mod Examples
