-- ===== src/Lib.antt =====
-- wim is an instant messenger: a Qt client, and on the server a State service, connection Gateways and Message
-- nodes, with Redis and MySQL behind them. A client asks the State service for a Gateway and opens a TCP
-- connection to it; the Gateway authenticates the client, publishes a lease with a generation in Redis, and
-- forwards each command over a stream to a Message node; a Message node sends deliveries back over the
-- stream to the Gateway that holds the recipient's connection. The library models the path of a packet
-- through client and Gateway, and the parts that decide where it goes.
--
-- Prelude: Boolean tests, signed ids, lists and association lists over the native numbers.
-- Protocol: error codes and service ids of server/public/include/Const.h and of
-- client/src/adapters/connection_gateway/ClientProtocol.h.
-- Wire: EncodeFrame of server/gateway/src/GatewaySession.cc; Wire/Packet the packet fields that the Gateway
-- uses and MakeErrorPacket of server/public/include/TcpMessageCodec.h.
-- Client/FrameCodec: TcpFrameCodec of client/src/adapters/connection_gateway; feed is Feed, with feed_loop its
-- while loop on fuel. The fuel is one more than the length of the buffer, and each round takes eight bytes or
-- more, so that it does not run out; the theorems on feed_all are about the result of these runs.
-- Client/MessageList: CanTransition and MessageListModel of client/src/models.
-- Gateway/Frames: the messages of server/public/proto/gateway_message.proto.
-- Gateway/Link: the class MessageLink of server/gateway/src/MessageLink.cc, a function for each method, Step for
-- any order of calls and gRPC callbacks.
-- Gateway/Manager: the class MessageLinkManager of the same file. Links are shared objects: a store maps
-- addresses to links, and the link map and the retired list hold addresses. Commands has Forward (in two
-- parts, at the unlock of its mutex), OnFrame, ExpirePending, RetryPending and Stop; Topology has ApplyTopology,
-- StartLink, OnLinkDone with its timer, and the heartbeat round; Choice and Select are about SelectLink; History
-- lets all of them run in any order.
-- Gateway/Lease: the lease scripts of server/public/include/Redis.h over an interface Redis of the commands
-- that they call.
-- Gateway/Registry: server/gateway/src/SessionRegistry.cc. Sessions are numbers; which ones are alive, and what
-- their send functions return, are arguments.
-- Gateway/Session: server/gateway/src/GatewaySession.cc. The strand is a list of posted tasks, WriteLoop is cut at
-- its co_await; Packets is HandlePacket, cut where it waits for the business pool, Login is Authenticate, and Reading the
-- loop of Run over the bytes that the client sends, with fuel of one more than their number, where a round
-- takes eight bytes or more.
-- Gate, Queue, History, Reliable, Rate and Login/Granted hold the proofs.
-- Pool: server/public/src/ThreadPool.cc, each section under the mutex a function.
-- State: server/state/src/service/service.cc, the choice of nodes.
-- Client/Connection: ConnectionGatewayClient of client/src/adapters/connection_gateway, with Client/Packet for
-- the packets that it reads. Requests has its queues of waiting requests (QueueRequest, SendFront,
-- CompleteFront, FailAllPending), Socket the socket, the timers and reconnection, Commands the methods that the
-- application calls and OnFrame. What it writes and signals is collected in the state, in order.
-- Store: the message tables of server/public/include/Mysql.h. Accept has acceptDirectText and acceptGroupText,
-- Receipts updateMessageForReceiver and acknowledgeConversationMessage, Sync syncConversation. A call is a
-- function on the tables and an ending: committed, committed with the reply lost, undone, or without a session.
-- The calls lock what they change, so that they run one after the other.
-- Message: Service is MessageService of server/message, over Store; Stream is GatewayStreamService and its
-- reactors, with Worker for the task of a command on the worker pool and Reading for what reads and posts.
-- The handlers behind ExecuteGatewayCommand that are not about text are a parameter.
-- Gate: Email and Verification are VerificationService of server/gate and its scripts in
-- server/public/include/Redis.h, over an interface of the commands that they call. Users has the statements on the
-- table users, Accounts signUp and forgetPassword of server/gate/src/service/Service.cc, SignIn its signIn and
-- requestVerificationCode.
-- Examples: concrete runs.
--
-- Protobuf, QDataStream, std::hash, std::to_string and Redis are parameters, and so is MySQL's collation in
-- Gate/Users; in Store texts are equal if they are the same, while the column of the client message ids also
-- takes ids for equal that differ in case only. Clocks and random numbers are arguments of the calls that read
-- them; times are milliseconds. Int64 ids are compared and never
-- added, so they are unbounded here; the unsigned counters that the code adds to wrap where the code's type
-- does (request sequence, rate window, route counter), the others count things in memory. Unordered maps are
-- association lists.
--
-- Not modelled: the accept loop, the end of a session's Run, TLS, SMTP, configuration and logging; the client's
-- other list models, its SQLite storage, its application controller and its user interface; the dispatch of the
-- Message node's Service and its friend, group and file handlers; the Gate's dispatch of paths and its
-- HTTP sessions, the File service; the connection pools and the statements of MySQL that are not about messages,
-- passwords or registration. Of the message rows the command hash, the session key and the texts for logs are
-- left out; the code writes the hash and never reads it. DeliveryService.Acknowledge does nothing.
mod Prelude
pub mod Protocol
pub mod Wire
pub mod Gateway
pub mod Client
pub mod Pool
pub mod State
pub mod Store
pub mod Message
pub mod Gate
mod Examples
