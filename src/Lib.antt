-- ===== src/Lib.antt =====
-- ROS2-Connect forwards ROS 2 topics, services and actions over a websocket. On the side where a
-- topic has a publisher, a subscriber takes its messages, compresses them and sends them; on the
-- other side a publisher decompresses and publishes them. A subscriber exists only while the other
-- side's publisher says that somebody listens there. This library models the messages, the
-- publishers, the subscriber manager, the service and action manager, the connection that carries
-- them, how the two sides work together, and the two programs that listen for and make connections.
--
-- Parts, and where they are modelled (paths from the repository's root):
--
--   Message       the messages of src/message and include/connect. Message.Codes has the
--                 enumerations of include/connect/types.hpp, Message.Rcl is RclMessage, Message.Vector
--                 is VectorMessage, Message.ServiceAction is ServiceActionMessage, and Message.Base is
--                 MessageBase: the virtual functions, compression and decompression. Message.Codec
--                 stands for LZ4 and zlib. Message.ServiceFrames has the `send` of the plugins; Wire,
--                 Parsing, Control, Restore, Transport, ServiceDelivery and ServiceTransport hold the
--                 proofs.
--   Config        the definitions of include/connect/types.hpp and the lists of
--                 src/global/globalConfig.hpp (Config.Global); Config.EnumParser and Config.Time read the
--                 names and times of src/common/enumParser.hpp. Config.Initialize is
--                 src/connectBase.hpp: `init`, `initializeParameters` and
--                 `evalNrOfMultiThreadedExecutorThreads`; Json, Profiles, Topics and Services are its
--                 sections. Checked, Valid, ValidServices, Unique, Sections, WellFormed and Accepted hold
--                 the proofs on the configurations that it accepts.
--   Subscriber    src/subscriber/subscriberManager.cpp: `Subscriber.Manager.process` is an iteration
--                 of `SubscriberManager::run` for a message that was taken from the queue, `notice`
--                 its part behind the parsing, `stop_thread` is `onStopThread`. Subscriber.Sampling has
--                 the callbacks of src/subscriber/threadedSubscriber.cpp and sharedSubscriber.cpp and the
--                 thread of the former. Subscriber.Clock is src/subscriber/clockSubscriber.cpp: the waits
--                 of its timer and their handlers are counted, and Chains, Restarted and Silent hold
--                 the proofs on them. Subscriber.Subscription is the subscription of
--                 src/subscriber/subscriberBase.hpp.
--   Publisher     src/publisher: Publisher.Publishing is PublisherBase with its two classes,
--                 Publisher.Manager is PublisherManager. Publisher.Watch, Link and Routing hold the
--                 proofs on one publisher over time, on a publisher and the other side's subscriber
--                 manager, and on the routing of messages.
--   ServiceActions
--                 src/serviceAction/serviceActionManager.cpp: the maps of plugins, and the dispatch of
--                 messages by op-code.
--   Plugins       the base classes of include/connect/service and include/connect/action.
--                 Plugins.Handles is include/connect/serviceActionHandle.hpp with what `Service` and
--                 `Action` share; ServiceServer, ServiceClient, ActionServer and ActionClient are the
--                 classes of those names. Handles are shared, so they live in a store and the map and the
--                 queue of handles to remove hold pointers. A call or thread that waits is split there: one
--                 function up to the wait, one from it on. Plugins.Calls puts a service server and a service
--                 client together over the bytes of their messages. Consistent, Answers, Shadowed,
--                 Verdicts and Requesting hold the proofs.
--   Connection    Connection.Sending is the outgoing queue of ConnectionBase with `asyncWrite`,
--                 Connection.Dispatch `processMessage` of WebsocketConnectionBase, Connection.Server
--                 WebsocketServerConnection, Connection.Client WebsocketClientConnection,
--                 Connection.Registry ConnectionManager, Connection.Handshake the `run` of both kinds of
--                 connection with `asyncRead`, and Connection.Stream the
--                 options and the closing of a connection. Order, Lossless, Delivery, Admission,
--                 Exchange, Closing and Established hold further proofs.
--   Endpoint      Endpoint.Server is src/connection/server.cpp: its thread goes on in steps between
--                 the places of `run`, next to the calls that `stopThread` makes. Endpoint.Client is
--                 src/connection/client.cpp, Endpoint.Thread is src/common/thread.cpp, and
--                 Endpoint.Process is src/connectServer.cpp and src/connectClient.cpp, and
--                 Endpoint.Status the message of src/status/statusPublisher.cpp. Accepts, Accepting,
--                 Ending, Losing and Halting hold the proofs.
--   Prelude       numbers, bytes, lists and `std::map`, shared by all.
--
-- The state of a class is a record, and a method a function of that record. Bytes are natural numbers
-- below 256, and a value of 32 bits has its wrap-around written out. A read behind the end of a buffer
-- is `none`, as is a null pointer. The map of a manager is an association list whose `insert` keeps an
-- entry that is there. An iteration of a thread's loop is one step; what another thread or a library
-- decides in between (the time, the number of subscriptions, `rclcpp::ok()`) is an argument of the
-- step. LZ4, zlib and the `memcpy` within one buffer are parameters: `CodecLaws` says that what was
-- compressed is decompressed to the same bytes given the exact size, that LZ4's sizes are those of an
-- `int`, and that `memcpy` copies blocks that do not overlap. It says nothing of blocks that do, so
-- nothing is shown of a compressed message whose goal id has more than four bytes, which
-- `ServiceActionMessage::store` moves onto itself.
--
-- The thread of a server or client goes on in steps, from one place of its code to the next, between
-- which other threads act; where a result has the thread end within a number of its own steps, these are
-- the steps that are meant. The results of the network's calls are arguments.
--
-- Handlers on a connection's strand run one after the other, so a connection's life is a list of
-- events, and any list is allowed: a handler of a write or a timer that nothing started does nothing.
-- The authentication plugin is a parameter with a state of any type. boost::json, the node's parameters
-- and the attempts to create what a definition names are the fields of an `Environment` and of
-- `Parameters`.
--
-- Fuel occurs in the loops that empty a container at shutdown (`SubscriberManager::onStopThread`,
-- `PublisherManager::onStopThread`, `ServiceActionManager::onStopThread`,
-- and `ConnectionManager::stopAllConnections`): each is given one round
-- for each entry, and every round removes an entry, so it ends with none left.
--
-- Not modelled: mutexes and condition variables, and with them the stop of a service or action plugin,
-- which wakes and joins threads that wait on them; `onStopThread` of a connection, whose managers'
-- threads go on until they are joined behind it; logging, the websocket library, and the launch
-- files. The size of `int` is 32
-- bits, and that of `unsigned long` at least 32.
pub mod Prelude
pub mod Message
pub mod Config
pub mod Subscriber
pub mod Publisher
pub mod ServiceActions
pub mod Connection
pub mod Endpoint
pub mod Plugins
