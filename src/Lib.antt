-- ===== src/Lib.antt =====
-- mezon-sdk-go: a Go client of the Mezon chat platform. A client opens a realtime socket over one of
-- two wire transports, sends protobuf envelopes and waits for the response with the same cid, receives
-- pushed events, which an emitter hands to handlers, and keeps what it has seen in bounded caches;
-- writes to the socket go through a throttling queue. Requests to the API go over the socket while it
-- is open and over HTTP otherwise. The caches hold clans, channels and users as shared objects, may
-- stand on a store shared between processes, and are filled again after each reconnect.
--
-- How the files correspond to the code:
--   Transport, with Transport/*       transport.go: the abridged TCP framing and the WebSocket framing,
--                                     writing (Encode) and reading (Reader)
--   Utf16, with Utf16/*               utf16.go: lengths and offsets in UTF-16 code units
--   Types, with Types/Ids             types.go: the messages' parts and ids as text
--   Content                           content.go: the JSON text of a content and its limit
--   Errors                            errors.go
--   ApiName, with ApiName/Lookup      apiname.go: the API's names and their indices
--   Helper, with Helper/Snowflakes    helper.go: stream modes, user ids, snowflake ids
--   Queue, with Queue/*               queue.go: the loop of AsyncThrottleQueue
--   Emitter, with Emitter/Order       emitter.go
--   Cache, with Cache/*               cache.go: CacheManager; Cache/Fifo is what it promises
--   Socket/Cids, Routing              socket.go: the table of pending requests, generateCid, takeCid,
--                                     takeRawCid, clearCid
--   Socket/Streams, Reassembly        deliverAPIChunk
--   Socket/ReadLoop, Delivery, Events readLoop and unmarshalEnvelope
--   Socket/Sending, Pending           sendResponse, send, sendApiRequest
--   Socket/Data, Write, Messages      socket_write.go and the message data of socket.go: joining, the
--                                     retry after it, the messages written
--   Socket/Guard, Retry               the limit on content, and what the retry may return
--   Socket/Lifecycle, Interleaved,    Connect, Close, markDisconnected, the end of heartbeatLoop: as
--   Whole, Disconnect, Stale          whole calls, as the steps that other goroutines come between, and
--                                     how the two agree
--   Socket/Dispatch                   socket_dispatch.go, with the event names of constants.go
--   Inbound, with Inbound/*           channelmessage.go: pushed messages and their blobs
--   Rest, with Rest/Call, Endpoints   restapi.go: Rest is the HTTP side, Call doProto, doProtoSocket and
--                                     Call, Endpoints the typed methods; Direct MezonAuthenticate and
--                                     PlayMedia; Fallback, Ends, Final and Names are about where a call
--                                     goes
--   Session, with Session/Expiry      session.go
--   Entities, with Entities/*         the objects of clan.go, channel.go, message.go and user.go, and
--                                     the data their methods build
--   Client                            the state of MezonClient with the heap of objects; l2Get, l2Set and
--                                     l2Delete of sharedcache.go
--   Client/Shared, Dm                 the rest of sharedcache.go, and channelmanager.go
--   Client/Clans, Requests            clan.go
--   Client/Messages                   channel.go and message.go: sending, replying, editing, reacting
--   Client/Users, with Users/*        user.go: SendDM, and the sender's lookup of Message.Reply
--   Client/Events                     client_internal.go and the loading of stored messages
--   Client/Connect                    client.go: connectSocket and postConnectInit
--   Client/Login, Login/Started       client.go: NewMezonClient, initManagers and Login
--   Client/Reconnect, Reconnect/*     client.go: OnDisconnect, retryConnect and Close
--   Client/Wiring, Merged, Fetched,   the invariant between the caches and the heap, through the
--   Connect/Joins, Dm/Noted           operations above
--   Client/Identity, Heap             cached channels as objects
--   Client/Layers, Lookup, Sent,      the shared store under the caches, the message a send leaves, the
--   Events/Deleted                    eviction of a channel
--   RedisStore, with Lawful           redisstore/redis.go
--   MessageDb, with Saved             messagestore.go's implementation, messagedb/messagedb.go
--   Prelude, with Prelude/*           what the others share: Boolean tests, lists, bytes and bits, maps
--                                     as association lists (Dict), decimal printing
--   Tests, with Tests/*               the theorems at concrete inputs
--
-- How the code is read. A connection is the list of the bytes still to come; a read past its end
-- fails. A read takes bytes off, or fails, so that a frame reader is a function to a result. A
-- string is its bytes, or its runes where the code ranges over runes. Go maps are association
-- lists, whose order stands for the order of a range over the map. int32 cids are their bit
-- patterns. A mutex makes the operation that holds it one step; what other goroutines do meanwhile
-- is a parameter (World in Socket/Sending) or a list of steps in any order: Step in
-- Socket/ReadLoop, where `stopping_frame` is a frame whose select takes a `done` that is closed,
-- which ends the loop; Move in Socket/Interleaved, the steps of Connect, Close, markDisconnected
-- and heartbeatLoop. The goroutine that OnDisconnect starts is counted until it runs (Happening in
-- Client/Reconnect); there each call on the socket runs to its end. proto.Marshal, proto.Unmarshal,
-- base64 and encoding/json are parameters, and so are net/http, the Redis client and the two
-- statements of the SQL table, which are functions on a state of their own. The pointers to clans,
-- channels, users and messages are addresses into the heap of Client, so that an object in two
-- caches is one object; a new object gets the next address. An operation that calls the API takes
-- the network as a parameter; the joining of a clan takes what each visit does to it (Visit in
-- Client/Connect), and the reconnect loop what each of its turns meets (Attempt in
-- Client/Reconnect: a Close before its start or during the sleep, the result of the dial and of the
-- joining, and what happens to the connection until the joining is over). The clock of the queue is
-- a parameter that gives how much time passes before each reading.
--
-- Bounds and fuel: the read loop of a connection takes fuel above the number of bytes to come, each
-- turn taking at least one; the queue's wait takes 100 polls of 10 ms, after which every stamp is a
-- second old; the digits of a number n take n + 1 rounds; the rounds of joining failed clans are the
-- five of the code, and the turns of the reconnect loop are those of the list it is given. The loops
-- over slices are structural.
--
-- Not modelled: dialling, TLS and deadlines, the URL library, the generated protobuf code, the opening
-- of the SQL database, the registration of handlers, the addresses that the socket dials, Enqueue and
-- Content's Text.
pub mod Prelude
pub mod Transport
pub mod Utf16
pub mod Types
pub mod Entities
pub mod Errors
pub mod ApiName
pub mod Helper
pub mod Inbound
pub mod MessageDb
pub mod Queue
pub mod RedisStore
pub mod Rest
pub mod Emitter
pub mod Client
pub mod Content
pub mod Cache
pub mod Session
pub mod Socket
pub mod Tests
