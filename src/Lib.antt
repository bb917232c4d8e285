-- ===== src/Lib.antt =====
-- Astron: the messages of the cluster, the values of its classes, and its state server.
--
-- Astron is a daemon of several roles that talk through a message director. A message is a Datagram:
-- a header with the receivers' channels, the sender and the message type, and a payload. A state
-- server keeps distributed objects in memory. Each object is a participant of its own: it subscribes
-- to channels, handles the messages that arrive there, and routes messages. The values of its fields
-- are kept packed, as they were received.
--
-- Which file models which part:
--   Bytes        src/dclass/util/byteorder.h: numbers as little-endian bytes (the little-endian host).
--   Datagram     src/util/Datagram.h: the buffer as a list of bytes, `buf_cap` and `buf_offset`, and
--                every add_<value>. Memory has the safety of the buffer, Appending the rules
--                that compose calls, Values the single calls, Header the headers of server and
--                control messages.
--   Iterator     src/util/DatagramIterator.h: the cursor and every read_<value>. Cursor has the
--                reads, Header the access to the header of a message.
--   Channels     src/core/types.h: how channels are built from ids and zones.
--   Dclass       src/dclass/dc: numbers and ranges (Number), types with their sizes, tags and
--                constraints (Types), fields and classes (Class).
--   Unpack       src/util/DatagramIterator.h: unpack_dtype and skip_dtype. Outcome says how a read can
--                end, Parts has the single reads, Arrays the arrays, Copies puts them together, Stuck has
--                the loop that does not end.
--   StateServer  src/stateserver: Messages (src/core/msgtypes.h), Object (the members of
--                DistributedObject and the handler monad), Entries (the send_<kind>_entry methods),
--                Location (the location, the AI and the end of an object), Fields and Query
--                (handle_one_update, handle_one_get), Zones (the children), Dispatch (the switch of
--                handle_datagram, one on_<message> for each case), Server (the constructors and
--                StateServer.cpp), Placement (which channels an object is subscribed to; terminate
--                ends all of its subscriptions).
--   ChannelMap   src/messagedirector/ChannelMap.cpp: the subscriptions to single channels. Upstream says what
--                the upstream is told, Delivery who gets a message. What boost::icl answers about
--                ranges is a parameter: `in_ranges`, the ranges of each subscriber, and
--                `range_subscribers`, the subscribers of each range.
--   MessageDirector
--                src/messagedirector: Upstream (MDNetworkUpstream.cpp), Director (the state of
--                MessageDirector.cpp and .h, and the calls of a participant), Routing (flush_queue
--                and process_datagram), NetworkParticipant (MDNetworkParticipant.cpp). A
--                participant is a number, and its handle_datagram the parameter `handle`, which
--                answers with the calls it makes. Keeps and Handling have the rules for what the
--                actions keep; Order, Flush, Deliveries, InOrder and Control have what they prove
--                in their names. The director keeps a history of what it did, which no code
--                reads: what came into the queue, was popped off it, and was delivered to whom.
--   DbStateServer
--                src/stateserver/DBStateServer.cpp and LoadingObject.cpp: Messages (what it builds), State
--                (the members, and how handlers are built), Handlers (the queries of inactive objects
--                and their answers), Loading (GET_ALL_RESP), Loader and Activation (LoadingObject, and
--                the switch of handle_datagram). Apart, for the server, and Others and Loaded, for the
--                loading objects, are about objects that are active and loading at once; Answers says that an
--                answer finds its asker, Cached which id is read back; Keeps,
--                Activated and Updated have the rules for what the handlers keep. The default values of fields
--                and what g_dcf finds are parameters.
--   DatabaseServer
--                src/database: Operation (DBOperation.h and .cpp: the kinds of operations and which are
--                independent), Queue (DBOperationQueue.cpp, and handle_operation and clear_operation of
--                DatabaseServer.cpp). An operation is a pointer, and the parameter `operation` is
--                the memory. Symmetric is about independence, Running about one queue, Server about
--                the queues of all objects. What is submitted to the backend is recorded.
--   Base         tests on numbers, lists over the native numbers, results.
--
-- How state and operations correspond: a method that may throw returns a Result, with the state as it
-- is at the throw. A handler takes a Context, which holds the object, the iterator of the message and
-- the effects so far, and returns the context that it leaves. The effects are the calls of the message
-- director (route_datagram, subscribe_channel, unsubscribe_channel, terminate) and the erasure from
-- m_objs, in order. An access outside an allocation is the exception `fault`. dgsize_t and sizetag_t
-- have 16 bits, size_t 64, and wrap-around is written out.
--
-- Bounds and fuel: the loop over a variable array has the declared length plus one as its fuel, which
-- is enough if each element takes a byte at least; its end is the exception `stuck`, which no code
-- throws. handle_one_get recurses by field id, two levels deep, since a molecular holds atomic fields
-- only. SET_FIELDS counts with an int16_t up to a uint16_t: each update takes two bytes of a datagram
-- of at most 65535, so the counter cannot wrap before the reads reach the end. The loop of
-- flush_queue takes one unit of fuel for each message; Flush says when some fuel is enough. The loop
-- of clear_operation takes an operation off the queue in each round; its length is the fuel.
--
-- Not modelled: the configuration, logging, the network, the event logger, the routing thread of the
-- message director and changes of its ranges of channels, the requests and answers of the database server and its backends, the client
-- agent, and the parser of class files, whose result the classes here are. A set is the list of
-- its elements; the order of an unordered set is the order of insertion.
mod Base
pub mod Bytes
pub mod Datagram
pub mod Iterator
pub mod Channels
pub mod Dclass
pub mod Unpack
pub mod StateServer
pub mod ChannelMap
pub mod MessageDirector
pub mod DatabaseServer
pub mod DbStateServer
