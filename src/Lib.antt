-- ===== src/Lib.antt =====
-- ZipLog: a replicated shared log whose ordering server gives every client slots of the global
-- sequence numbers (GSNs) in advance, so that clients insert at the storage servers with no
-- further round trip. Clients report the slots that they use, storage servers keep the log of
-- their shard, and subscribers read it in the order of the GSNs.
--
-- The files, with the code that they model (paths from the repository's root):
--   Base, Base/*: names shared by all files; native numbers with Boolean tests, lists measured by
--     native numbers, and 64-bit words as numbers with the wrap-around written out.
--   Storage/Slots: the loops of `log::add_entries` in src/storage/log.cpp that interleave the slots
--     of the clients by an accumulated error, for any action `yield`.
--   Storage/Log: the class `log` of src/storage/log.h and log.cpp. A pointer to an entry is its
--     place, `block * num_entries_per_block + index`; the cells are a function of the place.
--   Storage/Position: the class `position`: `insert`, `patch`, `suffix` and `close`. A failing
--     `ZIP_ASSERT` is `none`.
--   Storage/Iterator: the class `iterator` of src/storage/log.cpp, `next_entry`.
--   Storage/Server: the handlers of the threads `control` and `client` of src/storage/storage.cpp,
--     each with the whole state of the server before and after and the messages it sends.
--   Storage/Publish: `add_subscriber`, the end of a subscriber, and the thread `subscriber` of
--     src/storage/storage.cpp. Its send buffers, which are used in turn, are values.
--   Order, Order/Handlers, Order/Epoch: the class `order` of src/order/order.h and order.cpp; one
--     function per method, per handler of `order::loop` and per timer. Order/Events lists the steps.
--   Network/SendQueue, Network/RecvQueue: the queues of src/network/send_queue.cpp and
--     recv_queue.cpp. The statuses and completions of the verbs are arguments.
--   Network/Transfer: `detail::send` and `detail::recv` of src/network/manager.cpp, for any calls of
--     the system that send and receive.
--   Network/Handshake: the structs and functions of src/network/manager.cpp by which the two sides
--     of a connection exchange their queues, on bytes.
--   Network/Memory: the send and receive buffers that `manager` cuts from huge pages, whose addresses
--     are arguments. Network/Memory/Objects: who holds them, the objects of src/network/buffer.h.
--     Network/Memory/Attempts: `accept` and `connect` as far as they create queues, with what the
--     device answers as an argument.
--   Api: the messages of src/api/api.h as bytes, and `apply` of src/util/switch.h. A message of a
--     type has the members of its struct, and a handler takes the messages of its type.
--     Api/Failures: `process_failure` of src/network/manager.h, whose events are arguments.
--   Client: the loop of src/client/client.cpp: epochs, slots, acknowledgements. The time is an
--     argument. Client/Start: the constructors. Client/Links: the connections of the loop and their
--     end, with what each server answers as an argument.
--   Subscriber/Log, Subscriber/Iterator: the classes of src/subscriber/log.h and log.cpp. The nodes
--     of the list of blocks are numbered, and recycled nodes are those before `first_block`.
--   Subscriber/Poll, Subscriber/Control: the threads `poll` and `control` of
--     src/subscriber/subscriber.cpp, packet by packet and round by round.
--   Lock: the callback of src/lock_service/lock_service.cpp on the entries of the log. Lock/Sender:
--     its requests and their buffers. Lock/Exclusion takes several services with one log.
--   Util/Concurrent: `queue`, `bag` and `bag_reader` of src/util/concurrent.h. An addition is two
--     steps, between which the consumer may run; Util/Concurrent/Fifo is the sequence that they are.
--   Util/Address: `split_address` of src/util/util.cpp, on lists of character codes.
--   Util/Align, Util/Bits: `align` of src/util/util.h, and the bit operations as arithmetic.
--
-- Loops over the links of a client run on fuel, the number of entries of the log: the links lead
-- forward (`prev` backward), so a walk meets each entry at most once. The loop `while (--close)`
-- runs by the number of rounds that are left. A transfer of bytes needs one round per byte and one
-- more, since every call moves at least one byte until the peer has closed its side. `get_buffers` needs no more rounds than it is
-- asked for buffers, since every page has some.
--
-- The ordering server sends its epochs to the storage servers, which lay them out in their logs;
-- Order/Epoch/Contiguous joins the two models. Clients close slots at the storage servers by the
-- messages of Client. The iterators of the storage servers feed Storage/Publish, whose messages are
-- those of Subscriber/Poll: since the queue of an entry depends on its place only, all its copies
-- come to the same polling thread, which inserts the entry into the log of the subscriber.
--
-- Not modelled: the verbs of the network and the states of the queue pairs in
-- src/network/manager.cpp, the loggers, the main programs, the pinning of threads, the rate
-- estimation of the client in floating point numbers, and the waiting of threads for each other.
-- Memory orders are not modelled: a handler holds the lock of its client, and handlers are
-- sequences of steps. Fresh blocks of the log hold zeroed entries, as the code relies on. Memory for
-- a huge page is always granted and registered; the program aborts when it is not. Arrays that are
-- indexed by the identifier of a client are total maps, where the code has MAX_CLIENTS elements.
pub mod Api
pub mod Base
pub mod Client
pub mod Lock
pub mod Network
pub mod Order
pub mod Storage
pub mod Subscriber
pub mod Util
