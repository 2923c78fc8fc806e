-- ===== src/Lib.antt =====
-- Verification library of cable.rs, an implementation of the cable peer-to-peer group chat protocol.
--
-- The program has three parts of its own. The crate `cable` (cable/src) has the types of posts and
-- messages and their binary encodings. The crate `cable_core` (cable_core/src) keeps the posts of a
-- peer in a store, and its manager answers the messages of other peers from it. The crate `handshake`
-- (handshake/src) sets up the encrypted channel under the messages. A message that arrives is decoded
-- by `Message::from_bytes`; the posts of a response are verified by `Post::verify`, decoded by
-- `Post::from_bytes` and inserted by `Store::insert_post`, which hashes and encodes them again. The
-- manager asks for the posts whose hashes it hears of, takes only those that it asked for, and keeps
-- the requests of other peers to forward them to peers that connect later.
--
-- Which file models what:
--   Base: lists measured by native numbers, Boolean tests, and the interface `Eq` of equality tests.
--   Cable.Error: cable/src/error.rs. `Outcome` is the result of a call: a value, an error, a panic, or
--     `stuck`, which is no behaviour of the code but a loop of the model that ran out of fuel.
--   Cable.Desert, Cable.Crypto: the calls of the vendored crate `desert` (varints, arrays) and of
--     `sodiumoxide` (hashes, signatures), as records of functions and records of what the code relies
--     on. Desert.Leb128 and Crypto.Toy are concrete instances for the examples.
--   Cable.Utf8: what the code uses of `String`; a string is its bytes.
--   Cable.Writer, Cable.Reader, Cable.Fields: the code's offset into a buffer, as a state that the
--     calls pass on; fields that several posts and messages share.
--   Cable.Types, Cable.Constants, Cable.Validation: cable/src/lib.rs, constants.rs, validation.rs.
--   Cable.Post: cable/src/post.rs. Encode is `ToBytes` and `CountBytes`, Decode is `FromBytes`, Sign
--     is `hash`, `is_signed`, `sign` and `verify`, New the constructors.
--   Cable.Message: cable/src/message.rs, in the same way.
--   Core.Map: `HashMap`, `BTreeMap` and `BTreeSet` as association lists and lists in order.
--   Core.Stream: cable_core/src/stream.rs.
--   Core.Store: `MemoryStore` of cable_core/src/store.rs. Posts has the operations on posts and
--     payloads, Insert has `insert_post`, a function of the store that also gives what it returns.
--   Core.Step: operations that read and change a state and can fail, what they changed staying.
--   Core.Manager: `CableManager` of cable_core/src/manager.rs. Its state and small operations stand in
--     Manager, `process_and_send_outbound_requests` in Outbound, `post` and its kin with
--     `send_post_hashes` in Publish, the hashes of answers in Hashes, `open_channel` and
--     `close_channel` in Channels, `handle` in Handle, `listen` in Listen. Frame has what these leave
--     alone, Reached the relation between the manager's states, Requests how `handle` treats each
--     kind of request, and what two managers that exchange a post do. A client of the store is the
--     manager alone: it changes the store through `insert_post`, `insert_channel` and
--     `get_posts_live`.
--   Handshake: the crate `handshake`. Version and Error are handshake/src/version.rs and error.rs,
--     States the typestates and transitions of lib.rs, Run the functions `client` and `server` of
--     sync/handshake.rs, Messages is post_handshake.rs. Noise has the calls of the crate `snow` as a
--     record and what the code relies on as another; Noise.Toy is an instance for the examples.
--   Tests: concrete posts, messages, stores, managers and handshakes, and each result at one of them.
--
-- Bounds and fuel: numbers are natural numbers. A varint is known to be read back below 2 ^ 56, since
-- the decoder of `desert` reads eight groups of seven bits; the results on encodings have that bound
-- as a condition, and messages one of 2 ^ 55 on their size, which leaves room for the length field.
-- The loops over counted elements have fuel for one round more than the buffer has bytes; each round
-- reads a byte at least, so that the fuel is enough. The loops over the segments of a message behind
-- the handshake have fuel for as many rounds as there are bytes, for the same reason. A request ID is
-- a `u32` whose wrap-around is written out; a peer ID is a `usize` that is taken not to overflow.
--
-- Not modelled: `Display`, `Debug` and the backtrace, which only print; locks, tasks, wakers and
-- channels of async_std, of which a live stream and a peer keep what was handed to them in order
-- (whether a peer's channel still takes a message is a parameter), and which make handlers run one
-- after the other, but for the lock of the outbound requests in
-- `process_and_send_outbound_requests`, whose calls are the parameter of Core.Manager.Lock; the
-- allocation that `Vec::with_capacity` makes for a count read from a buffer; errors of a write to a
-- stream, and the state of a transport behind a failure; the warnings of the handshake; the vendored crates `desert` and `length_prefixed_stream`, of which the model takes the
-- calls as parameters and the frames as they come.
pub mod Base
pub mod Cable
pub mod Core
pub mod Handshake
pub mod Tests
