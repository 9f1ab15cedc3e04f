-- ===== src/Lib.antt =====
-- Robot Raconteur Lite: a C library that speaks the Robot Raconteur protocol on small devices.
--
-- A node owns connections. A transport moves bytes between the sockets and the buffers of a connection
-- (src/tcp_transport.c), the connection cuts the bytes into messages and keeps the state that node and
-- transport share (src/connection.c), and messages are read and written through vectors of buffers
-- (src/array.c, src/message.c). Node and transport work on one connection in turns, through flags:
-- each side sets the flags that the other waits for.
--
-- Prelude: what the other files share. Lists, lengths and indices over the native numbers, `size_t`
-- arithmetic modulo 2^64, signed numbers, and the chaining of steps of which one may be undefined.
--
-- Status: the status codes of include/robotraconteurlite/err.h.
--
-- Array: src/array.c. A buffer is a list of bytes and its `len` in elements. The functions carry the names
-- of the source without the prefix `robotraconteurlite_`: `buffer_copy`, `buffer_copy_ex`,
-- `buffer_vec_copy_vec`, `buffer_vec_copy_vec_ex`, `buffer_vec_copy_to_mem` and
-- `buffer_vec_copy_from_mem`. `none` is an access outside an object. The copying loop runs on fuel,
-- `suc (count + buffers of the source + buffers of the destination)`: every round copies a byte at least
-- or goes on to the next buffer of one side. The children: Memory and Layout (what a copy of bytes
-- does, and how a vector is one run of bytes), Copied (the specification of a copy), Loop and
-- CopyBytes (the loops of `buffer_vec_copy_vec_ex`), ByteLoops (those of `buffer_vec_copy_vec`), Laws,
-- Refusals, ByteCopy and RoundTrip (the functions), Holds and Numbers (bytes and numbers that stand in a
-- vector).
--
-- Connection: src/connection.c, include/robotraconteurlite/connection.h and the functions of
-- src/tcp_transport.c that drive them. Types has the struct, with a record of Booleans for a flag
-- word; Events the tests and consumption of events.
--
-- Connection.Receive: `communicate_recv1`, `communicate_recv2`, `verify_preamble` and
-- `communicate_recv` of the TCP transport over any `buffer_recv`. Frame has the specification of
-- messages in a stream of bytes and the invariant, Steps and Judge the two halves of a cycle, Stream
-- the runs of a connection.
--
-- Connection.Send: `begin_send_message`, `end_send_message`, `communicate_send1`,
-- `communicate_send2` and `communicate_send` of the TCP transport over any `buffer_send`. Cycle has
-- one cycle, Stream the runs of a connection.
--
-- Connection.Lifecycle: `connection_reset`, `connection_close`, the control step of the connection
-- (`impl_process_control`) and of the TCP transport (`tcp_process_control`, over the socket functions
-- and the handshake). Phases has the abstract machine, Closing the way from the request to close to
-- a connection that is free.
--
-- Connection.Attach: `connect2`, `accept2`, `prepare_wait` and `next_wake`. Laws has the connections that
-- begin and those that wait, Wake the wake time.
--
-- NodeId: src/nodeid.c without its parser.
--
-- Message: src/message.c, over Array.Numbers, which has the typed accessors of src/array_types.c that it
-- needs, and Array.Bytes, which has runs of bytes. Message.Numbers has the readers, writers and sizes of
-- numbers and counts; Fields those of a fixed size, Codec the encoding of `uint_x`, RoundTrip what sizes,
-- writers and readers make together, Total that a reader always returns. Message.Strings has strings with
-- a length and node ids, Message.Steps the lists of readers and writers that the functions run one after
-- the other: a reader keeps what it has read in a record, so that one that fails in the middle leaves the
-- fields read so far.
--
-- Message.Header: the header of a message. Read has `read_header2_ex`, `read_header4_ex`,
-- `read_header_ex` and `read_header`; Write has `write_header2_ex`, `write_header4_ex`,
-- `begin_message`, `begin_message_ex` and `end_message`. The writer of version 4 finds the size and the
-- flags first (`plan4`) and writes then (`write_planned4`), as the source does in one function. A vector
-- of buffers is a value, so each call returns the buffers it leaves, and the writers that share a buffer
-- are all given the new one. Encoding says what a header is in bytes, in both versions, and what a header
-- read from them has to carry; Read2, Groups and Read4 are about the readers, Write2, Flags, Plan and
-- Write4 about the writers, and RoundTrip and End about both together. Sample has the header of a message
-- of test/message_test.c.
--
-- Message.Entry: the header of an entry in both versions, `begin_read_entries` and `move_next`; Write
-- has `write_header2_ex`, `write_header4_ex`, `begin_entry` and `end_entry` of entries. Version2 is about
-- the reader of version 2, RoundTrip and End about it together with the writers.
-- Message.Element: `begin_read_elements` and `move_next` of elements; Walk is about the way over them.
-- `move_on` moves until a move fails, on fuel: as many moves as there are elements are enough.
-- Header has the reader of an element's header in version 2, `read_header2_ex`, and Version2 is about it.
--
-- The transport's functions `buffer_recv` and `buffer_send` are parameters; `Delivers` and `Takes` say
-- what they do to a connection: they move a position and bytes within the buffer and nothing else
-- that the protocol reads. `size_t` is 64 bits wide and the host little-endian.
--
-- Not modelled: the headers of elements in version 4, the numbers with a sign, the search for elements
-- by name, the writers of elements and the shallow copies of headers (src/message.c), the data of
-- elements (src/message_data.c), the other accessors of src/array_types.c, which a script generates,
-- the URL parser (src/url.c), websockets and the HTTP handshake, the node (src/node.c), the list of
-- connections, and the layers over the operating system (src/poll.c, src/clock_util.c, the sockets).
pub mod Prelude
pub mod Status
pub mod NodeId
pub mod Array
pub mod Connection
pub mod Message
