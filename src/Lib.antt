-- ===== src/Lib.antt =====
-- A verification of ads-rs, a client for Beckhoff's ADS protocol: the wire formats of its messages,
-- the exchange of requests and responses over one connection, and the thread that reads from it.
--
-- The parts and the files that model them (source files are under `src/`):
--   Errors     errors.rs: the error type, the table of ADS error codes (Errors.Codes) and the
--              search in it (Errors.Search).
--   NetId      netid.rs: NetIDs and addresses, as text and on a stream.
--   Notif      notif.rs: notification messages, their parser and the iterator over their samples,
--              and the attributes of a notification (Notif.Attributes).
--   Udp        udp.rs: UDP messages, built and parsed, and the queries made of them (Udp.Query).
--   Client     client.rs: commands (Command), states (State), the header (Header) and the other
--              structures (Structs), the client's state (Action), `communicate` (Exchange, with
--              Scatter for the output buffers), the reader thread (Reader), the operations of a
--              device (Device, with the sum-up requests in Device.Multi, Requests and Fixup; what they
--              make of a whole answer is in Device.Complete and Device.Calls), and the choice of the
--              source address (Lifecycle) and `drop` (Lifecycle.Drop).
--   Strings    strings.rs: `String<LEN>` (Strings.Narrow) and `WString<LEN>` (Strings.Wide).
--   Symbol     symbol.rs: strings and GUIDs in a response (Symbol.Text), the parts of a type (Members,
--              Methods), the entries of symbols and types (Types), the tables (Table), and handles
--              and queries (Access). A Layout module describes the bytes that a device sends for
--              given parts, with every part that the code passes over.
--   TaskInfo   task_info.rs: layouts and readers (TaskInfo), the entries of the task array (Sample,
--              Decode), and `read` (Read).
--   File       file.rs: files on the device, and the listing of a directory (File.Listing).
--   Index      index.rs: the index groups in use.
--   Wire, Text and Prelude are shared: integers and reads on byte slices, text, and helpers.
--
-- How the code is rendered. Bytes are natural numbers, byte strings are lists of them; a `u16` or
-- `u32` is a natural number, with the conversions and wraps of the source written out. A function
-- that may fail returns `Result`, whose third constructor is a panic: slicing out of range, an
-- `expect` or an assertion. A `&mut` argument is an argument and a result. A method of the client is
-- an `Action`, a function of the client's state; the socket and the reader thread enter it as the
-- outcomes that its requests are to meet (a write that fails after some bytes, a response, an error
-- that the reader thread sends at its end, a closed channel or a timeout). Requests of other threads
-- change the map of active requests only where the reader thread is modelled, by the changes made
-- before each of its rounds (Change). The parsers of symbol.rs are `Cursor`s, functions of the bytes
-- left; `decode_type_info` is two functions, for a type and for a field of a parent. A type map is an
-- association list, whose order no theorem reads. The map of pending requests is the list of its keys
-- in their order, in both the client and the reader thread; its values, the channels, are only sent
-- to. Client.Reader.Served joins the two: the delivery of the thread is the outcome that the waiting
-- request meets.
--
-- Parameters. `ByteOrder` (in Wire) stands for the conversions of the `byteorder` and `zerocopy`
-- crates, with their documented laws; Wire.LittleEndian is an instance. `Itertools` (in Text) stands
-- for `format` and `collect_tuple` of the `itertools` crate; Text.Join is an instance. The socket of
-- a UDP query is a function from the datagram sent to the one received, and the text of an error,
-- which the `thiserror` crate makes, an argument of `map_error`.
--
-- Fuel. The reader's loop takes at least six bytes in each round, so one round more than there are
-- bytes is enough, and more does not change it. The loop over the items of a UDP message takes at
-- least four bytes in each round and is given the length and one, as is the loop over the 16-bit
-- units of a text. The listing of a directory, which goes on as long as the device answers, is given
-- one more than the outcomes that the client is to meet, each of which a round takes. The loop over the samples of a notification is given one
-- more than the samples. The loops over the tables of symbols and types take at least four bytes in
-- each round and are given the length, as are the chunks of the task array. The binary search is given
-- the size of the table and one. All other loops are structural.
--
-- Arithmetic is that of a release build on a 64-bit host: a length of a UDP text, the length of a table
-- entry and the bounds of an array wrap where a debug build panics. A float of an enumeration is
-- converted from the bits of its IEEE 754 form.
--
-- Not modelled: `utilisation` of a task, a quotient of floats; the generic `read_value` and
-- `write_value`; the opening of sockets and their options; the
-- `Debug` and `Display` of errors and messages; locks, whose poisoning the code treats as fatal;
-- memory, of which a count or a length in a packet may ask for more than there is; the examples and
-- the tests; the constants of ports.rs.
pub mod Prelude
pub mod Wire
pub mod Errors
pub mod Text
pub mod NetId
pub mod Notif
pub mod Udp
pub mod Client
pub mod Index
pub mod Strings
pub mod Symbol
pub mod TaskInfo
pub mod File
