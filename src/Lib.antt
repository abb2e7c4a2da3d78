-- ===== src/Lib.antt =====
-- The remote backup server: clients log in over TLS, list what the server holds for them, and create,
-- update and erase files in their directory, by messages of TLV segments.
--
-- Parts, and the files that model them:
--   communication/types.h, message.*, tlv_view.*, message_queue.*: Communication and its children. A
--     message is its raw bytes; a TLV view is a cursor, whose iterators are positions modulo 2 ^ 64; the
--     replies are a queue of messages, with a new message where the next segment would not fit in
--     CHUNK_SIZE bytes.
--   directory/resource.*, dir.*: Directory. A directory is a map from paths to resources, as a list of
--     entries; two paths have one entry if they have the same hash and are equal.
--   utilities/tools.*: Utilities.Tools (signs, digests, passwords).
--   core/user.*, open_streams.*: Core.User and Core.OpenStreams (the session of a connection, and the
--     one open stream of each user).
--   core/request_handler.*: Core.RequestHandler and its children, one for each handler (Auth, Sync,
--     Create, Update, Erase), with the steps that they share in State and Files.
--   core/connection.*: Core.Connection. The callbacks of one connection; the end of an operation on the
--     socket and the end of the timer are events.
--   core/server.*: Core.Server, all connections over the disk, the streams and the log that they share. A
--     connection is destroyed when no operation of it is under way. The log is a text of its own: the
--     writes to its file are not writes to the disk of the model. The paths that the constructor of the
--     server reads are Program.construct.
--   utilities/logger.*: Utilities.Logger (the text of a line).
--   main.cpp: Program (the options and the ends of the program).
--
-- A method that changes objects is an `Exec` (Core.Exec): from a state to an outcome and a state, so that
-- what was changed before an exception stays changed. An outcome (Outcome) is a normal return, an
-- exception, `std::exit`, undefined behaviour (`fault`), or a model that ran out of fuel (`stuck`).
-- The state of a request (Core.RequestHandler.State) is the disk, the open streams, the user, the view
-- of the request and the replies. `handle_request` reads the type byte, begins the replies anew,
-- and calls the handler that the state of the session allows.
--
-- The proofs about all handlers go through one induction (Core.RequestHandler.Rules): a property says
-- what each kind of step does to it, and the children carry that through every handler;
-- Core.Connection.Rules and Core.Server.Rules carry it on through the callbacks of a connection and the
-- runs of a server. Core.RequestHandler.Safety goes through the handlers once more, from states in
-- which no step is undefined. Core.RequestHandler.Receiving has the session in the middle of a
-- transfer.
--
-- Boost.Filesystem, the streams, MD5, SHA512, hex, Boost.Regex and the disk are a parameter
-- (Platform); what is relied on of them is a hypothesis of the theorem that needs it. Platform also says
-- whether the program survives two reads that the source has undefined, the text of an error code
-- after its string is destroyed (`freed`) and the first character of an empty vector
-- (`empty_front`); where it does not, the outcome is `fault`. The tests (Tests) take a platform in
-- memory.
--
-- The buffer of a connection has CHUNK_SIZE bytes: a read puts the bytes that arrive over the first
-- ones and never makes it longer, and a request that is longer than the buffer is a `fault`.
--
-- Loops: `next_tlv` and `verify_end` have none that is not bounded by the source. `operator<<` runs on
-- fuel, and so does the loop of `handle_erase` over the parents of a file, which gets one unit for each
-- character of the path and two more. All other loops are recursion on a list.
--
-- Each method runs under its mutex or on objects of one connection, and is one step; the callbacks of a
-- connection run one after the other on its strand. The server takes the callbacks of its connections
-- one after the other, in any order: two that run in two threads at the same time are not modelled, nor
-- are Boost.Asio, the sockets and TLS, whose ends of operations are events. Boost.Program_options is
-- a parameter (Program.Library), whose exceptions are results. Text that the handlers and callbacks
-- print to the console is left out, except `operator<<` on messages, whose loop may not end; what
-- `parse_options` prints is a list of notes.
pub mod Prelude
pub mod Outcome
pub mod Platform
pub mod Program
pub mod Communication
pub mod Directory
pub mod Utilities
pub mod Core
pub mod Tests
