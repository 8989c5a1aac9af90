-- ===== src/Lib.antt =====
-- cppami, a client library for the Asterisk Manager Interface (AMI).
--
-- The program. A `Connection` (include/c++ami/Connection.hpp, src/Connection.cpp) opens a `TcpSocket`
-- and starts three threads. A `SocketReader` reads the socket and hands each buffer to a
-- `StreamParser`, whose thread joins the buffers, takes the version line off the front, cuts the rest
-- at each empty line, and hands each message to an `EventDispatcher`. Its thread reads a message into
-- a `KeyValDict`; if a caller waits for the action whose id stands in the message, then the event is
-- the answer, or a part of an answer that is an `EventList`, and otherwise it goes to the callbacks of
-- the application. A caller sends an `Action` through a `SocketWriter` and waits on a future.
--
-- The files, by the part of the program that they model:
--   Text            std::string (find, substr, erase) and the separators of include/c++ami/CppAmiDefs.h
--   Outcome         exceptions, failed assertions and undefined behaviour, as values
--   UnorderedMap    std::unordered_map, as an association list
--   KeyValDict      src/util/KeyValDict.cpp: set_message, operator[], set_value, to_string
--   StreamParser    src/StreamParser.cpp: process_chunk; `parse_events` is all but the first block of it,
--                   `process_first` that block, `dispatch_events` the loop at its end
--   Reaction        src/reaction/Reaction.cpp, src/reaction/Event.cpp, src/event/Event.cpp
--   EventList       src/reaction/EventList.cpp
--   EventDispatcher src/EventDispatcher.cpp: dispatch_event (both overloads: `dispatch_event` with
--                   `dispatch_dict`, and `dispatch_response` with `first_response` and
--                   `next_response`), get_event_pipe, set_exception_on_pipe, set_null_on_pipe,
--                   cleanup_object; EventDispatcher.Desk is what it is to its callers, a slot for
--                   each action, and in Desk.Asked what an answer to an action is
--   Worker          the queue, the condition variable and the thread that StreamParser and
--                   EventDispatcher both have: add_buf and add_event, work_thread, stop_work_thread
--   Action          src/action: the text of an action, and the constructors of the actions
--   TcpSocket       src/net/TcpSocket.cpp
--   SocketReader    src/net/SocketReader.cpp: `turn` is a round of work_thread up to its callback
--   SocketWriter    src/net/SocketWriter.cpp
--   Connection      src/Connection.cpp: the constructor, the callbacks of the application and invoke
--   System          the threads of a connection with the callbacks that its constructor installs and
--                   its destructor, as a step relation
--   Application     src/Connection.cpp again: the threads of an application, which call both forms of
--                   invoke, async_invoke, add_callback and remove_callback, around those of System
--   ScopeGuard      src/util/ScopeGuard.cpp
--   Example         example/main.cpp, piece by piece: what it asks of a connection, and prints
--   Prelude         shared names, and lemmas on lists; Tests: runs and concrete instances
-- The modules below a part hold its proofs and are named for what they prove.
--
-- Correspondence. A byte is a number, a string a list of bytes; a string that was moved from is empty,
-- as the standard library leaves it. An object is a record of its members, and a member function a
-- function from the record to the new one. A pipe, that is the state shared by a promise and its
-- future, is a number, with its answer in the dispatcher; a callback is a number, or the list of the
-- values that it is called with. A member function that holds its mutexes from its first access to its
-- last is one step; `Worker` has the places where a thread stands in between. The order in which an
-- unordered map is walked is left open by the language; here it is that of insertion. `assert` is
-- checked, as in a build that does not define NDEBUG; `cleanup_object` has both builds, by an argument.
-- Sizes are natural numbers; `size_t` wraps only where find returned npos (`process_first`), which is
-- written out, and so is the cast of the timeout to int (`to_int`). A string is shorter than npos - 2.
--
-- The threads. A step of `System` is what one thread does under one mutex, and any thread may take the
-- next: `reads` and `hands` are the reader's, `parses`, `reports` and `adds` the parser's, where a
-- callback waits until the mutex of the dispatcher's queue is free, `turns` and `dispatches` the
-- dispatcher's, `asks` and `forces` those of callers, which end with the start of the destructor,
-- `wakes_parser` and `wakes_dispatcher` wake-ups that nobody sent, and the rest the destructor's, which
-- waits for each thread before it stops the next. An exception that leaves a thread's function ends the
-- program, so a step needs that nothing is thrown. The
-- fields `received` (what the operating system handed over), `made` and `history` are for the proofs,
-- and so are `added` and `promised` of `Worker`.
--
-- The callers. A call of invoke in `Application` stands before its write, in wait_for, before
-- set_exception_on_pipe or in get, and goes on by a step; get takes a step only once the pipe has an
-- answer, and the wait may end at any time, by a timeout if there is no answer then. Each write is one
-- call of send, and one step, taken when send returns, with the operating system that answers it as an
-- argument. `runs` is a step of the connection's threads; what the dispatcher hands to
-- dispatch_handler waits in `to_call` until `handles` calls the callbacks, under another mutex, and the
-- dispatcher's thread goes on behind that. A callback itself does nothing to the connection. `called` and `sent` are for the proofs. A step of an application is one of `System` or
-- leaves the system as it is, so what holds for System holds here.
--
-- The example. A piece of example/main.cpp is a function of its console, that is the requests made and
-- the text printed so far, to a result or an exception and the console behind it; the connection is the
-- record `Server` of its answers, which may depend on the requests before. Its two threads have a
-- console each.
--
-- Parameters. The operating system is a record of what each of its calls answers (`TcpSocket.Os`),
-- libuuid the bytes that uuid_unparse_lower writes. Nothing is assumed of the operating system; of
-- libuuid it is assumed that it writes 36 characters and a zero byte, as it documents.
--
-- Bounds. The loop of `set_message` runs on fuel, one more than the bytes of the text: each round reads
-- four bytes at least, so the fuel lasts. The loop of `process_chunk` runs on
-- one more than the bytes in the buffer, and each round takes four. All other loops are over lists.
--
-- Not modelled. That send and the mutexes of the socket block: a call of the operating system is a
-- step that has an answer, and how long a thread waits before it takes the step is not said, nor that
-- it ever does. The start of the threads and their names. Callbacks that call the connection, of
-- which add_callback and remove_callback would lock a mutex that their thread holds. Two calls of the
-- operating system at once on one socket, and memory allocation that fails. The destructor of TcpSocket
-- under a reader that is running cannot happen, since the reader shares the socket.
-- The pauses of the example, and the unit tests; the message of the latter is in Tests.Messages.
pub mod Prelude
pub mod Text
pub mod Outcome
pub mod UnorderedMap
pub mod KeyValDict
pub mod StreamParser
pub mod Reaction
pub mod EventList
pub mod EventDispatcher
pub mod Tests
pub mod Worker
pub mod Action
pub mod Application
pub mod Example
pub mod TcpSocket
pub mod ScopeGuard
pub mod Connection
pub mod SocketReader
pub mod SocketWriter
pub mod System
