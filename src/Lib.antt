-- ===== src/Lib.antt =====
-- Verification of cercall, a C++ library for remote procedure calls with asynchronous results.
--
-- The parts of the program and how they interact. A client (include/cercall/client.h) sends the
-- call of a function of an interface, by its name and arguments, and calls a closure with the
-- result when it comes. A service (include/cercall/service.h) has a dictionary of the functions
-- by their names, dispatches the calls to them, and sends the results that they give their
-- closures; it also broadcasts events to the listeners of its clients. Both make messages by a
-- serialization, put a header with the size in front of each, and read such messages from a
-- stream by a messenger; the stream is a transport over a socket, and a service gets its
-- transports from an acceptor.
--
-- Which file models which part:
--   Messenger.antt      include/cercall/details/messenger.h: the size header and its writing, and the
--                       read loop over a messenger, a transport and a handler in a larger state
--   Transport.antt      include/cercall/asio/basicstreamtransport.h and transport.h: the states of a
--                       connection; Transport/ClientTcp.antt: asio/clienttcptransport.h
--   Acceptor.antt       include/cercall/asio/basicstreamacceptor.h and acceptor.h
--   Serialization.antt  what client and service use of a serialization, as a record with laws;
--                       Cereal.antt (cereal/serialization.h, types.h) fills it over Archive.antt, the
--                       interface of an archive library without a state
--   Boost.antt          include/cercall/boost/serialization.h and types.h, over Boost/Archives.antt,
--                       the interface of a library whose archives have a state
--   CallQueue.antt      include/cercall/details/callqueue.h
--   FunctionDict.antt   include/cercall/details/functiondict.h, with TypeUtil.antt for typeutil.h
--   Client.antt         include/cercall/client.h: State, Sending, Receiving, Connection
--   Service.antt        include/cercall/service.h: State, Dispatch, Functions, Clients
--   Error.antt, Result.antt   include/cercall/error.h, asio/errorcode.h, and Result of cercall.h
--   Rpc.antt            client and service together
--   Clock.antt          examples/cerclock: the service's State, Functions and Timers, its Dispatch of
--                       calls, its Steps, and the Client with its program; clockservice.cpp, clockservice.h,
--                       clockinterface.h, clockclient.h and clockclient.cpp
--   Fixtures.antt       the services that the unit tests call: unittests/calculatorservice.h and
--                       calculatorclient.h, and unittests/eventstestserver.cpp; their helpers in
--                       unittests/testutil.h
--   Base.antt           helpers: tests, maps, lists, code that reads and writes a state and may throw
--                       (Exec), postconditions (Ensures) and invariants (Keeps) of such code
--   Tests.antt          the theorems at concrete inputs
--
-- How code becomes definitions. A member function is a function of its object's state that gives
-- an outcome and a new state; an outcome is a value, an exception, the end of the program (a
-- failed o_assert, or an exception that leaves a destructor), an access that C++ leaves
-- undefined, or the end of the fuel. Each function has the name that it has in the source, with
-- the larger ones cut at their branches. A transport gives the list of the notifications of its
-- listener, which the operation that called it delivers; handle_recv is cut at the notification,
-- behind which finish_recv closes the transport. A call of user code by a client is recorded in
-- the client's state; a function of a service is given as the results that it gives its closure
-- at once, results that it gives later being operations of their own. Threads are numbers that
-- check_thread_id compares. Addresses of transports are numbers, and the state of a client of a
-- service is looked up where the source follows a pointer to it, so that a pointer to a destroyed
-- object shows as an undefined outcome. The address of a new transport is the allocator's choice:
-- a statement about runs assumes that it is not the address of a client, whose transport still
-- exists. An acceptor counts the accepts that it has in progress; each completes as an operation,
-- with an error code that the network library chooses. A timer is the network library's: the
-- model records which waits are outstanding, by what their handlers capture, and whether their
-- timer has been cancelled, and the completion of a wait is a step with an error code that the
-- library chooses. The steps of the clock are a relation, in which a function's body is a step of
-- its own; Clock/Dispatch.antt runs the dispatch of a message and then the body, with the
-- arguments that the dictionary's entry reads from it.
--
-- Bounds and fuel. The size of a message is written as the source computes it, in 32 bits with
-- the wrap-around, and so is the id of an alarm; times are integers without a bound. The loop of
-- Messenger::read has one round more of fuel than there are bytes, and each round that goes on
-- takes at least one byte if the size that is waited for is not 0; the loop of Service::stop has
-- one round more than there are clients.
--
-- Not modelled: logging and what the examples print, socket options, the macros and templates
-- that give the name of an interface and the kind of its events (these are parameters), the
-- choice of an archive type, the Python binding, the test cases and their handling of processes.
-- The network library (Asio) gives its results as arguments. The archives of Cereal are the
-- parameter of Archive.antt and those of Boost.Serialization the one of Boost/Archives.antt, with
-- the laws that what is saved is loaded back. Client and service take a serialization without a
-- state, so they are not put together with Boost.antt. The byte order is little-endian.
pub mod Base
pub mod Error
pub mod Result
pub mod Archive
pub mod Messenger
pub mod Serialization
pub mod Transport
pub mod Cereal
pub mod Boost
pub mod CallQueue
pub mod TypeUtil
pub mod FunctionDict
pub mod Client
pub mod Acceptor
pub mod Clock
pub mod Fixtures
pub mod Service
pub mod Rpc
pub mod Tests
