-- ===== src/Lib.antt =====
-- MoonState: a framework for network protocols as state machines (include/stateMachine.hpp), and the
-- protocols that are written with it. A program registers a function for each state; the framework
-- identifies the connection of each packet of a batch, runs the function of the connection's state,
-- and sends or frees the packet as the function decided.
--
-- The parts and their files:
--   Prelude, Fault    what all files share: Boolean tests, lists, and the faults that code can end in
--   BufArray          include/bufArray.hpp: the array of packets and the mask of those to be sent.
--                     Entries says what an array stands for, Ops and Copy prove the operations right
--   Machine           include/stateMachine.hpp. Types has the data (State, Timeout, FunIface as Iface,
--                     StateMachine as Machine), Iface the calls that state functions can make, Find
--                     the search for a connection (ConnectionPool, findState), Run the handling of
--                     one packet (runPkt, ~FunIface) and addState, Timeouts the loops of runPktBatch.
--                     The other files prove what these do
--   Headers           include/headers.hpp: Ethernet, Ipv4, Tcp and Udp over the bytes of a packet
--                     (Bytes, with the host's and the network's byte order); RoundTrips has the proofs
--   Ident             include/IPv4_5TupleL2Ident.hpp: the identifier by addresses, ports and protocol.
--                     Keys makes it the key of the framework's tables
--   Wide              include/common.hpp: uint24 and uint48
--   Hello             what the three HelloBye protocols share. Heap is the memory of their
--                     objects, Packet the bytes of a message and of its way back (struct msg,
--                     Identifier), Effects what a state function does with its packet and object, Api
--                     the C interfaces, Rules what it means to follow a protocol; Turn, Answer and
--                     First have the proofs about the bytes, Convert the conversion of an object
--                     to the class of the next state, Moves and Leaves what a step leaves behind,
--                     Sample a heap for the tests
--   HelloBye3         src/helloBye3.cpp, include/helloBye3.hpp: Server and Client (runHello, runBye,
--                     runRecvBye, factory, createHello), Setup (the C interface). ServerRules,
--                     ClientRules, Greeting, Calls and States have the proofs about one function,
--                     Session puts client and server together
--   HelloBye3MemPool  src/helloBye3MemPool.cpp, include/helloBye3MemPool.hpp: the same over memory
--                     pools; Setup has the life of the pools
--   HelloBye          src/helloByeProto.cpp, include/helloByeProto.hpp, src/helloBye_C.cpp: the protocol
--                     that speaks in text. Text is what memcmp, memcpy and a stream do with it,
--                     Objects the classes, Server and Client their functions, Setup the C interface.
--                     Spoken, ServerRules, ClientRules and Greeting have the proofs about one
--                     function, Session and Exchange put client and server together
--   HelloBye2         src/helloBye2Proto.cpp, include/helloBye2Proto.hpp, src/helloBye2_C.cpp: a class for
--                     each state. Objects has the classes, Server and Client their functions, Setup the
--                     C interface; ServerRules has the proofs
--   Tcp               src/tcp.cpp, include/tcp.hpp, include/tcpConCtlSimple.hpp,
--                     include/tcpProtoJoke.hpp, src/tcpJoke.cpp. Data has segments, connections and
--                     sendData, Window the queues of segments, Packet what is written into packets,
--                     Handlers runSynAck, runEst and runAckFin, ConCtl the congestion control and
--                     the echo protocol, Joke the C interface; Segments, Queues and Loop have
--                     the proofs
--   Dtls              src/dtlsServer.cpp, src/dtlsClient.cpp, include/dtlsServer.hpp,
--                     include/dtlsClient.hpp: the bindings of OpenSSL. Library is what they use of
--                     it, Store the memory, Server and Client the state functions, Sending the loop
--                     that both share, Context createCTX, Create the objects, Setup the C
--                     interfaces; Returns, Steps, Handshake, Packets, Carried, ClientPackets,
--                     ClientStays and Freed have the proofs
--
-- How the model reads the code:
--   - `Sys` is one StateMachine with the connection pool that it points to, the batch that it works
--     on and the memory of the user's code; an operation takes it and returns it, in `Result`. A
--     failed assertion (the build files leave assertions on), an access out of bounds, a use of a
--     removed connection and an exception of the user's code are its faults.
--   - The hash tables (google::dense_hash_map, tbb::concurrent_hash_map) are not part of the
--     repository: `Table` is what the code relies on, for the keys that the table does not reserve.
--     The identifier, the user's functions and the clock are parameters too (`Env`). `Uses` is what a
--     function can do through FunIface; `WellBehaved env g` says that each function does at most `g`
--     such things.
--   - A state is a reference into the table while its function runs. The function cannot reach the
--     table otherwise, so the model works on a copy and writes it back.
--   - `findState` jumps back at most once, so two units of fuel are enough, which is proved; the
--     timeout loop gets one unit for each queued timeout and one more. `getSendBufs` gets one unit
--     for each element of the mask.
--   - Counters and indices have the width that the code gives them, with `% 2 ^ w` where they wrap.
--   - `new`, `delete` and the memory pools are `Heap`, of which only that is used which their
--     documentation promises; `rand` is a sequence of numbers. The bytes of all packets are one
--     memory; `data_at` says where a packet's data starts, and `World` has its length. A read or
--     write behind the end of a packet is one of that memory and not a fault, so that the absence of
--     such accesses is not proved.
--     A field that a constructor leaves as it is holds an unknown number.
--   - The client of HelloBye takes the object of its first class for those of the others. It is kept
--     as it lies in the memory: a second `int` stands where the four bytes of the address are.
--     An `int` is ℤ; the values that occur are those of a byte less 48 and of a cookie, so nothing
--     overflows. The digits of an `int` get ten rounds, which is as many as it can have.
--   - A buffer of a TCP segment is the list of its bytes, since each belongs to one segment. The
--     state functions of TCP are generic in congestion control and protocol (`ConCtl`, `Proto`), as
--     the templates are. The loop of `sendData` gets one unit of fuel for each byte, the send loop
--     one for each queued segment and one more, which is proved to be enough.
--   - OpenSSL, a git submodule, is `Library`, over a state of its own; `IsQueue` is what the code
--     relies on of its queues (BIO_s_memQ): a read of one that has something gives at least one byte,
--     no more than asked for, and takes from it what it gave. The loop that empties one gets a unit of fuel for each byte
--     pending and one more, which is proved to be enough. The pool of packets is a parameter too.
--
-- Not modelled: the measurement counters (measureData), the debug output, the iterator of
-- BufArray, the printing of addresses, the hash of a connection (libsodium), and everything that
-- is another component: the Astraeus binding (its library is a git submodule), the pcap backend and
-- the C and Lua interfaces on top. The client of TCP is declared in include/tcp.hpp and nowhere
-- defined.
pub mod Prelude
pub mod Fault
pub mod BufArray
pub mod Machine
pub mod Headers
pub mod Ident
pub mod Wide
pub mod Hello
pub mod HelloBye3
pub mod HelloBye3MemPool
pub mod HelloBye
pub mod HelloBye2
pub mod Tcp
pub mod Dtls
