-- ===== src/Lib.antt =====
-- The virtual time agent: a daemon on each machine of a cluster that slows the virtual hosts (virtual
-- machines and simulators) of all machines down by one common factor, the time dilation factor (TDF),
-- so that an overloaded machine does not distort an emulation. All paths are those of the repository.
--
-- The parts and how they interact. On every machine the CPU monitor (virtualagent/CpuMonitor.cpp)
-- measures the load and broadcasts the TDF that its host needs. The UDP server
-- (virtualagent/net/UdpAsyncServer.cpp) of every agent hands these messages to the message processor
-- (virtualagent/MessageProcessor.cpp), which puts them into the TDF table
-- (virtualagent/MemoryDatabase.cpp). The table adopts the greatest TDF and notifies the virtual time
-- thread (virtualagent/VirtualTime.cpp), which stops the virtual clocks
-- (virtualagent/shared/qemu-timer.c) and the hosts (virtualagent/shared/bin_sem.c), puts the TDF into
-- the shared memory (virtualagent/SharedMemory.cpp), adapts the network interfaces by tc commands
-- (virtualagent/InterfaceConfigurator.cpp), and lets clocks and hosts go on. A controller steers an
-- agent over TCP (virtualagent/net/TcpSession.cpp, TcpConnectionManager.cpp and RawMessage.hpp), by the
-- client virtualagent/net/chat_client.cpp. The program (virtualagent/virtualagentd.cpp) becomes a daemon
-- (virtualagent/Daemonizer.cpp) and runs these threads until SIGTERM (virtualagent/VirtualAgent.cpp and
-- SignalHandler.cpp). The processes of the virtual hosts read the clocks in the shared memory.
--
-- The files. Each component is a file, with its theorems in the folder of its name.
--   Prelude       numbers, lists, results that may be a crash (Outcome)
--   Floats        double and long double, which are an instance argument of all that uses them;
--                 Floats/Fixed is an instance over thousandths, on which the examples run
--   CLib          atoi, atoll, sprintf with %4ld; CLib/Buffers: texts in buffers
--   OrderedMap    std::map, as a list in the order of its keys
--   Configuration virtualagent/Configuration.{hpp,cpp}
--   TdfTable      TdfTable of virtualagent/MemoryDatabase.{hpp,cpp}, and enforceTdf
--   IfaceTable    InterfaceAttributeTable of virtualagent/MemoryDatabase.{hpp,cpp}
--   Timer         virtualagent/shared/qemu-timer.{h,c}, virtualagent/SharedMemory.cpp; Timer/Readers: the
--                 loops cpu_get_clock and cpu_get_ticks of the other processes; Timer/Clocks: init_clocks
--   Ipc           __ipc_create to __ipc_remove of virtualagent/shared/qemu-timer.c, and the functions of
--                 virtualagent/shared/bin_sem.c that create, attach and remove
--   Tc            virtualagent/InterfaceConfigurator.cpp; Tc/Process: system4Background
--   Semaphore     virtualagent/shared/bin_sem.{h,c}
--   Agent         the state that the threads share: MemoryDatabase, the settings, the semaphores
--   Message       virtualagent/MessageProcessor.cpp; Message/Tcp: a function for each protocol
--   RawMessage    virtualagent/net/RawMessage.hpp
--   TcpSession    virtualagent/net/TcpSession.{hpp,cpp}
--   TcpConnectionManager  virtualagent/net/TcpConnectionManager.{hpp,cpp}
--   CpuMonitor    virtualagent/CpuMonitor.{hpp,cpp}
--   UdpAsyncServer  virtualagent/net/UdpAsyncServer.{hpp,cpp}
--   UdpSyncClient virtualagent/net/UdpSyncClient.{hpp,cpp}; UdpSyncClient/Main: the loop of
--                 virtualagent/net/UdpSyncClientMain.cpp and virtualagent/net/AsyncServerMain.cpp
--   VirtualTime   virtualagent/VirtualTime.{hpp,cpp}
--   Service       virtualagent/net/TcpAsyncServer.{hpp,cpp}, and the completions of all sockets
--   ChatClient    virtualagent/net/chat_client.cpp
--   SignalHandler virtualagent/SignalHandler.{hpp,cpp}
--   VirtualAgent  virtualagent/VirtualAgent.{hpp,cpp}: the threads from the start to the end
--   Daemonizer    virtualagent/Daemonizer.{hpp,cpp} and virtualagent/virtualagentd.cpp
--   TimeGetter    virtualagent/TimeGetter.{hpp,cpp}
--   CpuLogger     virtualagent/CpuLogger.{hpp,cpp}, which nothing in the agent constructs
--   TestPrograms  the printing threads of virtualagent/net/UdpAsyncServerMain.cpp and
--                 virtualagent/net/TcpAsyncServerMain.cpp, and virtualagent/net/UdpDatatimeServer.cpp
--   Cluster       the agents of all hosts together. Cluster/Network: the monitors, servers and virtual
--                 time threads of all hosts and the datagrams between them, as a run of events, with
--                 what no run breaks in Cluster/Safety and Cluster/Bounds and one host's view of a run in
--                 Cluster/Projection and Cluster/Projected. Cluster/Agreement, Cluster/Convergence and
--                 Cluster/News: agents that hear the same reports; Cluster/Orders: in different orders
-- An operation has the name of its C++ function in lower case with underscores (setFlagKeep is
-- set_flag_keep) and takes the state to the new state. A null pointer that is followed, an access
-- behind a buffer and a call of exit are a crash.
--
-- Numbers. A 64-bit value is an integer; where the code converts or wraps around, the model does
-- (atoi, the header's length, the settings, the conversions of times). The overflow of a signed
-- integer is undefined in C, and a theorem that needs it to be absent says so by FitsInt64; one that needs
-- the conversion of a floating point number to be defined says so by InRange. What the theorems take of the
-- floating point types are laws of IEEE 754 (Floats), which hold of NaN and the infinities too: the order
-- (IsOrdered), the exactness on 64-bit integers (IsExact) and rounding that keeps the order (IsMonotone).
--
-- Parameters. boost::split is an argument (split); what glibtop, gettimeofday, clock_gettime, rdtsc,
-- fork, setsid, chdir and waitpid return are arguments of the functions that call them, as are the bytes
-- that a socket delivers. shmget, shmat, shmdt, shmctl and semget are the interface SystemV of Ipc, with
-- what their manual pages say of named objects, and of the removal of those that the process may remove, as
-- its laws. The fuel of the readers' loops (Timer/Readers) counts their
-- rounds, of which one more is enough than were begun before the last stop or start of the clocks.
--
-- Threads. What the other processes do to the shared memory between two accesses of a reader is an
-- argument (Timer/Readers). The wait of the virtual time thread and those that notify it are steps
-- (VirtualTime/Wake), as are the threads of the agent from their start to their end (VirtualAgent); in both the wait
-- may also return without a notification. The
-- handlers of the sockets run one at a time, as io_service runs them on its one thread (Service). A message
-- in the middle of a round of the virtual time thread is in VirtualTime/Race. In Cluster/Network an event is a
-- whole round or receipt, and a datagram that was sent may arrive at any later event, more than once
-- or never. Elsewhere a function runs alone.
--
-- Not modelled: the log, the signal mask, and the set-up of the sockets, which only calls boost::asio. Of
-- the test programs under virtualagent/net the main functions are left out but for their loops, and so is
-- MessageProcessorTestMain.cpp, which calls a function that the message processor no longer has.
-- The commands of a controller are no events of Cluster/Network; what they do to one agent is in Message. Nothing
-- in the agent calls deliver of the connection manager, so that the service has no completions of
-- writes; the queue of the writes is in TcpSession.
pub mod Prelude
pub mod Floats
pub mod CLib
pub mod OrderedMap
pub mod Configuration
pub mod TdfTable
pub mod IfaceTable
pub mod Timer
pub mod Tc
pub mod Semaphore
pub mod Agent
pub mod Message
pub mod RawMessage
pub mod TcpSession
pub mod TcpConnectionManager
pub mod CpuMonitor
pub mod UdpAsyncServer
pub mod VirtualTime
pub mod TimeGetter
pub mod CpuLogger
pub mod SignalHandler
pub mod VirtualAgent
pub mod Ipc
pub mod ChatClient
pub mod Daemonizer
pub mod Service
pub mod UdpSyncClient
pub mod TestPrograms
pub mod Cluster
