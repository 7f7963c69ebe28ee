-- ===== src/Lib.antt =====
-- Application-aware resource management for wired networks: a resource manager tells the clients of a
-- demonstrator when to start, to reconfigure and to stop their data transmissions. The clients ask the
-- manager for synchronisation; it registers one service per request and then, on timers, starts the
-- traffic, runs the mode changes of an experiment and stops everything. All of that travels in control
-- messages over UDP.
--
-- The parts and their files, with the paths from the repository's root:
--   Prelude    the shared names: native numbers, lists, 64-bit integers, Boolean tests.
--   Buffer     MessageNet_t, the serialisation buffer (include/rscmng/data_sharing/message_net.hpp).
--              Bounds has its invariant, Stream what is written and read.
--   Codec      the bytes of numbers and timestamps, and reading in sequence; Laws says what a reader
--              and a writer do.
--   Types      the enumerations (include/rscmng/messages.hpp, include/rscmng/protocols).
--   Payload    the payload classes (src/rscmng/protocol_basic_payload.cpp and
--              protocol_rm_wired_payload.cpp).
--   Message    RMMessage (src/rscmng/messages.cpp): network_to_rm, rm_to_network, the constructors.
--   Channel    RMCommunication (src/rscmng/rm_communication.cpp): one function per send_ method, and
--              receive_control_message.
--   Map        SharedMap (include/rscmng/data_sharing/safe_map.hpp).
--   Queue      SafeQueue (include/rscmng/data_sharing/safe_queue.hpp), as a step relation.
--   Clock      the arithmetic on timestamps (include/rscmng/rm/net_layer_rm.tpp).
--   Config     the records of the configuration (include/rscmng/utils/config_reader.hpp).
--   Uuid       UUID_t, the identifiers (include/rscmng/attributes/uuid.hpp): their order, their texts.
--   Reader     ConfigReader (src/rscmng/config_reader.cpp): Tree has what it uses of the trees, Services,
--              Units and Experiment the methods, Entries, Settings and Ranges what is read.
--   Timers     TimerManager (include/rscmng/utils/timer_events.hpp and timer_events.tpp), with the calls,
--              the times and the handlers in any order.
--   Manager    NetLayerRM (include/rscmng/rm/net_layer_rm.tpp): Manager has its state, the handler of
--              messages and the send_ methods, Start, Experiment and Stop the callbacks of the timers;
--              the other modules below it say what the clients get.
--   Client     RMAbstraction (src/rscmng/rm_abstraction.cpp), a client's side of the channel.
--   Endnode    the client of an end node (examples/wired_basic/wired_rm_client_endnode.cpp): its state,
--              the switch of main and the handlers; Polling has the loops that poll the clock. Below it
--              is what the loops do, what a command of the manager does, and which answers are sent.
--   Switch     the client of a switch (examples/wired_basic/wired_rm_client_switch.cpp), which starts a
--              script for a mode.
--   Generator  TrafficGenerator (src/rscmng/traffic_generator.cpp): Notify has the members that the
--              client sets, Generator and Asynchron the two sending threads as state machines, Events
--              the calls and the steps in any order.
--   DataMessage  the fragments of the data traffic (src/rscmng/messages.cpp).
--   Sink       TrafficSink (src/rscmng/traffic_sink_statistic.cpp).
--   WiredRm    the main program of the manager (examples/wired_basic/wired_rm.cpp), from the
--              configuration to the manager and the sinks.
--
-- The main program reads the configuration and gives it to the manager. The manager sends a command as a datagram; the client takes the message out of its queue, reads the
-- payload, polls the clock for the timestamp and tells the traffic generator, whose thread sends the
-- objects of its mode to the sink.
--
-- A definition has the name of the function, the method or the type that it models. State is passed
-- explicitly; none is undefined behaviour. Memory that the program leaves indeterminate, the clock and
-- the sockets are arguments: a Platform answers what each send meets and what each reading of the clock
-- returns, a Receiver is a client with its memory. The loops over the iterations of an experiment run on
-- fuel; more fuel than iterations is enough.
--
-- Widths: members are natural numbers with their bounds as hypotheses, uint8_t, uint16_t, uint32_t and
-- uint64_t casts are written out, and timestamps are signed integers that fit 64 bits.
--
-- A step of a sending thread goes from one wait or loop test to the next and reads the shared members
-- once; steps and calls come in any order. Bytes that a thread writes behind the end of its vector are
-- lost to the model; that they are written is a result. The readings of the clock are lists, which a
-- polling loop consumes; a loop that outlives its list is still polling.
--
-- The trees of the configuration file are a PropertyTree, which says that a number that is read fits the
-- type it is read as; the exceptions of the reader are faults. A handler of a timer runs only after its
-- time has passed or it was cancelled. What the platform makes of the line of the sink for the packets of
-- number 1, a call of fprintf with objects of std::string, is a parameter, none if it does not get through.
--
-- Not modelled: the threads themselves and their data races, logging, sockets, the parser of JSON, the
-- random sleeps between mode changes, the reading of the configuration and the signal handlers of the
-- clients, the pause between packets, and check_interfaces.
pub mod DataMessage
pub mod Generator
pub mod Sink
pub mod Endnode
pub mod Switch
pub mod Prelude
pub mod Buffer
pub mod Codec
pub mod Types
pub mod Payload
pub mod Message
pub mod Channel
pub mod Clock
pub mod Map
pub mod Config
pub mod Manager
pub mod Queue
pub mod Client
pub mod Uuid
pub mod Reader
pub mod WiredRm
pub mod Timers
