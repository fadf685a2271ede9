-- ===== src/Lib.antt =====
-- KohdaLab IV: a model of its safety logic, with the theorems that make it correct.
--
-- The program drives voltage and current sources and meters over a GPIB or USB bus. Protocol is
-- crates/instrument-protocol/src/lib.rs, the requests that applications send to the instrument
-- service and the client that sends them. Hub is crates/instrument-hub/src: Hub/State, Hub/Bus
-- and Hub/Core model core.rs, the single owner of the bus, one function for each request;
-- Hub/Journal its journal of sources whose output may be on; Hub/Listing its resource lists;
-- Hub/Worker, Hub/Sessions and Hub/Connection model server.rs, the worker's loop and one
-- connection; Hub/Proxy models proxy_request of main.rs, the client of the service that takes the
-- place of a helper process. Catalog is crates/iv-core/src/catalog.rs, and Plan is the planner of
-- sweeps in crates/iv-core/src/lib.rs, from decimal limits to points (Plan/Sweep), and the
-- increment of a voltage that is divided between two sources (Plan/Lattice).
--
-- Transport is crates/iv-transport/src. Transport/Instruments, Transport/Identity,
-- Transport/Replies and Transport/Commands model instruments.rs: the roles, the identities, the
-- replies and the commands of each dialect. Transport/Drivers models drivers.rs, which sequences
-- them over a narrow interface to one instrument (the record InstrumentIo), and
-- Transport/Drivers/Recording the interface that keeps every exchange. The rest is lib.rs:
-- Transport/Resources the resource names; Transport/Wire the lines to and from a helper process;
-- Transport/Session the exchanges with one helper (HelperSession); Transport/Pair the instruments
-- of an application (DevicePair), with Pair/Connecting and Pair/Disconnecting for its
-- connections, Pair/Endpoints for ordinary reads and writes, Pair/Recorded and Pair/Queried for
-- those that keep their exchanges, and Pair/Shutdown for the emergency shutdown of sources. A
-- pair uses the sessions through the record Sessions. Desktop is crates/iv-desktop/src:
-- Desktop/States the states of state.rs, Desktop/Safety the condition registers of
-- engine/safety.rs and Desktop/Engine/Readings its numbers. Desktop/Engine declares what the
-- parts of the measurement engine share: the snapshot, the engine with its instruments and the
-- log of a run (the record Bench), the pair of instruments it drives (DevicePair), and what it
-- takes from the planner and from other threads (Planner, Setup); an optional pair stands for
-- Option<&mut DevicePair>. Engine/Ramp is the ramp of workflow.rs, Engine/Exchange the exchanges
-- that engine/gate.rs and engine/source_dc.rs share, Engine/Gate the gate bias of engine/gate.rs,
-- Engine/SourceDc the fixed outputs of engine/source_dc.rs, Engine/Shutdown the end of a run in
-- engine.rs, Engine/Protection the check of the source's protection in engine.rs with its
-- evidence, Engine/Evidence what an exchange with a source shows, and Engine/Hardware the pair of
-- Transport as the pair of the engine. Desktop/Control is how engine.rs admits commands: the
-- thread that reads them and the engine share the flags of Control and a queue, and their steps
-- come in any order. The theorems stand in the children of each module; Examples has concrete
-- benches and the theorems at concrete inputs.
--
-- State is explicit: a handler takes the state and returns the next state with its result. Errors
-- keep their code, or in Transport one constructor for each cause; the wording of messages is not
-- modelled. The backend of the bus, the file system, the JSON encoding, the TCP streams, the
-- pipes of a helper process and the operations on floating-point numbers (the record Float) are
-- parameters; what a theorem needs of them is a record of named laws (IsDisk, IsLocal), and
-- Examples shows that these can be met. The decimal arithmetic of the planner is the parameter
-- Decimal, with the laws IsGrid of exact numbers on a grid; the planner's loop runs by the number
-- of points it may still add, which the source bounds by a million. The loop of gcd_i128 runs by
-- one round more than its second number, which is enough since that number falls. The loop over
-- the diagnostics of a helper has as fuel the 64 KiB that it may read and one more, which is
-- enough since each such line has a byte. The loops of a panel and of a recovery have the rounds
-- of the source, 5 and 2. The functions of iv-core that plan a ramp, the profiles and the
-- cancellation by other threads are the parameters Planner and Setup of the engine. A ramp makes
-- at most as many steps as its fuel, and a ramp that used all of it would end with the fault
-- `endless`; Engine/Ramp/Distance has the fuel that is enough, the distance in steps, under laws
-- of its own (IsGrid) for numbers whose arithmetic is exact. Numbers are natural numbers with the
-- ranges of the source's types; durations are nanoseconds.
--
-- Not modelled: sockets, threads and files beyond what is said here, the start of helper
-- processes, the discovery of resources, the files of leases, the instrument profiles, the checks
-- of a run configuration on floating-point numbers, the run of a sweep with its readings, its
-- statistics and its files in the measurement engine, the alignment of a sweep to the grid of a
-- source, and the desktop interface.
pub mod Common
pub mod Catalog
pub mod Protocol
pub mod Transport
pub mod Hub
pub mod Plan
pub mod Desktop
pub mod Examples
