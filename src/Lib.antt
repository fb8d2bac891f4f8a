-- ===== src/Lib.antt =====
-- A model of cubic-server, a Minecraft server in C++, and what its parts guarantee.
--
-- The program and the files that model it. Paths are from the repository's root.
--   cubic-server/protocol/serialization: the primary types of the wire format. addPrimaryType.hpp is
--     Protocol.Add, popPrimaryType.hpp is Protocol.Pop; addX and popX are add_x and pop_x there.
--     Structures.hpp and the structures of types.hpp are in Protocol.Types. An output buffer is the
--     list of its bytes; the pair `at`, `eof` of a pop function is the list of the bytes left, the
--     one at `eof` included (Protocol.Cursor), and a pop function returns the bytes behind its value.
--   cubic-server/protocol/ServerPackets.hpp, ServerPackets.cpp: Packets has a module for each group of
--     packets, with parse_x for parseX, and Packets.Dispatch the tables of parsers by state and id.
--   cubic-server/protocol/container: Containers.Slots has the slots of an inventory, Containers.Click and
--     Containers.Drag what a click does to them, Protocol.Slots the swaps of Structures.hpp.
--   cubic-server/nbt.hpp, nbt.cpp: the binary tag format. Nbt.Tag has the tag classes, Nbt.Serialize
--     their serialize, Nbt.Parser the reads that the parse functions share, Nbt.Parse these functions.
--     Nbt.Lookup has the lookups by name, Nbt.Change the members that change a tag. A parse gives a
--     tag, `null` for nullptr, or an exception.
--   cubic-server/world_storage: WorldStorage.Storage is DynamicStorage.hpp, WorldStorage.Palette is
--     Palette.hpp and Palette.cpp, WorldStorage.Section and WorldStorage.Lights are Section.hpp and
--     Section.cpp. A section keeps the numbers that its palettes give in packed storages, and calls
--     setValueSize when a palette needs more bits. A setter returns the section that it leaves,
--     with the exception, if it threw one.
--   cubic-server/Client.cpp: Client is the receive loop _handlePacket, with the table of parsers and the
--     handler of a packet as parameters. A round reads a length, waits, or delivers a packet.
--     Client.Session has the handlers of the states before play, as steps of the client's state.
--   cubic-server/TickClock.hpp, TickClock.cpp: TickClock.
--   cubic-server/thread_pool/Semaphore.hpp: ThreadPool is ReverseSemaphore, each operation one step, and
--     ThreadPool.Semaphore is Semaphore, with a test and a store as two steps.
-- The other files prove: Protocol.RoundTrip, Protocol.Safety and Protocol.BitSet about the wire
-- format, Protocol.SlotLaws and Protocol.SwapCount about the swaps of slots, which are in
-- Protocol.Slots; Nbt.Valid, Nbt.RoundTrip, Nbt.Bounds, Nbt.Total and Nbt.Overflow about tags;
-- WorldStorage.Entries and WorldStorage.Resize about storages, WorldStorage.PaletteLaws and
-- WorldStorage.PaletteBits about palettes, WorldStorage.Store, WorldStorage.Blocks,
-- WorldStorage.LightLaws, WorldStorage.SectionLights, WorldStorage.LightCount,
-- WorldStorage.Recalculate and WorldStorage.BiomeLimit about sections; Client.Loop, Client.Stream
-- and Client.Limits about the receive loop, Client.ServerStream about the loop with the server's
-- tables, Client.Login and Client.Whitelisted about who gets in; Packets.Wire, Packets.Ids and
-- Packets.Framing say what the wire format of a packet is, Packets.RoundTrip what the parsers read of it,
-- Packets.Safety where they read; Containers.Stock, Conserve, Drops, Keys, Shift,
-- ShiftClick and OnClick about the clicks that keep the items, Containers.Limits about those that do
-- not; TickClock.Rate about the clock;
-- ThreadPool.Waiting and ThreadPool.Permits about the semaphores. Common has the shared
-- types and lemmas: bits and fields of words, lists, tests, results.
--
-- Numbers: a w-bit word is its bit pattern, a number below 2 ^ w, with the wrap-around written out; a
-- signed type is its two's complement, read as signed only where the code compares it. Floats are
-- their bits. What C++ gives no meaning to is an exception of the model: `undefined` for a read
-- outside the data or a shift past the width, `signed_overflow` for arithmetic on lengths.
--
-- Loops: the loop of addVarInt is a recursion on the accessibility of its value; copying a storage, the
-- loops over bytes and those of the palettes recurse on the number of rounds. `parse` takes fuel,
-- twice the input's length and one more, since each tag takes a byte at least and a list or
-- compound spends two rounds per tag; a run without enough fuel would be the result `stuck`. The
-- receive loop is given a number of rounds, and its result says if it still runs after them.
--
-- Not modelled: sockets, files, threads but for the steps of the semaphores, logging, the graphical
-- interface, encryption, the noise and JSON libraries, and the game logic on top of the parts above.
pub mod Common
pub mod Protocol
pub mod Nbt
pub mod WorldStorage
pub mod Client
pub mod Packets
pub mod Containers
pub mod TickClock
pub mod ThreadPool
