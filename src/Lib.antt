-- ===== src/Lib.antt =====
-- A verification library for the core of XyneraOTS, an Open Tibia game server in C++ (src/).
--
-- Parts, and the files that model them:
--   Net/Bytes, Net/Buffer   integers in memory as memcpy copies them (little-endian host), and byte
--                           arrays; used by Net and Storage.
--   Net/Xtea                src/xtea.cpp: key expansion, the in-place cipher over a buffer.
--   Net/Checksum            src/tools.cpp: adlerChecksum.
--   Net/Message             src/networkmessage.h, src/networkmessage.cpp: the packet buffer with its
--                           position, length and overrun flag; every read and write but the item
--                           ones and addDouble. Net/Message/Writes runs them in sequence.
--   Net/Protocol            src/outputmessage.h, src/protocol.h, src/protocol.cpp: OutputMessage, the
--                           sending and receiving ends of Protocol, and from src/connection.cpp the
--                           part that takes a packet off the wire.
--   Storage/PropStream      src/fileloader.h: PropStream and PropWriteStream.
--   Storage/Otb             src/fileloader.cpp: OTB::Loader, its constructor, parseTree and getProps.
--                           Storage/Otb/Format is a description of the file format of its own.
--   Ban                     src/ban.h, src/ban.cpp: Ban::acceptConnection, the limit on connections.
--   Guild                   src/guild.h, src/guild.cpp: members online, ranks, IOGuild::loadGuild.
--   Wildcard                src/wildcardtree.h, src/wildcardtree.cpp: the trie of names online.
--   Geometry                src/position.h, src/tools.cpp: positions, getNextPosition,
--                           getDirectionTo.
--   Wheel                   src/enums.h, src/tools.cpp: the skill wheel, getWheelNeighbours.
--   Party                   src/party.h, src/party.cpp: groups and shared experience; Party/Groups the
--                           operations of Party and of the party's part of src/player.cpp,
--                           Party/Handlers the handlers of src/game.cpp that call them.
--   Container/Iterator      src/container.h, src/container.cpp: ContainerIterator and the loops over it.
--   Container/Query         src/container.cpp: queryAdd; Container/Query/Count queryMaxCount;
--                           Container/Query/Destination queryRemove and queryDestination.
--   Container/Change        src/container.cpp, src/item.cpp: addThing, addItemBack, internalAddThing,
--                           updateThing, replaceThing, removeThing and the weights they keep.
--   Container/Amounts       src/container.cpp: getItemTypeCount, getAllItemTypeCount.
--   Dispatch                src/tasks.h, src/tasks.cpp, src/thread_holder_base.h: the dispatcher's queue
--                           and thread, as a step relation.
--   Dispatch/Scheduler      src/scheduler.h, src/scheduler.cpp, src/thread_holder_base.h:
--                           events, their timers and the hand-over to the dispatcher, as a step
--                           relation.
--   Map/Nodes               src/map.h, src/map.cpp: AStarNodes.
--   Map/Target              src/creature.h, src/creature.cpp: FindPathParams and
--                           FrozenPathingConditionCall.
--   Map/Path                src/map.cpp: canWalkTo, the costs of a step and the loop over the neighbours
--                           in getPathMatching; Map/Path/Find its main loop and the way back.
--   Map/Tree, Map/Tiles     src/map.h, src/map.cpp: the quadtree of leaves, getTile and setTile.
--   Map/Sight               src/map.cpp: the lines of sight and canThrowObjectTo.
-- Prelude has the names and lemmas that all share. A module's child modules hold its proofs, and its
-- Tests the runs at concrete inputs. Party and Map measure distances with Geometry, and these three
-- take positions from Net/Message; Net/Protocol puts Net/Xtea, Net/Checksum and Net/Message together;
-- Dispatch/Scheduler hands its tasks to Dispatch.
--
-- Conventions. Numbers are natural numbers with the wrap-around of their C++ type written out; a
-- signed argument is its bit pattern where that is said. A read or write that C++ leaves undefined
-- is `none` in the model of the cipher and of the parties, and is excluded by a theorem for
-- messages. An iterator into a file is the rest of the file. Players, parties, items and tasks are
-- known by numbers that stand for their addresses, and an item or a cylinder by the answers it gives.
-- The clock is an argument; the Lua events of a party are functions that answer without changing
-- anything. The loops recur on lists, and the 32 passes of the cipher on a count; the walk through a
-- container has as fuel the number of items below it, and the theorem on it shows that this is enough.
-- The search for a path has search_fuel rounds and trace_fuel steps back as its bounds: each round
-- lessens what is left to search, which starts below search_fuel, and each step back goes to a node of
-- lower cost, all of which are at most trace_fuel. Longer fuel than search_fuel may be given.
--
-- Not modelled: the sockets around the buffers and RSA, the attributes and decay of items, the Lua
-- interface, the database, what players are sent, and the rest of the game world (creatures, tiles,
-- combat), whose parts are listed in PROJECT.json.
mod Prelude
pub mod Map
pub mod Net
pub mod Storage
pub mod Ban
pub mod Guild
pub mod Wildcard
pub mod Geometry
pub mod Wheel
pub mod Party
pub mod Dispatch
pub mod Container
