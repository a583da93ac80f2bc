-- ===== src/Lib.antt =====
-- The servers of EQP speak to EverQuest clients: a login server, a character selection server,
-- and zone clusters under a master process. This library models the parts that those servers
-- stand on, and the reliable packet protocol between them and the clients.
--
-- How the parts interact: every packet body is built and taken apart through an `Aligned` cursor
-- (common/aligned.c). A body becomes a `PacketTrilogy` (non_master/net/packet_trilogy.c), cut into
-- fragments in place; the acknowledgement manager (non_master/net/ack_mgr_trilogy.c) gives it its
-- sequence numbers, and puts what comes in from the client in order, by way of `ack_compare`
-- (non_master/net/ack_common.c). Queues are growable arrays (common/container/eqp_array.c). The
-- login server sends an authorisation for a client to the character selection server
-- (char_select/eqp_char_select.c), where the two meet in whichever order they come; only then may the
-- client (char_select/char_select_client_trilogy.c) ask for anything but to be known. The packets of
-- a zone (zone_cluster/mob/client_packet_trilogy_output.c) are written field by field, in the layout
-- that zone_cluster/structs_trilogy.h and common/player_profile.h declare. All paths stand under
-- src/.
--
-- Which file models what:
--   Container/Array       common/container/eqp_array.c: `Array` with its slots; `push_back` is
--                         `array_push_back`, and so on. Array/Valid has the invariant, Array/Contents
--                         the list that an array stands for.
--   Container/HashTable   common/container/eqp_hash_table.c: slots by their index, with the link of
--                         each. HashTable/Slots and Seg have lists of slots and the ways between
--                         them, Valid, Links and Room the chains and what changes them, Placing the
--                         places for an entry, Content what a table holds, Free the free index, Sound
--                         the invariant; Loops, Get, Set, Joining, Rehash, Realloc, Grow, Unlink, First
--                         and Remove the operations, Laws what they promise each other.
--   Aligned               common/aligned.c: Aligned/Defs has `advance` for `aligned_advance`,
--                         `read_uint16` for `aligned_read_uint16`, and so on, as functions that
--                         return, throw or fault; Aligned/Bytes, Reads, Bounds and RoundTrip the
--                         proofs.
--   Net/AckCommon         non_master/net/ack_common.c
--   Net/Packet            non_master/net/packet_trilogy.c: the bytes of a packet and their fragments.
--   Net/AckMgr            non_master/net/ack_mgr_trilogy.c: `recv_packet` is
--                         `ack_mgr_trilogy_recv_packet`, its second half `drain`; `schedule_packet`
--                         is `ack_mgr_trilogy_schedule_packet`.
--   Time/EqTime           common/time/eq_time.c
--   Time/TimerPool        common/time/timer.c and timer_pool.c: `start_timer` is
--                         `timer_pool_internal_start_timer`, `scan` the first loop of
--                         `timer_pool_execute_callbacks`; TimerPool/Tally counts the entries.
--                         TimerPool/Placed has the places that timers know.
--   Mob/Skills            zone_cluster/mob/skills.c and common/skills.h
--   ZoneId                common/zone_id.c: its three tables and the lookup by name.
--   Net/Crc               non_master/crc.c: the checksum at the end of every packet.
--   Packets               what the zone packets share: Plain is a body as a list of its parts, Struct
--                         a packed C struct with the size and the place of each field, Body the
--                         bodies of parts, Parts the parts as values; Packets/Structs has the structs
--                         of zone_cluster/structs_trilogy.h and common/player_profile.h.
--   Packets/Zone          zone_cluster/mob/client_packet_trilogy_output.c: `make_op_zone_info` is
--                         `client_trilogy_make_op_zone_info`, and so on; the steps of a packet stand
--                         beside the field that each of them fills. Zone/Obfuscate is the
--                         scrambling of the spawn and profile packets.
--   Packets/Profile       the same file's player profile, in the order of its writes.
--   CharSelect            Auth is char_select/eqp_char_select.c, LocalAddress its test of an address;
--                         Client the handlers of char_select/char_select_client_trilogy.c, Params its
--                         test of a new character, Replies the packets that it sends.
--   Common                what these share: Boolean tests, lists over the native numbers, bits, and
--                         queues that a client is looked up in.
--
-- Numbers are natural numbers with the wrap-around of their C type written out. Every loop is a
-- structural recursion, over a list or over a count that the code computes beforehand. Only in the
-- hash table that count is fuel: the capacity for the loops along a chain, which has no slot twice,
-- and 2 for the call that `hash_table_do_set` makes of itself, since a table that has grown has room.
-- A pointer into an array is an index; memory that is touched outside its block, or after it was freed,
-- is an explicit fault, and so is a block of a hash table, or the packets that wait in the
-- acknowledgement manager's array, where their size goes round at 2^32 bytes. A float is its 32 bits and the arithmetic on it a parameter; a
-- text is its bytes without the terminator. The memory of a new packet, before it is written, is a
-- parameter `fresh`. The machine is little-endian. `strtol` is a parameter.
--
-- Not modelled: sockets, threads, shared memory, databases, Lua, files and logging, which are calls
-- of libraries and of the system; the compression of packets and the checksum of a profile, which
-- are zlib's; the floating-point code of the zones and of map generation; and, so far, what is read
-- of a new character, the list of characters, the way into a zone, the connection to the login
-- server, strings, item prototypes, inventories, the messages between processes and
-- the other handlers of the servers.
pub mod CharSelect
pub mod Common
pub mod Container
pub mod Aligned
pub mod Time
pub mod Mob
pub mod Net
pub mod Packets
pub mod ZoneId
