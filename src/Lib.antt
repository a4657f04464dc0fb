-- ===== src/Lib.antt =====
-- The scanner xmap: it sends probes to the addresses of the internet in a random order, from
-- several senders, and hands what it receives to another process through shared memory.
--
-- The white and black list (src/xm_wblist.c) puts the prefixes that may and may not be scanned
-- into a prefix tree (lib/common/xm_iptree.c), which counts the allowed addresses and numbers
-- them. The number of addresses chooses a multiplicative group (src/xm_cyclic.c) whose elements,
-- visited in the order of the powers of a random generator, are the indices into that numbering;
-- each sender walks its shard of them (src/xm_shard.c). A bitmap in pages (lib/common/xm_pbm.c)
-- holds sets of addresses. Results are packed (lib/shm/xm_shm_format.c, lib/shm/xm_bin_format.h)
-- into the entries of a ring that the scanner and its reader share (lib/shm/xm_shm_interface.c).
--
-- The options become the context of a scan (src/xm_context.c), and the tasks are bound to cores
-- whose threads run them (lib/thread/xm_core_pool.c). A sending task (src/xm_send_task.c) takes
-- the addresses of its shard and has the chosen probe (src/probe) make a packet for each; the
-- receiving task (src/xm_recv_task.c) has the probe validate what comes in, notes the source in a
-- bitmap, and stores the first answer of each source (src/xm_store.c) into the ring.
-- lib/common/xm_data_output.h is an output buffer for programs that use the library.
--
-- The files:
-- - Base: Boolean tests, lists, bits of machine words, residues, and `tally`, which counts the
--   numbers below a bound that pass a test and is the specification of every count.
-- - Iptree: lib/common/xm_iptree.c. `add`, `lookup_ip`, `lookup_index`, `paint_value`, `count_ips`
--   are its xm_iptree_ functions, the other definitions its static ones. Semantics, Count, Index,
--   Radix, Blocks and Lookup say what the counters and the radix array hold; Paint, Bijection,
--   Agree, Add, Prefix and Counts are about the public functions.
-- - Wblist: src/xm_wblist.c, with Laws, and Entries, the tree that the entries make. ntohl is a
--   parameter, and what strtol, inet_aton and getaddrinfo read from the text of an entry is an
--   argument.
-- - Cyclic: src/xm_cyclic.c, with Group, Coprime and Candidate. GMP's mpz_powm is a parameter.
--   Generator has what the order of a number is, Roots the groups of the table, Made the cycles.
-- - Shard: src/xm_shard.c, with Next, a single element, and Walk, one call for an address after
--   the other. Its loops run on fuel, which is used up by a step each; none is a loop that has not
--   ended. Orbit sees the elements as powers of the generator; Landed and Created are about
--   xm_shard_create, Widths and Partition about its division of the cycle.
-- - Context: src/xm_context.c, whose strings are lists of characters. Parts and SourceIps are
--   about the list of source addresses, Mac about hardware addresses; Setting has the context and
--   the options, Checks the checks of _context_set in their order, one function each; Stages,
--   Addresses and Valid are about what they leave. A check ends with a context, with -1, with an
--   exit of the process, or in a loop without fuel.
-- - DataOutput: lib/common/xm_data_output.h, with its writers of numbers in Typed, and Appends and
--   Strings about them. malloc is a parameter.
-- - BinFormat: lib/shm/xm_bin_format.h, with all its readers and writers in Typed. Memory, Frame,
--   Values, Fields and Blobs are about them. Memory is a function from addresses to bytes.
-- - Shm: lib/shm/xm_shm_interface.c. Ring sees the header as a queue; Steps has the writer and the
--   reader as a step relation, a call at a time; Fifo is its invariant.
-- - Shm/Format: lib/shm/xm_shm_format.c and xm_shm_entry_record.c, with the reading half in
--   Reader.
-- - Pbm: lib/common/xm_pbm.c, with Laws.
-- - Store: src/xm_store.h and xm_store.c. The buffer is the list of the calls of msgpack; Object
--   reads them as objects.
-- - Probe: src/probe/xm_packet.h and xm_packet.c, with Checksum and Ports. Tcp and Icmp are the
--   four probes, with the answers to them in Reply; Table is xm_probe.h and xm_probe.c, and
--   Results is about what a probe packs. A received packet is the headers that its memory holds at
--   an offset.
-- - Send: src/xm_send_task.c, with Creation, its shard, Landing, from one address to the next,
--   Targets, and Shares, a whole thread from the list on. The interface's `send`, the words of an
--   address pair and the making of a packet are fields of a machine.
-- - Recv: src/xm_recv_task.c, with Unique and Finish. A packet comes with the state of the other
--   threads when it is handled.
-- - ObjectPool: lib/common/xm_object_pool.c, with Owners. An object is its address.
-- - CorePool: lib/thread/xm_core_pool.c, with Mask and Binding; `bind_tasks` is the part of
--   src/xm_work.c that binds the tasks. Threads has the master and the slaves as a step relation,
--   where the steps of the threads come in any order and the pipes work; Phases and Finish are
--   about it.
--
-- Numbers are natural numbers, and machine words keep their wrap-around (% 2 ^ w). The search for
-- a generator runs on fuel: prime + 9 rounds are enough in the small groups and 2^32 + 1 in the
-- largest. The sending task runs on fuel too, of which a step of its shard takes one: more than k
-- + 3 is enough for a shard of k + 1 steps. The receiving task has no fuel: its polls are a list,
-- and so are the attempts of a put into the ring, where the code goes on as long as the ring is
-- full. The loops over the source addresses need 2^32 steps for a range and one for each
-- character.
--
-- Not modelled: the affinity of threads and failures of their pipes, sockets and packet capture,
-- the names of files and interfaces among the options and the number that xm_parse_max_hosts makes
-- with a double, the log, the rate limit of the sender, AES (xm_validate_gen is a parameter), the
-- memory mapping behind the ring, and the interleaving of single memory accesses: the two
-- processes update the header's count without a lock, and here a call is one step. The counters
-- that the tasks share are likewise read once for each packet. Memory that is freed is not
-- tracked. Generated option parsers, copies of other projects' libraries and the Java interface
-- are left out.
pub mod Base
pub mod Iptree
pub mod Pbm
pub mod Cyclic
pub mod BinFormat
pub mod Shm
pub mod Wblist
pub mod Shard
pub mod Store
pub mod Probe
pub mod Send
pub mod Recv
pub mod ObjectPool
pub mod CorePool
pub mod Context
pub mod DataOutput
