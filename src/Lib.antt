-- ===== src/Lib.antt =====
-- xsan: a storage node that keeps volumes on local disks and replicates them to other nodes.
--
-- Parts and files. Each file XYZ.antt says which source it is about; its child modules hold what is
-- proved, and Tests run the definitions.
--   Base        Boolean tests, lists and 64-bit additions that all parts share.
--   Status      the error codes of include/xsan_error.h that the modelled functions return.
--   StringUtils src/utils/string_utils.c: a C string as the bytes before its NUL, a buffer as all of
--               its bytes. Copy, Trim, Escape, Config, Compare, Replace, Split, Numbers and Convert hold
--               a function per function of the source; Bounds, Fields and Replaced what is proved of three of
--               them.
--   Config      src/utils/config.c: the list of items with typed values. Items and History are about
--               setting and removing, Load and Loaded about reading a text, Save writes a file; Saved,
--               SavedLines and RoundTrip read it again, Decimal its integers. Sections, Seeds and
--               Validate are the records for the rest of the program, Fields and SeedList about them.
--   Cluster     src/cluster/xsan_cluster.c: the nodes that the cluster knows; Known is about which of
--               them it finds.
--   Memory      src/utils/memory.c: the allocator as a state and functions on it, where a call that
--               would lock its mutex twice has no answer; Accounts and History are about the
--               statistics, Calloc about overflow. Pool is the memory pool on a heap of
--               blocks: Chains and Owned its free list, Handed what it hands out, Lost what it loses.
--   IoRequest   src/io/xsan_io.c: a request as a record, SPDK's answers to one submission as another,
--               what is asked of SPDK and the caller as a list of effects. Balance is about what is
--               taken and given back, Served about a request that succeeds.
--   LinkedList  src/common/list.c: nodes with both pointers on a heap, an operation as a function on
--               the heap and the list's header. Seg and Weave speak of the links, Rep of the sequence
--               that a state stands for, Sequence is the contract, Refine and Runs relate the two.
--   RingBuffer  src/common/ring_buffer.c: a record for the structure, a function per operation;
--               Fifo is the bounded queue that it implements.
--   HashTable   src/common/hashtable.c: the buckets as lists of entries, the walks of put, get and
--               remove as recursive functions, the iterator.
--   Protocol    src/network/protocol.c: the header's 24 bytes, the checksum, the creation of
--               messages. IsWire says what a receiver needs of a message.
--   NodeComm    src/network/xsan_node_comm.c: the buffer of a connection and the loop that cuts the
--               stream into messages, which uses Protocol; Capacity, Settled and Coming are about the
--               buffer between two reads, Arrive about messages that come in pieces; Send writes
--               messages, and Sent puts both sides together.
--   Volume      src/storage/volume_manager.c and src/replication/xsan_replication.c. Volume itself
--               holds the data and the state of a volume; Mapping the way from a block of a volume to
--               a disk and the local I/O; Handler the requests to replicas, which Protocol's messages
--               carry, and their handlers, which use Mapping; Write the counters of a replicated
--               write; Read the attempts of a read; Create the choice of a new volume's replicas.
--               Transport follows a write through NodeComm to its handler.
--
-- Conventions. A pointer that may be NULL is an option, or 0 for a key or value; an identifier, a
-- name or an address is a number, a buffer a list of bytes. Sizes wrap around at 2 ^ 64 and uint32_t
-- counters at 2 ^ 32 where the source computes them. Whether an allocation succeeds is a Boolean
-- argument. SPDK, RocksDB, json-c and the functions that the repository declares and does not define
-- (xsan_volume_get_by_id, the search of disks, the end of a replicated write and of a replica's local
-- I/O) are arguments or left out. Each operation runs alone; of the locks only those are followed that
-- a call takes twice (in Memory, and in disconnecting).
--
-- Fuel. The loop over the receive buffer gets as many rounds as twice its bytes and at most two more:
-- each round takes a header or ends a message. xsan_str_replace gets as many rounds as the text has
-- bytes and one more, as each occurrence takes at least one; xsan_list_clear as many as the list has
-- nodes and one more. A read gets three attempts and one call that finds no more replicas, as it tries at
-- most three replicas. A number is printed with at most 20 digits, which hold every 64-bit number. All other
-- loops are structural. The walks of the memory pool have a fuel that is an argument, and what is
-- proved of them holds for any; that these walks end is not shown.
--
-- Not modelled: connecting and accepting, the rest of the creation, the deletion and the loading of
-- volumes, the disk manager, whose source breaks off, the printing of floating-point numbers and of
-- the string functions, the cluster's stubs, the tables of error texts, block devices, targets,
-- sockets, logging and the programs.
pub mod Base
pub mod Cluster
pub mod Config
pub mod HashTable
pub mod IoRequest
pub mod LinkedList
pub mod Memory
pub mod NodeComm
pub mod Protocol
pub mod RingBuffer
pub mod Status
pub mod StringUtils
pub mod Volume
