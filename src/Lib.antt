-- ===== src/Lib.antt =====
-- vlbi-streamer records VLBI data from the network to several disks, and sends recordings. A
-- receiver thread (src/udp_stream.c) takes buffers from a branch of entities and puts packets into
-- them by their sequence numbers. A full buffer is woken and its own thread (src/simplebuffer.c)
-- takes a recording entity from a second branch (both branches are src/resourcetree.c), fills the
-- holes of the buffer with headers (src/datatypes.c) and writes it (src/defwriter.c). Which file of
-- a recording lies on which disk, and in which state, stands in a file index, of which there is one
-- for each recording, in a list (both in src/active_file_index.c); readers wait on it.
--
-- - Scheduler: the schedule of the daemon in src/server.c: an event waits on the free list of a branch
--   and runs on its busy list. Starting has `start_scheduled`, Checking `check_schedule` and
--   `add_recording`, Finishing `check_finished`, and Main the rounds of the loop of `main`. An event
--   that is closed leaves its file index through FileRegistry.
-- - FileIndex: `struct file_index` and the calls inside one index. The functions have the names of
--   the source; `afi_add_file` is `add_file_mutexfree`. Waiting has the waits, and Recording the
--   calls that src/simplebuffer.c makes on an index before and after a write.
-- - FileRegistry: the list `files`, with `afi_add`, `afi_get`, `afi_disassociate` and `afi_close`.
--   An address is the field `addr`; reads and writes through a pointer are `deref` and `assign`.
-- - ResourceTree: the three lists of a branch. Acquiring has the calls that hand entities out,
--   Operations `oper_to_all`.
-- - Resequencer: `jump_to_next_buf`, `calc_bufpos_general`, `handle_buffer_switch`,
--   `udps_handle_received_packet` and the loop of `udp_receiver`. `init_resq` is from
--   src/common_filehandling.c.
-- - HoleFiller: `check_and_fill` of src/datatypes.c with what it calls of src/datatypes_common.c.
-- - BufferWriter: `def_write` of src/defwriter.c; `simple_end_transaction`, `simple_write_bytes`,
--   `sbuf_sync_loop` and the end of `write_buffer` of src/simplebuffer.c. Async has `sbuf_check` and
--   `sbuf_async_loop`.
-- - Writers: the recording entities of src/common_wrt.c. A branch of them picks one by
--   `check_if_suitable`; `common_open_new_file` is their `acquire` and `common_finish_file` their `release`.
-- - BufferWorker: the thread of a buffer in src/simplebuffer.c: `write_buffer` gets a recording entity from
--   ResourceTree and Writers, marks the file through FileRegistry, fills its holes by HoleFiller and writes
--   by BufferWriter; `serve_request` is the body of the loop of `sbuf_simple_write_loop`, with its retries.
--   Handshake is the lock between that loop and the threads that make a buffer ready, and Turns the order of
--   the threads that write one single file, both as step relations.
-- - BufferSizes: `calculate_buffer_sizes_singlefilesize` of src/streamer.c with the adjustment for the
--   rx-ring.
-- - SenderTracking: `skip_missing`, `start_loading` and the tests of a sender in
--   src/common_filehandling.c.
-- - Timer: `nanodiff`, `nanoadd`, `zeroandadd` and `get_sec_diff` of src/timer.c.
-- - Base: the library names that are shared, Boolean tests, lists, and `Outcome`, which says how a
--   C call ends: with a result, at a failed assertion, with a fault, or never.
--
-- State is passed explicitly. Locks are not modelled, but for `headlock` in Handshake: a call that holds a lock throughout is one
-- step, and a call that waits gets the states that it sees at its wake-ups as an argument.
-- `size_t` and `long unsigned` are natural numbers with the reduction modulo 2^64 written out; an
-- `int` is its 32-bit pattern, or an integer where its sign is read. Sequence numbers are not negative and below INT64_MAX.
--
-- Fuel: the doubling loop of `add_file_mutexfree` gets 65 rounds, as after 64 doublings of a 64-bit
-- number there are only zeros. `def_write` gets as many rounds as bytes, since a round that goes on
-- moves at least one. `sbuf_sync_loop`, `skip_missing` and the loop of `block_until_free` get their
-- fuel as an argument, and so does `async_loop`, whose rounds depend on when the kernel has its writes
-- complete; `write_until_done` gets what each of its rounds meets.
-- `start_scheduled` gets a step for each event and as many as the list has
-- elements, and one, for each start; the second loop of `check_schedule` one for each event, and one.
-- The loop of `rxring_packetadjustment` gets 16 rounds, since it stops at the next multiple of 16. The
-- loops over lists and arrays are structural.
--
-- Parameters are what the program does not define: the answers of the allocator, the results of
-- `write` and `read`, `be64toh`, and the callbacks of an entity; for the schedule also what
-- `init_cfg` and `set_from_root` of src/confighelper.c leave in the options of an event.
--
-- Not modelled of the schedule: failing opens and locks of the state file, which only end a check
-- early, `malloc` that fails, names of 24 characters and more, which `add_recording` copies past the
-- end of their memory, and the statistics.
--
-- Not modelled: the configuration files (src/confighelper.c), the streamer threads and set-up
-- (src/streamer.c), sockets and set-up calls, the other writers and network back ends, the rx-ring
-- receiver, the headers of VDIF and Mark5B, what other threads do to the branches while a buffer's thread
-- is between two of its calls, and the tools.
pub mod Base
pub mod BufferSizes
pub mod BufferWorker
pub mod BufferWriter
pub mod FileIndex
pub mod FileRegistry
pub mod HoleFiller
pub mod Resequencer
pub mod ResourceTree
pub mod Scheduler
pub mod SenderTracking
pub mod Timer
pub mod Writers
