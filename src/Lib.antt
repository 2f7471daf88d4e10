-- ===== src/Lib.antt =====
-- The message-passing library libibtl: the core of its messaging engine, with the queue, the
-- datatypes and the process manager that the engine stands on.
--
-- The parts and how they meet:
--
-- - src/fdmi_queue.c, include/fdmi_queue.h: a linked list with a mutex and one iterator. Every other
--   part keeps its state in such queues. Queue models it node by node on the heap of Store: a read
--   or a free of a node that is not there is a fault, and a mutex that is held blocks. Queue/Holds
--   says what a queue holds, and the files beside it what each function does with it.
-- - src/fdmi_datatype.c and the copy loops of src/fdmi.c: Datatype. Memory is a function from
--   addresses to bytes.
-- - src/fdmi_proc_man.c: ProcMan has the communicators and their rank maps, ProcMan/Spare the states
--   of the physical ranks, the election of standby ranks, and the failure table of src/fdmi.c that
--   drives it (fdmi_update_ft_msg, fdmi_need_update_ft_msg, fdmi_can_join). An index outside an array
--   is a result of `none`.
-- - src/fdmi_hashtable.c: Hashtable, an array of lists of nodes, in Hashtable/Refinement what its
--   functions do on an abstract map, and in Hashtable/Linked a read and a removal on a linked queue.
-- - src/fdmi.c: Engine has the structures and the matching (fdmi_is_matched_query,
--   fdmi_is_matched_query2 and the two searches), Engine/Queries the free list (fdmi_create_query,
--   fdmi_destroy_query) and the registration cache (fdmi_reg_mr), Engine/Post what is handed to the
--   network card, Engine/Recv and Engine/Send the handlers of completions, the two posting functions
--   and the flush, and Engine/Api the calls of the applications. The global variables are the record
--   Engine; a step is a function from an engine to an optional one, where `none` ends the process.
--   Here a queue is the list of its items, and Engine/Linked joins the lists to the linked queues of
--   Queue, for the steps that search, take from, add to and flush the two queues of messages and receives;
--   Queue/Search and Queue/Filter have the loops that go through a linked queue. Engine/Arrival has
--   what holds of the queues over any sequence of calls and completions. Engine/Events has the
--   handler of connection events, on the table of ProcMan/Itop, and Engine/Failure the calls of an
--   application on a failure. Engine/Locks has the mutexes of the queues, in the order in which each
--   function takes and releases them, and the interleavings of threads on them; Engine/Transfer follows
--   a message from one engine to another.
-- - examples/ibio_common.h, ibio_common.c, ibio_client.c, ibio_server.c: Ibio, remote files on top of
--   the library. Ibio/Tag has the tags of the messages, Ibio/Chunks the loop that cuts a transfer into
--   chunks, Ibio/Name and Ibio/Client the calls of an application as the communication calls that they
--   make, Ibio/Server the handlers of the server as the traces of their calls, Ibio/Serve the switch that
--   picks a handler, Ibio/Dump the loop of dump_ckpt and simple_write. Ibio/Session has the write in
--   chunks: the main thread, the threads that it starts, and their interleavings as a step relation, on
--   one entry of the table, with the messages in the order in which they are sent. Ibio/Reading has a
--   read as it goes from the file through the server's cache to the buffer of the client.
--
-- Functions keep the names of the source without their prefix (fdmi_queue_enq is Queue's `enq`,
-- fdmi_verbs_irecv is `irecv`). Base has the shared names and lemmas.
--
-- Bounds and fuel: each loop over a queue has as many rounds as the queue has nodes, and one more
-- for the last call of the iterator, which returns NULL. The search of
-- fdmi_get_next_prank has `fdmi_psize` rounds, as the source has. The 64-bit rank and tag of a message
-- and its 32-bit sizes wrap around as the source has it; Base/Int converts between `int` and 64 bits.
--
-- The verbs library, `malloc` and the registration of memory are the record Platform, a parameter of
-- the engine's functions. It says whether ibv_post_send and ibv_post_recv take a piece of work, whether
-- ibv_reg_mr succeeds within the tries of fdmi_reg_mr, and whether fdmi_create_qp makes a queue pair;
-- where one does not, fdmi_err ends the process, and the step yields `none`. The record Accepts of
-- Engine/Post is the hypothesis that all of what is posted is taken and each registration succeeds.
-- Completions are given: Ready of Engine/Arrival/Sound/Ready says of which queries they are.
--
-- The network between two engines is a hypothesis, the record Delivered of Engine/Transfer/Bytes: the
-- query that completes on the other side has the fields of the message that was posted, and the bytes
-- that the sender had at its address.
--
-- Of the operating system, a write() of Ibio/Session and Ibio/Dump is a parameter, open() and close()
-- are their results, and a mutex runs the threads of a file one after another. A read() of Ibio/Reading
-- takes as many bytes as it asks for, as far as the file goes. The server never seeks, so that reads and
-- writes begin at whatever offset the descriptor has, a parameter of `begin` and `serve_events`.
--
-- Not modelled: fdmi_hashtable_destroy, the creation of domains and channels in src/fdmi.c; the
-- functions of src/fdmi_proc_man.c on the global maps rmap_vtop and rmap_ptov, which are never
-- allocated; the file transfer of examples/ibio_client.c, which is commented out; get_write_arg and
-- compress_write of examples/ibio_server.c, which call code that is not in the repository; logging,
-- environment variables and process start, which are input and output; pgz and yarn, which are
-- copies of other programs.
pub mod Base
pub mod Store
pub mod Queue
pub mod Datatype
pub mod ProcMan
pub mod Engine
pub mod Hashtable
pub mod Ibio
pub mod Tests
