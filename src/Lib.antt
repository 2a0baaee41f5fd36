-- ===== src/Lib.antt =====
-- A verification library for the HeROS kernel emulation of this repository and for the leaf
-- libraries rebuilt beside it.
--
-- The program. emulator/heros_rtos.c emulates the HeROS kernel for the processes of a TNC 640
-- control: a control segment (struct ctl) that all processes map holds fixed tables of tasks,
-- semaphores, queues and regions, and each kernel call reads and writes it under a lock or by
-- atomic accesses. recomp/ holds small libraries of the control rebuilt from their binaries.
--
-- The model. A kernel call is a function from the segment, the calling thread and the decided
-- environment variables to its answer and the segment after it. The lock is left out: each call
-- is one critical section, and where a call is several (a wait, a compare-exchange) the model has
-- one turn of its loop at a time. A table is a list of slots, -1 of a scan is `none`, a word is a
-- number below 2^32 with its wrap-around written out, an int is its bit pattern, a name is the
-- list of its bytes before the NUL, cut to what its array holds.
--
-- The files.
--   Base            numbers, tests, lists with native indices, bits of words, little-endian words.
--   Rtos.State      struct task, sem, qmsg, queue, region, ctl; ctl_init; the environment knobs.
--   Rtos.Table      the table scans; Rtos.Table.Ids the tables whose ids come from a counter.
--   Rtos.Names      strncmp and strncpy on names, canon_pname, q_basename, q_is_probe_name.
--   Rtos.Tasks      task_slot, task_self, task_by_name, proc_by_name; laws in Tasks.Registry.
--   Rtos.Events     ev_send and the loop of ev_receive; laws in Events.Delivery.
--   Rtos.Rendezvous the calls 0x00 T_create and 0x02 T_start; laws in Handshake and Handover.
--   Rtos.Signals    as_kick, as_send, as_mask_op, as_read; laws in Signals.Laws.
--   Rtos.Semaphores sem_make, sem_ident, sem_request, sem_release; the barrier in
--                   Semaphores.Laws; Semaphores.Threads has the requests and releases of several
--                   threads as interleaved steps, Threads.Wakeup what holds in all schedules.
--   Rtos.Queues     q_create and q_delete; Queues.Ring the message ring, Queues.Ident q_ident,
--                   Queues.Send q_send with its routing, Queues.Read q_read. Laws: Queues.Fifo
--                   (the ring), Channel (send and read), Notify (events), Naming and Registry
--                   (names, ids), Routing (addresses), Serials (window-manager events).
--   Rtos.Regions    reg_ident.
--   Rtos.Acks       the replies that the send call gives for absent peers: inject_connect_ack,
--                   inject_forget_ack and the others; Acks.Request what they read of a request,
--                   Config, Event and Peer the handlers; laws in Dedup, Clients, Reconnect and
--                   Bounds.
--   Rtos.Calls      the calls that the switch handles itself: T_ident, T_name, P_ident, P_name,
--                   Sys_getenv, Tm_wkafter, Tm_evafter; laws in Calls.Fits and Calls.Peers.
--   Rtos.Dispatch   the switch of syscall: Outcome what becomes of a call, Handlers its cases,
--                   Switch the whole of it; laws in Deleted and Pipeline.
--   Rtos.Evdev      the bridge from event words to /dev/events pipes: evdev_reconcile, the watcher,
--                   heros_evdev_register and heros_evdev_setmask; laws in Evdev.Pipes and, over
--                   runs, in Evdev.Runs.
--   Rtos.Shape      the sizes that the arrays of struct ctl bound, and, by operation (Kernel, Semaphores,
--                   Queues, Messages, Acks, Calls, Switch), that they are kept; whole runs in Runs.
--   Rtos.Tests      concrete segments, and the theorems at them.
--   Gmsg            the gm_ writers and the messages built from them; Gmsg.Parse reads them back.
--   Plc             recomp/plccond and recomp/plcmap: Cond, Map, Width.
--   Tools           recomp/wznorm: the tool-type codes.
--   Hdhinput        recomp/libhdhinput_rebuilt.c: the checks of numeric input.
--   Herosapi        emulator/herosapi_shim.c: the opens and ioctl of the faked devices, over a kernel
--                   that answers the system calls; Herosapi.Waits select and ppoll, Herosapi.Spawn
--                   p_create and the faked mounts; laws in Devices and Waits, whole runs in Runs.
--   Plcbin          recomp/plcbin: PLCBin_Open, ReadBinCode, ReadInfo and ReadSPLCInfo; a client's
--                   loop over the code section in Plcbin.Whole.
--   Errplib         recomp/errplib: the error classes and the facility table.
--   Productid       recomp/productid: the product predicates.
--   Dintabs         recomp/dintabs: the tables in Reliefs and Diameters, the lookups; the rows that
--                   the scans find in Scans, the nominal diameters in Ascents.
--   Dmathe          recomp/dmathe: angles, intervals, segments and arcs; where the angles lie in
--                   Dmathe.Angles.
--   Geolib          recomp/geolib: distances, angles, and when two contour elements are the same;
--                   laws in Elements, the loops of oeffnungswinkel in Unwrap.
--   Geometri        recomp/geometri: the encodings of a coordinate; Geometri.Classify
--                   recomp/geometri2, and that the two agree.
--   Fraescyc        recomp/fraescyc: the accessors of a milling cycle.
--   Gewcyc          recomp/gewcyc: the accessors of a thread cycle.
--   Bohrcyc         recomp/bohrcyc, recomp/bohrcyc_fp, recomp/anfahr and recomp/cyckkorr.
--   Metaval         recomp/metaval, recomp/drehcyc and recomp/aequi: accessors and predicates.
--   Xmlhash         recomp/xmlhash and recomp/file: the key hash and the file tests.
--   Dkomp           recomp/dkomp: the list navigators, over a heap; a client's loops over a list in
--                   Walk and Traverse.
--   Gtfind          recomp/gtlib2: the element classifiers.
--   Gtlib           recomp/gtlib: the leaf classifiers; Gtlib.Tables by the lists of their codes.
--
-- How the parts interact. The switch hands the words of a parameter block to the operation of the
-- call, and behind a send to the handlers of Rtos.Acks, which send in their turn. A call starts at
-- task_self. A send stores into the ring of the queue that routing chooses, records the sender's
-- request family in its task entry, and raises the queue's notify bits in the owner's event word by
-- ev_send, which pokes the owner's pipe where one is registered; a read raises the bits again while
-- messages are left. T_create wakes the parent through ev_send, or through the orphan token that the
-- loop of ev_receive takes. The switch and the queues stand on the ev_send of Rtos.Events;
-- Rtos.Evdev adds the pipes to it, and Herosapi is where a process opens one and sets its mask.
--
-- Bounds. The sizes of the tables, MAXTASK to MAXREG, are the lengths of the lists, and only
-- Shape.Runs depends on them. The ring has QSLOTS = 12 slots and a message at most QMSGCAP = 20480 bytes. A
-- theorem on a counter that must not wrap says so in its hypotheses. NumberOfCharacters's loop is
-- on fuel 10, one turn for each decimal digit of a 32-bit number. The client's loops of Plcbin.Whole
-- and Dkomp.Traverse and the loops of oeffnungswinkel are on fuel, and the theorems say how much is enough.
--
-- Not modelled: the replay, the INJECT_FM posters and the hardware-server stub, which environment
-- variables turn on; tracing and crash reports; the threads of the timers and of the window
-- manager's activation; reg_attach's mappings; the field getters and setters of the other libraries
-- under recomp/; the preload fixes, scripts and Python tools. A null message pointer of q_send and a
-- null buffer of q_read are left out, and the environment is fixed over a run. The lists of Rtos.Acks
-- are static arrays of each process; the runs of Shape.Runs hand one copy through the calls of all
-- processes.
pub mod Base
pub mod Rtos
pub mod Gmsg
pub mod Plc
pub mod Tools
pub mod Hdhinput
pub mod Herosapi
pub mod Plcbin
pub mod Errplib
pub mod Productid
pub mod Gtfind
pub mod Gtlib
pub mod Dkomp
pub mod Dintabs
pub mod Dmathe
pub mod Geolib
pub mod Geometri
pub mod Fraescyc
pub mod Gewcyc
pub mod Bohrcyc
pub mod Xmlhash
pub mod Metaval
