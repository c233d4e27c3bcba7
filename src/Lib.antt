-- ===== src/Lib.antt =====
-- The machine problems of the course in this repository: three kernel modules (MP1, MP2, MP3) and
-- a load balancer of two hosts (MP4). The modelled parts and the files that model them:
--
-- MP4/queue.c, the queue of jobs that the worker and the transfer threads of a host share.
-- Mp4/Queue.antt translates `queue_create`, `queue_push`, `queue_pull` and `queue_destroy` on a
-- heap of nodes; the two blocking functions are split at their waiting loops. Mp4/Queue/Cells.antt
-- and Mp4/Queue/Refine.antt relate the heap to a list; Mp4/Queue/Threads.antt interleaves any
-- number of threads, with critical sections, waiting and broadcasts as steps;
-- Mp4/Queue/Invariant.antt, Mp4/Queue/Steps.antt and Mp4/Queue/Safety.antt show what every
-- interleaving keeps. `queue_destroy` runs on fuel, one more than the size.
--
-- MP4/utils.c, the transfer of whole buffers over a socket. Mp4/Socket.antt translates
-- `read_all_from_socket` and `write_all_to_socket`, driven by a list of the kernel's answers.
-- Mp4/Socket/Read.antt and Mp4/Socket/Write.antt hold their theorems. Mp4/Wire.antt translates the
-- messages of one number, and Mp4/Jobs.antt the place of a job in the array, with `create_message`
-- and `storeLocal`; `htonl`, `ntohl` and the numbers in memory are written out for a little-endian
-- host. Mp4/Frames.antt translates the bytes of whole messages: `transfer`, `send_state`, and what
-- the receiving loops of MP4/client.c and MP4/server.c read; Mp4/Frames/State.antt has the
-- contents of a state, Mp4/Frames/RoundTrip.antt is about the way of one message over a
-- connection, Mp4/Frames/Stream.antt about that of all messages of a side, which ties the bytes to
-- the messages of the threads below, and Mp4/Frames/Closed.antt about a connection that the server
-- has closed. Mp4/Throttle.antt translates how long `compute_with_throttle` sleeps; the product
-- with `1 - throttle`, in floating point and cut to whole microseconds, is a parameter.
--
-- MP4/client.c and MP4/server.c with the load balancing of MP4/utils.c. Mp4/Hosts.antt has the
-- variables of a process with `transfer`, `send_state`, `state_handle` and `adaptor`,
-- Mp4/Hosts/Client.antt the threads `run_client`, `write_to_server` and `read_from_server`,
-- Mp4/Hosts/Server.antt the threads `compute_worker`, `write_to_clients` and `process_client`.
-- Each function there is a thread's way from one point where it waits to the next, and
-- Mp4/Hosts/System.antt interleaves them, with the two `state_manager` threads, as steps on one
-- client and one server. Messages are whole there, since each is sent under `transfer_mutex` and
-- read by one thread. A queue is a list of at most 1024 jobs, as Mp4/Queue shows of MP4/queue.c.
-- The entries of a job in `job_array` are one slice, of any type, and `compute` is a parameter, a
-- function of a slice; Mp4/Hosts/Slices.antt translates `compute` on the entries, with the
-- floating-point addition as a parameter, and relates it and `storeLocal` to the slices. The
-- server's computing thread computes a job and queues it in one step. A thread that would read or
-- write behind the array takes no step. After the job -1 the client's reader waits for a slice
-- until the connection is closed, which no step does. Mp4/Hosts/View.antt says where each job is;
-- Mp4/Hosts/Moves.antt, Mp4/Hosts/Quiet.antt and Mp4/Hosts/Steps follow it through each step,
-- Mp4/Hosts/Results.antt and Mp4/Hosts/Results/Counts.antt say what the array holds,
-- Mp4/Hosts/Results/Output.antt, with the loops that fill it and save it, what the file with the
-- result holds, and Mp4/Hosts/Balance.antt what `adaptor` transfers. Mp4/Hosts/Results/Rounds.antt
-- and Mp4/Hosts/Results/Finishes.antt run the threads up to the end, and
-- Mp4/Hosts/Results/Starves.antt and Mp4/Hosts/Results/Untold.antt up to a thread that waits
-- forever. The client keeps its finished jobs as a history besides their number.
-- Mp4/Hosts/Accept.antt has the start of `run_server`, its loop that takes connections, the end of
-- `process_client` and `close_server`, as steps on the descriptors; a signal handler is one step
-- there, between two steps or within the one that takes a connection, and what `accept` and
-- `pthread_create` return are parameters. Mp4/Hosts/Accept/Closing.antt says which connections are
-- closed. The other files start when the client is connected.
--
-- MP2/mp2.c, the rate-monotonic scheduler. Mp2/Task.antt has its task list and static variables,
-- Mp2/Admission.antt `admission_control`, Mp2/Registration.antt `registration`, `de_registration`
-- and `_timer_callback`, Mp2/Dispatcher.antt one round of `thread_fn` with `__set_priority`, and
-- Mp2/Yield.antt `yield_handle`. Mp2/System.antt composes them as steps on one scheduler, and
-- Mp2/Keeps.antt, Mp2/Safety.antt and Mp2/Races.antt are about what these steps keep and what they
-- can break; the theorems on one operation are in its child modules. A structure is its contents
-- with its address, `none` is a kernel oops, and `int` and `unsigned long` wrap at 32 and 64 bits.
-- `find_task_by_pid`, `msecs_to_jiffies` and which Linux tasks exist at a time are parameters: a
-- call on NULL or on a Linux task that does not exist is an oops. Mp2/Proc.antt translates the
-- operations of the file, `mp_read` and `mp_write`, with `mp_init` and `mp_exit`, and
-- Mp2/Userapp.antt what the application MP2/userapp.c writes to the file and reads from it;
-- Mp2/Userapp/Lines.antt and Mp2/Userapp/Handshake.antt put the two together, and
-- Mp2/Userapp/Main.antt has its `main`, with what happens to the scheduler while it is not
-- running, and the calls that the dispatcher makes then, as a parameter; a yield that sleeps ends
-- only if one of these calls wakes the process; Mp2/Userapp/Main/Restores.antt follows its task
-- from the registration to the removal. The texts of numbers and `sscanf` are parameters there,
-- and the loop of `read_status` runs on fuel, one more than the characters of the file.
--
-- MP3/mp3.c and MP3/monitor.c, the profiler of page faults. Mp3/Profiler.antt has the registered
-- processes, the work function `mp_work_func` and the buffer that it fills;
-- Mp3/Profiler/Sample.antt, Mp3/Profiler/Capacity.antt and Mp3/Profiler/Pending.antt are about one
-- sample, the bound of the buffer, and when samples are taken. The kernel's table of processes is
-- part of the state, since `get_cpu_use` of MP3/mp3_given.h resets its counters. Mp3/Mmap.antt
-- translates `dev_mmap`, on fuel for the 128 pages of the buffer and the last test;
-- `vmalloc_to_pfn` and the answers of `remap_pfn_range` are parameters. Mp3/Monitor.antt
-- translates `main` of the monitor, on fuel for as many lines as the buffer has and the last test.
-- Mp3/Monitor/Drained.antt runs it on a buffer without samples, and Mp3/Reports.antt puts the
-- profiler and the monitor together on one buffer.
--
-- MP3/work.c, the workload that is profiled. Mp3/Work.antt translates its `main` behind `atoi`,
-- with `rand_access` and `local_access`; the numbers that `rand` returns and the addresses that
-- `malloc` returns are parameters, and `none` is an `int` that overflows, a division by 0 or an
-- index out of `buffer`. Its loops are structural recursion. Mp3/Work/Accesses.antt follows the
-- accesses, Mp3/Work/Blocks.antt the blocks, and Mp3/Work/Safety.antt puts the two together.
--
-- MP1/mp1.c, the module that reports CPU times. Mp1/Registry.antt translates all its functions,
-- with the table of processes, `jiffies_to_msecs` and the decimal text of a number as parameters;
-- Mp1/Registry/Update.antt and Mp1/Registry/Report.antt are about `bottom_fn` and `mp1_read`.
-- Mp1/Userapp.antt translates `main` and `call_kernel` of the application MP1/userapp.c, with what
-- happens to the module while it computes as a parameter, and Mp1/Userapp/Listed.antt follows its
-- entry on the list.
--
-- The modules called Tests run the definitions and apply the theorems to concrete inputs.
-- Prelude.antt and its children hold Boolean tests, lists, integers and the heap.
--
-- Not modelled: of MP1/userapp.c and MP2/userapp.c the arguments, the time taken and the other
-- printing; of MP3/work.c the printing, `sleep`, and the two commands that write to the proc file;
-- the drafts MP4/queueThread.cpp, MP4/receiveJob.c and MP3/mmap.c, which no build uses; the
-- parsing of the other proc files beyond what it stores; of MP4, how the client connects and
-- closes, `update_throttle`, which reads a number from the terminal, and `getInfo_fromMonitor`,
-- which nothing calls.
pub mod Prelude
pub mod Mp4
pub mod Mp2
pub mod Mp3
pub mod Mp1
