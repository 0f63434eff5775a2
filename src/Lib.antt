-- ===== src/Lib.antt =====
-- FFOS: a C library of one interface to the operating systems, by headers with inline functions.
-- A model of the parts that have logic of their own.
--
-- Parts and files:
-- - Base: Boolean tests, lists, texts as lists of byte values, machine integers.
-- - Ffbase: what the code takes from the library ffbase, which is not in this repository: the
--   searches of strings (`StrLib`) as a record of functions and their documented laws.
--   Ffbase/Reference has functions that satisfy them.
-- - Path (FFOS/path.h): ffpath_slash, ffpath_abs, ffpath_splitpath_win, ffpath_splitpath_unix,
--   ffpath_splitname, and in Path/Normalize ffpath_normalize, of which `config` is the preparation of
--   the flags, `round` the body of the loop with its parts `entry`, `parent` and `emit`. The buffer is
--   the list of the bytes written so far. The loop runs on fuel: the length of the input,
--   enough since each round takes at least one byte off.
-- - TimerQueue (FFOS/timerqueue.h): the nodes are a store from addresses, the queue a tree of
--   addresses; times are 32-bit numbers that wrap. The red-black tree is a parameter (`RbLib`) of which
--   only the order of the nodes is known. `process_loop` is fftimerqueue_process from a given count, on
--   fuel: one round for each due timer and one more are enough, if the timer functions leave the queue
--   alone.
-- - Kcall (FFOS/kcall.h): the calls are a store from addresses; the union's overlapping members are
--   words. The ring queues (`RingLib`) and the operating system (`Sys`) are parameters. The two loops
--   run on fuel.
-- - Socket (FFOS/socket.h, FFOS/kqtask.h): the asynchronous functions as the states of a task, for
--   Linux in Unix and for Windows in Windows; every system call is a parameter that may answer
--   anything. Address has the addresses, of which the byte order (ffbase) is a parameter, Iovec the
--   vectors, Create what makes sockets on Windows.
-- - Environ (FFOS/environ.h, the UNIX part): _ffsvar_next, _ffenv_val, ffenv_expand into a buffer of the
--   caller, ffenv_locale; Lookup says what a value of a name is. The fuel of the expansion is the
--   length of the text: a round takes at least one byte off.
-- - Time (FFOS/time.h): the conversions, on bit patterns of 64 and 32 bits.
-- - Retry: the loop that repeats an interrupted call, used by Semaphore and Process. It runs on fuel:
--   one round more than there are interruptions is enough.
-- - Semaphore (FFOS/semaphore.h): the Linux functions and the wait of macOS.
-- - Dir (FFOS/dir.h): ffdir_make_all of both systems, ffdir_make_path, _ffdir_entry_fullpath.
-- - Dirscan (FFOS/dirscan.h, the UNIX part): the order of file names, and the scanner. The sort of
--   ffbase and its wildcards are parameters, opendir and readdir the list of names they give.
-- - Perf (FFOS/perf.h, the UNIX part): _ffps_perf, ffps_perf_diff, ffps_perf_add. The arithmetic of times
--   is ffbase's and a parameter.
-- - Std (FFOS/std.h): in Unix and Console the two ffstd_keyread, ffstd_keyparse and ffstd_attr, in Transfer
--   ffstdin_read and _ffstd_write on Windows. A result is a 32-bit word. A mode is a number whose bits
--   are tested and set by division. The loop of the console's ffstd_keyread runs on fuel: one round
--   for each record that is held and one more, until there is a key or the console is asked.
-- - Process (FFOS/process.h): CmdLine has _ffargv_to_cmdln, Child ffps_exec_info on UNIX, Inherit the same on
--   Windows, Wait both ffps_wait, Filename the names of the program's file and of its directory. The
--   system calls and the conversions of ffbase are parameters.
-- - Winreg (FFOS/winreg.h): Open has ffwinreg_open, Value ffwinreg_read and ffwinreg_write, Enum the listing of
--   keys. A buffer is known by its size. The loops run on fuel: two rounds are enough.
-- - File (FFOS/file.h): Open has fffile_open on Windows, Change removing, renaming and linking, Position
--   fffile_trunc, fffile_readat and fffile_writeat on Windows, Unix the functions of Linux that are
--   more than one call; Whole, over these, has fffile_readwhole and fffile_writewhole.
-- - Netconf (FFOS/netconf.h): _ffnetconf_dns of both systems. The block of memory is its pointers, as
--   offsets, and its bytes. The loop over the lines runs on the length of the text as fuel.
-- - Netlink (FFOS/netlink.h): ffnetlink_create, ffnetlink_send and ffnetlink_recv.
-- - Pipe (FFOS/pipe.h): Unix has named pipes on Linux, Windows accepting a client, reading, and
--   ffpipe_create2. The system calls are parameters, with the number of open descriptors.
-- - Timer (FFOS/timer.h): fftimer_start and fftimer_stop on Linux and BSD, creating and closing on BSD,
--   and in Timer.Thread the main thread and the timer thread of Windows as interleaved steps, with
--   _fftimer_cmd and _fftimer_thread; failures of SetEvent and of waits are steps as well.
-- - Queue (FFOS/queue.h): attaching a descriptor, the user's event and the flags of an event on Linux and
--   BSD; ffkq_wait and ffkq_post on Windows. A loop of reads runs on fuel; two rounds are enough.
-- - Signal (FFOS/signal.h): ffsig_subscribe on UNIX and Windows with the handlers of Windows, and in
--   Signal.Descriptor, over Queue, the descriptor of signals on Linux; Kqueue has the mask of BSD, with
--   33 rounds as the fuel of its loop, enough for 32 bits.
-- - Filemon (FFOS/filemon.h): fffilemon_next on Linux and Windows, the watches of Windows and their
--   asynchronous read. The records of the system are bytes, as inotify
--   and ReadDirectoryChangesW lay them out; a round for each record is enough fuel.
-- In each part Examples holds runs on concrete inputs and the theorems at such inputs; so do WholeExamples
-- of File, Started of Socket and Highest of Signal.
--
-- Not modelled: the functions that only call the system and hand its answer on (information about
-- files, threads, volumes, dynamic libraries, options of sockets, names of hosts), the walk over netlink
-- messages, creating and closing a timer on Windows, and the tests.
pub mod Base
pub mod Dir
pub mod Dirscan
pub mod Environ
pub mod Ffbase
pub mod File
pub mod Filemon
pub mod Kcall
pub mod Netconf
pub mod Netlink
pub mod Path
pub mod Perf
pub mod Pipe
pub mod Process
pub mod Queue
pub mod Retry
pub mod Semaphore
pub mod Signal
pub mod Socket
pub mod Std
pub mod Time
pub mod Timer
pub mod TimerQueue
pub mod Winreg
