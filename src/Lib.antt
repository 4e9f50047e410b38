-- ===== src/Lib.antt =====
-- A run-time debugging library: processes share a mapped file that holds groups of logs, profiler
-- data, traces and event counters; each process has a handler through which it writes to them and
-- extracts them. This development models the classes behind the API as state-passing functions over
-- `Result`, whose errors are the faults of the C++ code: a failed ASSERT, an access out of bounds,
-- a division by 0, a string without a NUL.
--
-- The parts, bottom up, with the files of the repository that they model:
--   Base       tests, lists and arrays over native numbers, wrap-around operators, `Result`
--   CString    char arrays and the functions of string.h and stdio.h that the code calls
--   Queue      what a FIFO promises: a bounded queue, and the one that drops its oldest item
--   MemArea    rt_debug/rt_debug_cpp/src/i_cpp_sys_api.h: CMemArea and StaticMemArea, with
--              PushFIFO_MT as push_mt, PopFIFO_MT as pop_mt, AllocPoolChunk as alloc_pool_chunk
--              Threads has both as single accesses of any number of threads
--   Clock      rt_debug/rt_debug_cpp/src/rt_debug_types.h: DiffBetweenTimespec
--   Registry   the search by name that the tables share, and the list of names they refine
--   Counters   rt_debug_types.h: CRT_counter_grp, AllocCnt as alloc_cnt, Get_counter as get_counter
--   Tracer     rt_debug_types.h and rt_debug_types.cc beside it: CTraceGroup, AddTrace as add_trace,
--              AddTraceFormat as add_trace_format, GetTraceEntry as get_trace_entry
--   Logger     rt_debug_types.h: CLog_group, AddLog as add_log, GetLogEntry as get_log_entry
--   Profile    rt_debug_types.h and rt_debug/api/rt_debug_defs.h: CProfileCnt over ProfilePoint
--   ProfilerGroup  rt_debug_types.h: CProfilerGroup, RegistryProfileEntry, GetProfInfo, AddProfData
--   DebugRt    rt_debug_types.h: CGroupDebugRT and CDebugRT, the shared memory
--   Handler    rt_debug/rt_debug_cpp/src/rt_debug_main.h: CDebugHandler, a process's calls. Merge has
--              RTDBG_GetLog and RTDBG_GetTraceEntry (the latter of rt_debug_main.cc beside it),
--              Attach has RTDBG_ActivateDebugDataCollection and RTDBG_AttachDebugData (rt_debug_main.cc)
--              and RTDBG_Close, Extract and Drain have RTDBG_ExtractDebugData, and Measure the calls on
--              profiler points, which Point wraps for C++ (CProfilePoint of
--              rt_debug/rt_debug_cpp/api/rt_debug_cpp_defs.h). Api has the extern "C" functions of
--              rt_debug_main.cc. Queues, Updates, Scan and LogMerge view the logs as one queue for each
--              group, and Traces does so for the rings of traces. Extract's Counts, Profilers, Frames and
--              Report take the written report apart. Memory has the memories that calls lead to
--   Osa        rt_debug/rt_debug_cpp/src/i_osa_api.h and i_os_common.h beside it: the wrappers of
--              pthread: attributes, threads, mutexes, spinlocks, and priorities
--   Adapt      rt_debug/rt_debug_c/rt_adapt.c and rt_debug/api/rt_debug_adap_api.h: the C adapter,
--              RT_debug_init as rt_debug_init, over the lists of an application; Macros has RTDBG_SAVE_*
--   Tests      small states on which the theorems are run
-- A point hands its data to a FIFO of its group's ProfilerGroup; Logger and ProfilerGroup use an area
-- as a FIFO, Tracer as a pool whose entries are overwritten in turn; DebugRt holds the groups, and
-- Handler finds a group, calls one of its parts and writes it back.
--
-- Machine integers are natural numbers below their bound with the wrap-around written out; signed
-- values are bit patterns. Pointers into an array are indices; the addresses that an area keeps are
-- numbers, compared with the place of the buffer in the calling process. The readings of the clock
-- and of the cycle counter, the thread's number and printf at an application's format are arguments.
-- Calls are atomic, as a lock is held within one call only; MemArea.Threads takes PushFIFO_MT and
-- PopFIFO_MT apart into accesses, which take place one after another.
-- Fuel: the loops that pop until a push succeeds get 2 rounds, and the loop of GetProfInfo as many
-- rounds as its FIFO has chunks, which is more than the items that it can hold. The loops of
-- RTDBG_ExtractDebugData get any fuel; more than there are logs and more than there are traces lets
-- both end.
-- The operating system's calls on files are the fields of a record Os over a state that is not
-- specified; a mapping is the CDebugRT that stands in it, with fewer groups where the file is too short
-- for all of them, so that an access behind the last one is out of bounds.
-- Not modelled: the type names of common_typedef.h and prototypes without a body; umask, perror and
-- the printing to the terminal; what a sleep takes of time; the examples.
pub mod Base
pub mod CString
pub mod Queue
pub mod Registry
pub mod MemArea
pub mod Clock
pub mod Counters
pub mod Tracer
pub mod Logger
pub mod Profile
pub mod ProfilerGroup
pub mod DebugRt
pub mod Handler
pub mod Osa
pub mod Adapt
pub mod Tests
