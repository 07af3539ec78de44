-- ===== src/Lib.antt =====
-- ovni records the events of a parallel program and emulates them. The runtime library (src/rt/ovni.c)
-- packs events into the buffer of a thread and writes the buffer to the stream file of the thread. The
-- emulator (src/emu) reads the streams, and follows the state of threads, CPUs and tasks in channels,
-- whose values it writes to Paraver traces.
--
-- The parts, and the files that model them:
--
--   Prelude   shared names: Boolean tests, lists over the native numbers, integers, and results, which
--             stand for functions that return 0 or -1.
--   Vendor    the interfaces to src/include/uthash.h (HashTable) and src/include/utlist.h
--             (LinkedList), with their laws as hypotheses, and a memory from addresses to objects.
--   Value     src/emu/value.h.
--   Chan      src/emu/chan.c and chan.h: chan_set, chan_push, chan_pop, chan_dirty, chan_read and
--             chan_flush. The dirty callback is a parameter that works on a state of its owner.
--             Chan/Protocol has the order of writes, callbacks and flushes, Chan/Contents what a
--             channel holds.
--   Rt        src/rt/ovni.c. Rt/Bytes: integers in memory. Rt/Event: struct ovni_ev, ovni_payload_add,
--             ovni_ev_size. Rt/Buffer: the buffer of a thread, ovni_ev_emit, ovni_ev_jumbo_emit,
--             ovni_flush, ovni_thread_init and ovni_thread_free; below it Flush, Emit, Jumbo and
--             Nested.
--   Stream    src/emu/stream.c: load_obs, stream_step and the clocks. Stream/Items, Reading and
--             Roundtrip: the bytes of events and how they are read. Stream/Emitted and ThreadFile join
--             the runtime and the reader. Stream/Loops: a malformed event.
--   Body      src/emu/body.c: body_create, body_execute, body_pause, body_resume and body_end, on a
--             memory of bodies and the stacks of the threads. Body/Wellformed, Invariant, Start,
--             Execute, End and Create: the invariant. Body/Transitions: the state machine.
--   Task      src/emu/task.c: the types, the tasks and the operations on the bodies of a task, which
--             call those of Body. Task/Invariant and Task/Runs: any run of operations.
--   Thread    src/emu/thread.c: thread_set_state, thread_set_cpu, thread_unset_cpu, thread_migrate_cpu
--             and the selectors of multiplexers, on channels of Chan.
--   Cpu       src/emu/cpu.c: cpu_update (Cpu/Shown), and cpu_add_thread, cpu_remove_thread and
--             cpu_migrate_thread (Cpu/Threads has the list of the threads, Cpu/Migration two CPUs,
--             Cpu/Alike and Numbers what the updates depend on and keep).
--   Emu       src/emu/emu.h, and the searches of loom.c and proc.c. Emu/Event: src/emu/emu_ev.c.
--   Ovni      src/emu/ovni: Ovni/Handlers the thread and affinity events of event.c, Ovni/Data the
--             bursts, the flushes and mark_event of mark.c, Ovni/Event model_ovni_event.
--             Ovni/Emulation takes event after event as emu_step of src/emu/emu.c does. Ovni/Places,
--             Shown, Moves, Leaving, Invariant, Runs and Run lead to the order of threads and CPUs;
--             Ovni/Bursts and Remote are about single events.
--   Models    the event.c files below src/emu of the models that push and pop states: Models/Tampi,
--             Mpi, Nodes, Openmp, Nosv and Nanos6 have the tables, Models simple, model_event and the
--             handlers of xtasks and kernel. Models/Nosv/Tasks and Nanos6/Tasks: the task and type
--             events; Nosv/Writes, Nosv/Shown and Nanos6/Shown: what they show. Models/Openmp/Tasks:
--             the tasks, types and worksharings of openmp; Labels: their channels. Models/Strings: the
--             label of a type. Models/Pairs, Stacks and Begin: events that begin and end a state.
--             Models/Kernel: a context switch and the ovni model.
--   Sort      src/emu/sort.c: Sort/Order and Replace about sort_replace, Sort/Input about
--             sort_cb_input.
--   Bay       src/emu/bay.c: the registered channels, the dirty list and the callbacks. Bay/Calls and
--             Dirty: writes to the channels. Bay/Walk: propagate_chan. Bay/Rounds and Propagation:
--             bay_propagate.
--   Mux       src/emu/mux.c on the bay: Mux/Choice, Switch and Follow are about cb_select.
--
-- A C function that fails returns an error and no state, since every caller gives up. The size of a
-- buffer, an event or an index is a natural number; the cast to int of ovni_payload_size, the cast to
-- size_t and the 64-bit clocks are written out; a sum or difference of clocks in src/emu/stream.c
-- wraps around, and the theorems on the clocks that are shown ask that none does. Pointers are
-- addresses of a memory, or indices into a buffer. malloc and calloc are taken to succeed. A read out
-- of an array is an error of its own. The bay finds a channel by a number that stands for its name. In
-- Ovni/Emulation the bay is a state of which only its callbacks are known, and the flushes of the
-- dirty channels of threads and CPUs are written out.
--
-- Fuel: write_evbuf takes one more than the bytes of the buffer, which is enough since write takes at
-- least one byte (IsOs). ovni_ev_add and add_flush_events call one another; a depth of two is enough,
-- since a pair of flush events never needs more than one further flush.
--
-- The loops of bay_propagate over the dirty list take more rounds than there are channels, since each
-- channel is in the list once. The loop over the callbacks of a channel follows the pointers of the
-- live list, which the callbacks may change. It takes a number of steps, and can be endless in the
-- source, where callbacks of one channel enable each other again and again; a measure that falls with
-- each call is asked of the callbacks.
--
-- Not modelled: the hardware counters of nosv, the statistics that pre_burst and pre_flush print; the
-- metadata and the attributes (parson), directories and files but the bytes that write receives, names
-- and messages, the Paraver output, and the parts of the emulator that are not named above.
pub mod Prelude
pub mod Value
pub mod Chan
pub mod Rt
pub mod Vendor
pub mod Body
pub mod Task
pub mod Thread
pub mod Cpu
pub mod Emu
pub mod Ovni
pub mod Sort
pub mod Bay
pub mod Mux
pub mod Models
pub mod Stream
