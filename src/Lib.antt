-- ===== src/Lib.antt =====
-- Guage: runtime tables, queues and containers of bootstrap/, the C implementation of the language.
--
-- The program is an interpreter whose values are reference-counted cells (bootstrap/cell.c) and
-- whose actors share tables (bootstrap/actor.c). The primitives of the language call the
-- functions of both. Modelled are the shared tables, each guarded by its own lock in the source
-- and changed here by one step per call, the queues between actors, exit signals and supervisors,
-- containers that the cells offer, source positions, type signatures, and the conversion of names to De Bruijn
-- indices.
--
--   Prelude    numbers, lists, searches in arrays (find, overwrite, remove by moving the last
--              entry), remainders by powers of two, and equality as an interface.
--   Runtime    bootstrap/actor.c, bootstrap/channel.c and bootstrap/scheduler.c.
--     Refs       cell_retain and cell_release as logged operations; cell_equal as an interface,
--                of which only that a cell equals itself is asked.
--     Registry   actor_registry_*: names of processes. The liveness of a process is a function.
--     Timer      timer_*: a tick returns what it sends (actor_send) and releases.
--     Ets        ets_*: named tables. Ets/Tables has the branches of the operations, Ets/Lookup
--                what readers see, Ets/Ownership the references, Ets/Valid the invariant,
--                Ets/Runs whole runs of operations, and Ets/Exhausted slots that are used up.
--     Ring       the queue with sequence numbers of mailboxes, channels and schedulers. A call is
--                a thread's place in the loop, and each atomic access is a step; Ring/Invariant,
--                Ring/Frame, Ring/Owners, Ring/Claims and Ring/Writes follow the steps, Ring/Fifo
--                whole runs, and Ring/Solo, Ring/Moves and Ring/Queue a call that no other
--                thread disturbs, which takes 7 rounds, or 8 with the test of the count.
--     Mailbox    actor_send, actor_receive and mailbox_destroy.
--     Channel    channel_*, with the actors that wait for a channel; Channel/Closed follows a
--                channel that has been closed.
--     Links      actor_link, actor_unlink and actor_add_monitor.
--     Exit       actor_exit_signal, actor_finish, actor_notify_exit and supervisor_*: how the end of
--                an actor spreads. Exit/Children and Exit/Notify have the operations; Exit/Grows says
--                how a later world differs from an earlier one, Exit/Sound the invariant and the
--                measure; Exit/Changes, Exit/Restarts, Exit/Loops, Exit/Listeners and
--                Exit/Supervision follow the steps and the loops, Exit/Spread whole calls,
--                Exit/Respawn the ids after a restart, Exit/Watch links and monitors up to the end of
--                the other, and Exit/Dynamic the dynamic supervisors of bootstrap/primitives.c. The rounds of
--                actor_notify_exit bound how deep its calls nest: each nested call has killed an actor,
--                and a restart is paid from the five of its supervisor, 33 rounds each.
--     GlobalQueue, Qsbr   global_queue_* and qsbr_* of bootstrap/scheduler.c: the overflow queue
--                of the schedulers, and how long a dead actor is kept.
--     App        app_*: applications and their environments.
--     Slots      the array of slots with a count of those in use, over any body. The next id is
--                the two's complement of a 32-bit int, which wraps in the model; signed overflow
--                is undefined in C, so that what rests on unique ids stays below 2 ^ 31.
--     Agent      agent_*: slots whose body is the state cell, or NULL.
--     Stage      stage_*: slots with a handler, a state and subscribers.
--     Flow       flow_* and flow_registry_*: slots with a source and steps, and the names of
--                flows, which are kept as those of processes are.
--   Language   bootstrap/span.h: Span has the 8-byte spans. bootstrap/span.c: Source the files, the
--              tables of lines and the searches; Source/Lines, Source/Walk, Source/Files,
--              Source/Valid and Source/Resolve lead to positions, Source/Texts and Source/LineText to
--              the text of a line, Source/Interned has the spans kept in the map. A search has as many rounds as entries, which is more than its
--              halving needs. bootstrap/type.c: Signature has the parser and the printer of types;
--              each nested call of the parser has a byte less, so that as many rounds as bytes, and one,
--              are enough. bootstrap/pattern_check.c: PatternCheck has the check of match clauses.
--              bootstrap/debruijn.c: Cells has the cells that it tells apart, DeBruijn the
--                conversion, DeBruijn/Terms the terms and their textbook translation.
--   Container  bootstrap/cell.c.
--     Memory     memcpy between buffers, and the loop that rounds a capacity up to a power of
--                two. 32 rounds are enough for every request up to 2 ^ 31; beyond that the loop
--                of the source does not end.
--     Deque      cell_deque_*: a ring with two 32-bit counters that wrap. Deque/Refines says when
--                a deque holds a list, Deque/Grow follows the doubling of the buffer,
--                Deque/Laws has what is added and Deque/Pops what is read and taken.
--     Vector     cell_vector_*: slots that are filled from the front, four of them inline, and
--                capacities that grow by half. As many rounds as cells are requested are enough
--                to find the first capacity.
--     Buffer     cell_buffer_*: blocks of bytes that double. A failed assert is `none`.
--     Heap       cell_heap_* and heap4_*: keys are of any type with a rank. A sift ends within as
--                many rounds as there are entries, up to 2 ^ 30 of them. Heap/Order says what
--                the order is, Heap/Up and Heap/Down follow the loops, Heap/Laws has pushes and
--                pops, Heap/Sorted the list and the union.
--
-- Names of actors, tables and applications are of any type with a decidable equality, as strcmp
-- gives it. Arrays that are filled up to a counter are lists; NULL is `none`. Operations return
-- their result, the new state, and the retains and releases in program order; the containers
-- return no log, since a push always retains its cell and a pop always hands its reference over.
-- Not modelled: locks, the weak orders of memory, memory allocation and its failure, cells other
-- than expressions, the process dictionary, hash tables and trees, the evaluator, the rest of
-- the scheduler, the code generators, the line editor, and the parts of actor.c and cell.c that
-- are not named here.
pub mod Prelude
pub mod Runtime
pub mod Container
pub mod Language
