-- ===== src/Lib.antt =====
-- A model of the core of NebulaSD, a disaggregated speculative decoding engine: the numeric
-- identities, the shared arenas, the rings between the engine and its workers, the HostKV
-- allocator and its copy plans, the work a worker is sent, and the engine's admission budget.
--
-- Parts, with the files of the repository below nebulasd/src/nebulasd:
--   Common     lists, results, byte buffers, little-endian words, association lists, sorting.
--   Core       core/ids.py (Core/Ids), core/handles.py (Core/Handles), core/draft_contracts.py
--              (Core/DraftContracts).
--   Kv         kv/arena.py (Kv/Arena), kv/host_allocator.py (Kv/HostAllocator) and the chunking
--              of kv/transfer.py (Kv/Transfer). The allocator hands out extents of the arena;
--              reads and writes go through extents and leases. kv/shared_pins.py (Kv/SharedPins) is
--              a schedule of the loads and swaps of several workers.
--   Ipc        ipc/command_arena.py (Ipc/CommandArena), ipc/command_ring.py (Ipc/CommandRing) and
--              ipc/state_change_ring.py (Ipc/StateChangeRing). Both rings stand on the cells of
--              Ipc/Ring; consuming a command reads its payload from the arena and releases it.
--              ipc/protocol.py is in Ipc/Protocol: the rows and commands with their tests, the
--              worker's command cache (Ipc/Protocol/Cache) and the byte format of the commands
--              (Ipc/Protocol/Wire). ipc/draft_protocol.py is in Ipc/DraftProtocol, its byte
--              formats and that of a Draft snapshot with the others in Ipc/Protocol/Wire. The cache applies what the ring
--              delivers; it keeps a Draft contract beside its own batches.
--   Data       data/token_arena.py and the token part of data/shared_arenas.py (Data/TokenArena),
--              data/proposal_arena.py (Data/ProposalArena).
--   Workers    workers/work.py (Workers/Work, its bytes with the fields of Ipc/Protocol/Wire),
--              workers/banks.py (Workers/Banks) and
--              workers/completion.py (Workers/Completion). Banks give rows and blocks to work.
--   Scheduler  scheduler/batching.py (Scheduler/Batching).
--   Engine     engine/admission.py (Engine/Admission).
--
-- A class is a record of its fields, a method a function from the state to a result with the
-- new state; a Python exception is an `err` that names its class. Where a method changes the
-- state before it raises, the new state stands beside the result. Methods that run under one
-- lock are one step. Byte buffers are lists of natural numbers, and a number of a fixed width
-- keeps the tests and the modulus of its `UIntDomain`. Loops are recursion on the list or the
-- count they run over, so no fuel is needed. Tests for Python types and for negative numbers
-- have no counterpart.
--
-- Not modelled: creating and mapping shared memory, the native library, threads and DMA, GPU
-- execution, the shared table, the work ledger, the schedulers' rankings by floating-point
-- estimates, observability, and the swiftLLM engine.
pub mod Common
pub mod Core
pub mod Kv
pub mod Ipc
pub mod Data
pub mod Workers
pub mod Scheduler
pub mod Engine
