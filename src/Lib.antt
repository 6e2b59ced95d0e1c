-- ===== src/Lib.antt =====
-- Replayor replays the blocks of an Ethereum layer 2 chain against an execution client through the
-- engine API and measures it. This library models its benchmark, what it records of a block, its
-- recorders, its configuration, its two strategies, its service and how `Main` puts them together,
-- and shows what these parts promise.
--
-- How the parts interact. `Main` (cmd/replayor/main.go) makes the configuration, the clients, the
-- storage and the recorder, and of them the service. `Service.Start` (packages/replayor/service.go)
-- brings the node to a start block and runs a `Benchmark` (packages/replayor/benchmark.go). Three
-- goroutines pass blocks on over two channels of capacity 25: `loadBlocks` fetches batches of 25
-- blocks from the source node, `mapBlocks` asks the strategy (packages/strategies) what to build of
-- each, and `submitBlocks` calls `addBlock`, which has the node build, import and adopt one block,
-- adds to its record what the receipts and traces say (`enrich`, packages/replayor/trace.go), and
-- hands it to the recorder (packages/stats).
--
-- Which file models what:
--   Prelude, Prelude/    tests, lists, `uint64` arithmetic and maps that all parts share, and sorting
--                        texts (Prelude/Ascending)
--   Exec                 calls that mutate state and may panic or `Crit`; errors; `range` loops
--   Chain                the values of op-geth and op-node that the program reads
--   Strategies           packages/strategies/strategy.go
--   Strategies/Replay    packages/strategies/replay.go
--   Strategies/Tables    the signatures of packages/precompiles and packages/storage_stressor, with
--                        the names that these packages list in Tables/Names
--   Strategies/Signing   the accounts, nonces, deposits and deployments of
--                        packages/strategies/stress.go; Strategies/Packing its packing loops, with
--                        Packing/Erc20 and Packing/Eth on two of them, Packing/Gas on how much they
--                        pack and Packing/Fresh on their nonces; Strategies/Nonces what it is to use
--                        nonces in order; Strategies/Stress the strategy itself, with Stress/Returns,
--                        Stress/Numbers, Stress/Kept, Stress/Bounds and Stress/Fresh on when it
--                        returns, what it keeps, how much it adds and which nonces it uses
--   Config               `LoadReplayorConfig` of packages/config/config.go; Config/Accepted what it
--                        lets through, Config/Listed what it names when it refuses; Config/Declared
--                        the flags of flags.go and Config/Read what is read of them
--   Stats                the records of packages/stats/storage.go; Stats/Recorder its recorders;
--                        Stats/Storage disk.go and s3.go, Stats/Written what they read back;
--                        Stats/Create `NewStorage`, Stats/Dependable what its storages promise
--   Trace                `traceReceipt` of packages/replayor/trace.go; Trace/Counts its counters,
--                        Trace/Frames its gas, Trace/Receipts those of a block; Trace/Storage
--                        `recordStorageChanges`, Trace/Slots, Trace/Changed and Trace/Accounts what
--                        it counts
--   Benchmark/Batch      one batch of `loadBlocks`; Batch/Order its goroutines
--   Benchmark/Pipeline   `loadBlocks`, `mapBlocks`, `submitBlocks` and the fields they share; below it
--                        Flow (where the blocks are), Ends (why goroutines return, what is counted),
--                        Numbers, Delivery (what is submitted), Remaining (the counter), Bounded (how
--                        many blocks wait), Awake, Progress, Returns, Submits and Completion
--                        (whether it ends),
--                        Simulation (runs that agree in what a view keeps), Idle and Cancelled (after
--                        the end)
--   Benchmark/Monitor    the rest of `Run`: its loop over `doneChan`, the ticker and the context;
--                        Monitor/Runs, Saved, Watched, Interrupted, Replays and Stresses what that
--                        leaves of a run
--   Benchmark/Enrich     `enrich` and `computeTraceStats`; Enrich/Kept what they leave as it was
--   Benchmark/AddBlock   `addBlock`; AddBlock/Accepted what holds when it returns, AddBlock/Views
--                        that no recorder changes what it does
--   Benchmark/Replayed   the pipeline with the replay strategy
--   Benchmark/Recorded   what the recorder holds after it; Benchmark/Counted what its records count
--                        with any strategy
--   Benchmark/Stressed   the pipeline with the stress strategy; Stressed/Nonces the nonces of a run
--   Service              `Start` and `Stop` of packages/replayor/service.go, with `LoadStrategy`;
--                        Service/Walk what `Start` does before its benchmark, Service/Calls how its
--                        parts end; Starts, Errors, Walked, OnChain, Benchmarked, Stressed and Stops
--                        below it what they leave
--   Clients              `SetupClients` of packages/clients/clients.go
--   Main                 `Main` of cmd/replayor/main.go; Main/Wired what it makes, Main/Dialled where
--                        its clients are connected, Main/Recorded what a run of the whole program
--                        leaves
--   */Tests              concrete runs
--
-- How code becomes definitions. A record stands for a struct and a field keeps its name. The state
-- of a goroutine is the place where it stands, and a schedule is a list of actors, each of which
-- takes one step or none where it blocks on a channel; the order in which the goroutines of a batch
-- finish is a list too, so every interleaving of the channel operations is a schedule. A step that
-- runs `addBlock` or `BlockReceived` is one step, since no other goroutine reads what they write,
-- apart from the recorder, which the monitor writes between them, and `remainingBlockCount`, which
-- it only reports. A turn of `Run` is such a step or one turn of the monitor's `select`; what is
-- left of a benchmark's goroutines after a cancellation has its turns before `Start` goes on. A
-- panic in any goroutine or a `Crit` ends the process: the flag `crashed`. The fields `submitted`
-- and `rejected` of a pipeline are history that no code reads.
--
-- Numbers are natural numbers. A `uint64` wraps where it is written `add64` or `sub64`, durations
-- are the bits of an `int64`, a counter of type `int` does not wrap since it stays below the length
-- of a list. A `float64` is kept as the expression that computes it. Maps are association lists, of
-- which a list stands for any order in which Go may go through the map; texts are ordered by their
-- code points, which is the order of their bytes in UTF-8.
--
-- Parameters. Keys, signatures and random numbers, the source node, the engine API, the clock, the
-- receipts and traces of the destination node, op-service's `retry.Do`, encodings, the file system,
-- the object store and JSON are third-party code: arguments of the definitions. Theorems about the
-- pipeline ask for an end block at least 25 below 2 ^ 64, since `loadBlocks` computes up to 25 past
-- it. The loop of `packErc20Transfer` has as fuel one turn more than transfers that fit, which is
-- always enough; `packEthTransfer` recurses over the random numbers that it draws; all other
-- recursion is structural. A schedule is finite, and whether one exists that ends the run is a
-- theorem. `Run` and `Start` take the turns that happen as lists, and say so where these are over
-- before they return.
--
-- Not modelled: log lines and what is computed for them alone, usage texts, the command line library,
-- the constant options of the two tracers, `randAddrIndex`, which nothing calls, and the contracts
-- that the stress tests deploy, which the program carries as constants. JSON refuses the record of a
-- block without receipts, whose share of successes is no number. That every write can be read back,
-- which some theorems about `Run` and `Start` ask for, is then not so; what holds of the whole program
-- does not ask for it and says what is left in this case.
pub mod Prelude
pub mod Exec
pub mod Chain
pub mod Strategies
pub mod Stats
pub mod Trace
pub mod Benchmark
pub mod Config
pub mod Service
pub mod Clients
pub mod Main
