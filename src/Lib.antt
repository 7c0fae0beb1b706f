-- ===== src/Lib.antt =====
-- Espur: a chat bot that answers mentions with an external coding agent. A verification library
-- for the Go code of the repository.
--
-- How the parts interact. The program (cmd/espur) reads its settings, opens the store and the
-- vault, and starts the connection manager (internal/connman), which builds an adapter
-- (internal/adapter) for each enabled connection and registers it with the bot and the web UI. An
-- adapter hands each inbound message to the bot (internal/bot), which drops redeliveries by the
-- dedup table of the store (internal/store), writes the message to the transcript and, for a
-- mention, runs a turn: it assembles the context, asks the vendor pool (internal/vendor) for an
-- answer and posts what comes back, cut into chunks that the platform accepts
-- (internal/adapter/textchunk). The pool walks the priority list of vendors of the store, passes
-- over those in the penalty box, and calls the invoker (internal/opencode) for the others; the
-- invoker has one server process for each vendor and listens to its stream of events.
--
-- Which file models what.
--   Base            lists, tests, texts and association lists that the parts share. A text is the
--                   list of its bytes; the functions of Go's package strings are by clauses.
--   TextChunk       internal/adapter/textchunk/chunk.go: Split is `split`, hardSplit
--                   `hard_split`. HardSplit has the fuel, Bounds the lengths, Content what is
--                   kept of the text.
--   Store           internal/store: the tables as association lists, each query and statement a
--                   function on them. Vendors, Credentials, Connections, Dedup follow the files.
--   Vendor          internal/vendor: Penalty is penalty.go, Classify is classify.go, Pool is
--                   pool.go, with Pool.Run in Pool/Walk: it is `run`, its loop `walk`, one turn
--                   of the loop `visit`.
--   Opencode        internal/opencode/invoker.go: Accumulator is msgAccumulator, Invoke is
--                   Invoke; Kept, Once, Reported and Outcomes have what a turn keeps, delivers and
--                   reports; Served puts the invoker into the pool, and Env is buildEnv, on the
--                   credentials that the pool reads. Opencode/Server is server.go with the life of a connection:
--                   callers of acquire, starts and ends of processes, and Close as moves of a step
--                   relation; Spawn is its spawn, waitHealthy and killProcess. Opencode/Client is
--                   client.go: its requests and the stream of events, to the listener's channel
--                   and over the rounds of runSSE. Auth is auth.go.
--   Connman         internal/connman: the objects of type running by number, and each piece of
--                   start and stop that runs without interruption. Calls has the manager's
--                   methods, one at a time; Secrets putSecret, build, deriveLabel and
--                   session_store.go; Migrate the migration. Moves is the interleaving of the
--                   goroutines as a step relation, in which a stop may also panic and be
--                   recovered; Owner, Edits and Single what it keeps; Settled
--                   and Plan compare the methods, one after another, with the plan of what is on
--                   and what is in the map of running ones; Seeded has the migration and AddDiscord.
--   Adapter         internal/adapter: Typing is typing.go, Send the sending of chunks with
--                   retries that the two adapters share, Events their channel of events and their
--                   typing states, Discord and Wechat the rest of the adapter of that name;
--                   Wechat/FileStore is wechat/session_store.go.
--   Providers       internal/providers/catalog.go.
--   Web             internal/web: the guard against other origins and the list of adapters;
--                   Vendors, Connections and Threads have the handlers that change state, Site
--                   the table of routes over them (`handler` is Handler) on one state, and Atomic
--                   writeFileAtomic. Rotation has what the strip, the home page and the health
--                   page say of the vendors, Health the health endpoint, Workdirs what the pages
--                   count and read below the directory of the threads, Formats the texts of times
--                   and sizes, and Pages the rows of the vendor page and the page of a thread.
--   Main            cmd/espur/main.go: the settings, the boot with its exit codes; Shutdown the
--                   three phases of the shutdown; Login is cmd/wechat-login/main.go.
--   Memory          internal/memory: the block of user instructions in AGENTS.md, and in Seed its
--                   seeding.
--   Transcript      internal/transcript/transcript.go: the log of a thread as the bytes of a
--                   file.
--   ContextAsm      internal/contextasm/assemble.go: Assemble is `assemble`.
--   Bot             internal/bot: Dispatch has Dispatch and onMessage, Queue the thread queues of
--                   queue.go with StopAccepting and the drain counter as a machine whose moves
--                   are the critical sections, Turn is HandleTrigger with its replies, Reply
--                   reply.go, Abort the contexts of the invocations.
--
-- Bounds and fuel. The loop of hardSplit runs on fuel, one more than the length of its text; each
-- turn takes at least one byte. The scans for mentions run on the length of their text, and
-- Adapter/Discord/Fuel and Adapter/Wechat/Fuel show that more gives the same. The loops that
-- print a number run on one more than the number, which each digit divides by ten. The polls of
-- waitHealthy run on fuel 135: its deadline of 20 s has room for 133 pauses of 150 ms. Go's int is
-- the natural numbers here, since lengths and streaks are small; the counter of posts in flight
-- is the bits of an int32. Times are nanoseconds since the epoch. A maximal length of zero or
-- less is the number zero. The retries of a send follow the list of waits, and a context or a
-- Monitor that ends is an argument or the end of a list of moves.
--
-- What is not modelled, or is a parameter. The clock, the random jitter and bytes, the encryption
-- of the vault (internal/secrets, by the age library), the JSON codec, HTTP, hashes and path
-- joins, failures of the database and of the file system, the SDKs of the platforms and the
-- answers of the vendor's server are parameters.
--
-- Paths have no symbolic links. Where a stop panics, the server of the web UI recovers it. That the
-- process of a spawn dies before its deadline is seen only as the failure of the spawn.
--
-- Not modelled are the recovery from panics and the drawing of the login code (internal/adapter),
-- the templates, which are text, the texts of notices and the constants of the settings page
-- (internal/web), the wiring of the parts in cmd/espur, the names of events (internal/obs), and
-- cmd/espur-genkey, which prints a key of the age library.
pub mod Adapter
pub mod Base
pub mod Bot
pub mod Connman
pub mod ContextAsm
pub mod Main
pub mod Memory
pub mod Opencode
pub mod Providers
pub mod Store
pub mod TextChunk
pub mod Transcript
pub mod Vendor
pub mod Web
