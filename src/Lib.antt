-- ===== src/Lib.antt =====
-- The verification library of PetraCache, a memcached server over RocksDB.
--
-- The program reads bytes from a client (src/server/connection.rs), parses requests out of them
-- (src/protocol/parser.rs), executes each (src/server/handler.rs) against the store
-- (src/storage/rocks.rs), writes the reply (src/protocol/response.rs) and counts what it does
-- (src/metrics.rs). A listener (src/server/mod.rs) admits the clients, up to a limit; a second, small
-- server (src/health.rs) answers health checks and scrapes of the metrics; src/main.rs starts these
-- from a configuration (src/config.rs). The files below follow these parts.
--
-- Base, Result, Outcome, Rust: lists, byte strings and tests over the native numbers; `Result` and
-- `Option` chains; `Outcome`, a value or a panic, with `index` and `slice` that panic out of bounds;
-- and what the source uses of Rust's standard library: `str::parse`, `to_string`, UTF-8, `trim`,
-- `split`, little-endian bytes. A text is its UTF-8 bytes. `usize` has 64 bits; its additions wrap
-- around, as in the release profile of Cargo.toml, which sets no overflow checks.
-- Crates: the crates memchr, bytes, itoa, rust-rocksdb and prometheus and the semaphore of tokio as
-- records of operations. The documented laws stand beside them: `IsBuffer`, `IsMap`, `IsReliable`,
-- `IsPrometheus`, `IsSemaphore`, and the laws in `Memchr` and `Itoa`.
-- Error: src/error.rs, the error types with their messages.
-- Config: src/config.rs, the records, their defaults, `from_env`, which is a function for each variable,
-- and `from_file` over a parser that is a parameter.
-- Protocol.Command: src/protocol/command.rs, `Command`, `is_noreply`, `is_valid_key`.
-- Protocol.Parser: src/protocol/parser.rs. `parse`, `parse_get`, `parse_set`, `parse_delete`,
-- `parse_storage_data` and `parse_storage_command_line` have their names; `parse_set` is `set_line`
-- and `set_data`, and `dispatch` is `parse` behind the split of the line.
-- Protocol.Response: src/protocol/response.rs, the writer; `take` is `take_buffer`, `is_empty` is
-- `no_response`.
-- Storage.Value: src/storage/value.rs. A field `data` is `payload`. A reading of the clock is an
-- argument, `none` for a clock before the epoch.
-- Storage.Rocks: src/storage/rocks.rs, `get`, `get_multi`, `set`, `delete` and the compaction filter.
-- `compact_entry` is what compaction does with an entry, and `compact` a compaction of them all.
-- The database is a parameter, and a call returns the store behind it; the two global counters wrap
-- around at 2^64. Each value of a batch has its own reading of the clock. Open holds `open`, as
-- `open_storage`, with the options as a record, and `memory_usage` and `ttl_stats`. Threads has the calls
-- of several threads: a call is a `Task` that goes on by `step`, with one access of the database in
-- each, and the steps of the calls interleave in any order.
-- Metrics: src/metrics.rs, the calls that the server makes on the metrics, latest first. Registry is
-- `Metrics::new`, in its two halves `make` and `register_all`, and `gather`; Counters is
-- `AtomicCounters`, with the calls of all threads in the order in which they take effect.
-- Server.Handler: src/server/handler.rs, `execute` and the handlers.
-- Server.Connection: src/server/connection.rs. `handle` runs over the events that its `select!` sees;
-- `round` is one round of the inner loop and `process` the loop. A parameter says which writes
-- succeed. The inner loop has fuel, one more than the buffer's length; a command takes two bytes or
-- more off the buffer, and each other round ends the loop, so this is enough.
-- Server.Listener: src/server/mod.rs. `Step` is a step of the accept loop, the cancellation of the token,
-- one whole event of one of the connections that it has spawned, or the compaction of an entry, and
-- `Reach` is any number of steps, in any order. A connection that ends gives its permit back. The
-- program runs its connections as tasks on several threads, and the tasks of two clients may overlap in
-- the middle of their events, which these steps do not. With a limit of one connection no two can. What
-- is said of a listener with several speaks of its permits, its gauge, the form of its entries and its
-- end; Storage.Rocks.Threads has what overlapping calls do to one another.
-- Server.Cache: what the server promises its clients, for no file of its own: a `Cache` from keys to
-- values with deadlines, the `reply` to a command, the cache `behind` it, and the `conversation` of a
-- list of commands. Entries, Execution and Service hold the store, the handlers and a connection to it.
-- History lists the commands that all clients had executed and the compactions, and tells which replies
-- a client may have by then and which calls count the commands; Server.Connection.Answers and
-- Server.Listener.History hold a connection and the listener with its connections to it.
-- Health: src/health.rs. `response` is the bytes of `send_response`, `answer` its arguments for the
-- words of a request line, and `run` the loop over what happens: its own tests and accepts, and flags
-- that other threads set. An accept that fails or finds nothing only goes back to the test.
-- Program: src/main.rs. `main` ends in the accept loop, in its own return or in a panic, by what a
-- `System` gives it; `launch` is `async_main` up to the run of the server, `run_health` what the thread
-- of the health server comes to, by its bind, `bound` the beginning of the run, and `on_signal` the
-- task that a signal wakes. `Turn` is a step of the running program: a signal, which alone cancels the
-- token, or another `Step` of the listener. When the accept loop is left, `main`
-- returns and the runtime drops the tasks; the turns behind that point are those that its threads may
-- still take meanwhile.
-- Tests: the interfaces filled with concrete functions, and runs.
--
-- Not modelled: how the tasks of several connections overlap in the middle of their events, since an
-- event of a connection is one step and Storage.Rocks.Threads has the store's calls alone; the log, the set-up
-- of tokio's runtime, of signal handlers and of sockets, and the TOML parser, which are calls of
-- libraries. What prometheus counts for a call is its own.
pub mod Base
pub mod Rust
pub mod Error
pub mod Result
pub mod Outcome
pub mod Crates
pub mod Protocol
pub mod Storage
pub mod Config
pub mod Metrics
pub mod Server
pub mod Health
pub mod Program
pub mod Tests
