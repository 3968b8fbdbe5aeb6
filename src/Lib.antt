-- ===== src/Lib.antt =====
-- monetarium-explorer: a block explorer. Its server follows a node, keeps the chain in PostgreSQL
-- and in several caches in memory, and answers HTTP and WebSocket requests from them.
--
-- TicketPool models stakedb/ticketpool.go, the live tickets at any height. The pool is a map of
-- hashes, kept at a cursor over the list of diffs that each block makes; a query moves the cursor
-- (`advance`, `retreat`, `advance_to`, `retreat_to`, `pool_at`), a connected block appends a diff
-- (`append_at` for Append, `append_and_advance` for AppendAndAdvancePool), a disconnected one takes
-- the last diff off (`trim`). A diff is stored under its height by `encode_diff`, and is read back at
-- the next start by `load_all_pool_diffs`. TicketPool/History puts the calls together.
--
-- AddressRows models the history of an address: the rows of db/dbtypes/types.go and the pages that
-- db/cache/addresscache.go cuts out of them. `AddressRows/Slices` has the functions that page single
-- rows (`credit_address_rows` for creditAddressRows, `slice_address_debit_rows` for
-- SliceAddressDebitRows and so on), `AddressRows/Merge` those that merge the rows of a transaction
-- (`merge_rows_compact`, `merge_rows_compact_range`, `count_merged_rows_compact`, and the same on
-- plain rows, with MergeRowsRange and CountMergedRows in `AddressRows/Merge/PlainRange`),
-- `AddressRows/Select` the choice among them by the view, SliceAddressRows, and
-- `AddressRows/Item` the cache's item for one address with its method Transactions.
--
-- AddressCache models the cache itself, AddressCache of db/cache/addresscache.go: a map from addresses
-- to items, `purge_rows_to_fit` for purgeRowsToFit, `add_cache_item` and `set_cache_item_rows` below
-- the methods that store (`store_rows_compact`, `store_balance`, `store_utxos`), and those that clear.
-- The server's database layer stores what it queried here, and answers later requests for the address
-- from the pages of AddressRows/Item. AddressCache/History puts the calls together.
--
-- CacheLock models the try-lock of the same file, which lets one request at a time update an address
-- while the others wait for it.
--
-- Mempool models the cache of mempool/mempoolcache.go, from which the API serves fees, tickets and the
-- transactions that spend a given one.
--
-- BlockQueue models the priority queue of api/types/apicache.go, which decides what block leaves a full
-- cache: its blocks and comparators, and in `BlockQueue/Ops` the operations that hand it to Go's
-- container/heap, `insert` for Insert among them. That package is a parameter (`BlockQueue/Heap`), with
-- what it documents as laws; it changes the queue by swaps only. Just `BlockQueue/Refinement` assumes
-- that a comparator has these laws, with a minimum in front. ApiCache models the APICache of the
-- same file, from which the API serves the summary and the stake information of recent blocks: the
-- getters, and in `ApiCache/Store` the operations that store and remove (`store_block_summary`,
-- `store_stake_info`, `remove_cached_block`). ApiCache/History puts the calls together.
--
-- Charts models ChartData of db/cache/charts.go, the series behind the charts: how they are cut to one
-- length and gathered into days (`lengthen` for Lengthen), what a reorganisation takes off them
-- (`reorg_handler`), and, in `Charts/Miners`, how many miners are active at each block
-- (`active_miners_counts`); sort.Slice and sort.Search are parameters with what they document as laws.
--
-- TryLock models the mutex of trylock/trylock.go, which keeps a second update from starting while one
-- runs.
--
-- Semver models the compatibility of versions in semver/semver.go, by which the server accepts the
-- node that it follows, and a client the server.
--
-- Conventions. A method that mutates its receiver takes the state and gives back an `Outcome`
-- (Prelude/Method): the new state, an error beside the state that it left, or a panic. A hash is the
-- number that its bytes spell. A map used as a set is a list of its keys (HashSet), and a map with
-- values is a list of entries (AssocMap); where a method ranges over a map, the order is the parameter
-- `pick`. The heights that callers pass are signed (Prelude/Int). The database is the parameter `put`,
-- which sets a key or fails; the iterator over it is a list of items in its order; the decoder of the old value format is
-- a parameter, and so is the parser of big integers, `set_string`.
--
-- Fuel. The loops of advanceTo and retreatTo run on fuel: one more than the tip, and one more than
-- the cursor. Each round moves the cursor by one, so this covers every height. The loops of
-- purgeRowsToFit run on the number of entries, of which each round deletes one.
--
-- Not modelled: SQL, network and file I/O, HTTP handlers and templates, the node's own packages,
-- locks around methods that are modelled one at a time, and log lines.
pub mod AddressCache
pub mod AddressRows
pub mod ApiCache
pub mod AssocMap
pub mod BlockQueue
pub mod Bytes
pub mod CacheLock
pub mod Charts
pub mod HashSet
pub mod Mempool
pub mod Prelude
pub mod Semver
pub mod TicketPool
pub mod TryLock
