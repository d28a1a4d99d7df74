-- ===== src/Lib.antt =====
-- matricxon: the consensus of the cluster (app/consensus), the reader of model files (app/gguf), and
-- the cached conversations of a loaded model and its tool calls (app/runtime).
--
-- A cluster agrees on a log of commands, slot by slot, in epochs; a command that changes the voters
-- seals an epoch, and the next one starts with a fresh instance of Paxos. A node (node.py, with the
-- roles of roles.py and snapshots.py) hears messages, ticks and submitted commands. It holds an
-- acceptor (acceptor.py), while it campaigns or leads a proposer (proposer.py), a replica with the
-- chosen log and the state machine that it drives (replica.py, state_machine.py), and what it must
-- not forget (storage.py). It keeps a watch on its majority (quorum.py), asks a longer log for what
-- it lacks (catchup.py), and hands its own commands to the leader until they are applied
-- (pending.py).
--
-- A model is a GGUF file: a header of metadata and a table of tensors (reader.py, metadata.py,
-- tensor_info.py), then the tensors' data, whose bytes the loader slices out of the mapped file
-- (mmap_source.py, loader.py, packed_rows.py). A chat's next turn sends the whole conversation again;
-- the pool of the model (prompt_cache.py) finds the slot (prompt_slot.py) that has the longest
-- beginning of it in its cache (kv_cache.py, mamba_cache.py), so that only the new tokens are read.
--
-- Which file models what:
--   Base            comparison tests, equality, lists, dictionaries, sorting, counting, text order.
--   Consensus/Ballot, Command, Messages    ballot.py and messages.py: the ballots with their order,
--                   the commands with typed payloads, one record for each message.
--   Consensus/Machine                      `ClusterStateMachine.apply` of state_machine.py.
--   Consensus/Storage                      storage.py: `DurableState`, its `prune`, and the journal:
--                   a save is a line, `write` is its effect, `load` replays, `rewrite` compacts.
--   Consensus/Acceptor                     acceptor.py: on_prepare is `prepare`, on_accept `accept`,
--                   raise_promise `_promise`; `saved` lists the lines written to the store.
--   Consensus/Proposer                     proposer.py: add, plan, propose, on_ack (`accepted`),
--                   unchosen.
--   Consensus/Replica                      replica.py: commit, advance (`_advance`), seal
--                   (`_reconfigure`), rotate, install.
--   Consensus/Quorum, Catchup, Learners, Pending    the files of the same names.
--   Consensus/Lease                        lease.py: `try_acquire`, `release`, the round of the
--                   keeper.
--   Consensus/Timers                       timers.py: `valid_timers` and `apply_timers`.
--   Consensus/Keeper                       voter_keeper.py: `step` and `_stale`.
--   Consensus/Node                         node.py and config.py: the state and its plumbing.
--     Starting       the constructor, over what the store returned.
--     Leading, Following, Commits, Snapshots, Running    the handlers of roles.py, snapshots.py and
--                   node.py; Running has `_handle`, `receive`, `submit` and `tick`.
--   Consensus/Protocol                     all nodes of one epoch over a network that loses, delays,
--                   repeats and reorders messages, as a step relation on the functions of the
--                   acceptor and the proposer.
--   Consensus/Tests                        runs at concrete inputs.
--   Gguf/Parser, Number    reading a file: bytes, little-endian numbers, repetition, errors.
--   Gguf/Value, Metadata, Reader    constants.py, metadata.py, tensor_info.py and reader.py:
--                   read_text is `_read_str`, read_entry and read_metadata `_read_metadata_kvs`,
--                   read_info `_read_tensor_infos`, finish the end of `read`.
--   Gguf/Rows       mmap_source.py, packed_rows.py, and of loader.py `raw_tensor_bytes_and_type`.
--   Gguf/Written, RoundTrip    the bytes of the format, written independently of the reader.
--   Gguf/Fuel, Refused, Bounds, Tests    the fuel of the arrays, the refused files, the alignment and
--                   the rows, and runs at concrete inputs.
--   Runtime/KvCache, Held, Dropped    `KVCache` and the cells that each operation leaves.
--   Runtime/Hybrid  `NemotronHHybridCache`: snapshot, restore, fork_from.
--   Runtime/Slot, Match, Gap, Sound, Cut    `CacheSlot`: match_prompt is `match`; what a match and a gap
--                   are, and what a slot holds that is cut back or copied.
--   Runtime/Pool, Eviction    the pool of `PromptCache` and its limits: evict is
--                   `_evict_over_limits`, use_slot `_use`, add_slot `_add`.
--   Runtime/Acquire, Reply    `acquire` with `_best_slot`, `_take` and `_shift_trimmed_chat`, and
--                   the bookkeeping around a reply.
--   Runtime/Everywhere, Choice, Taking, Serving    what a granted cache holds.
--   Runtime/Busy, Undisturbed    the slots in use.
--   Runtime/Scanner, Whole    tool_call_scanner.py: the text of a reply that is held back.
--   Runtime/Tests   runs at concrete inputs.
--
-- How the code is read. A dict is an association list in the order of insertion, a set a list of
-- distinct elements. Times are whole milliseconds, and a time that was never set is none. A random
-- number is a draw in thousandths, from a list that a node carries. What a node sends is kept in
-- order in `outbox`, and what it sends to itself in `local`. An exception is a value beside the state
-- that it leaves. The id of a reconfiguration, drawn at random, is an argument.
--
-- In a GGUF file a number is kept as its bit pattern and a text as its bytes; which bytes decode as
-- UTF-8 is the parameter `decodes`. A cell of a cache, a key and a value, is a type parameter, as are
-- the tensors of a recurrent layer; `Reading` in Runtime/Sound says what a model leaves in them when
-- it reads some tokens, with the one law that a position depends on the tokens up to it. The sizes in
-- bytes, the rotations of a shift and the answer of the disk tier are arguments. A cache object has
-- an id, which stands for its identity.
--
-- Fuel. `read_value` runs on fuel for arrays in arrays, as many levels as the file has bytes left.
-- The recursion limit of Python is not modelled: the source raises RecursionError on arrays nested
-- deeper than that, which are read here.
-- `evict` runs on as many rounds as the pool has slots. `advance` runs on one round more than the
-- chosen log has entries, since a round takes one for good. `drain` runs on fuel that its callers
-- pass.
--
-- Not modelled: the files of `FileStore` and its torn last line; runtime.py, factory.py, status.py,
-- events.py and auth.py, which are I/O around the node; codec.py, voters.py, recovery.py,
-- cluster_id.py and probe.py. The step relation of Protocol has no step that compacts a log, and no
-- change of epoch. Of app/gguf the dequantisation, which is arithmetic on tensors. Of app/runtime the
-- lock of the pool, the text that explains a miss, the disk tier behind the pool, and what does not
-- take part in caching a prompt but the scanner of tool calls. The rest of app is architectures,
-- routers and glue.
pub mod Base
pub mod Consensus
pub mod Gguf
pub mod Runtime
