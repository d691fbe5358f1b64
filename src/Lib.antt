-- ===== src/Lib.antt =====
-- exec-rest-api: a read-mostly REST interface before the JSON-RPC interface of an Ethereum execution
-- node. A request is checked and translated by a handler, which calls the node through
-- `UpstreamClient`, and the answers are translated back.
--
-- The files, with the code that each models, under src/exec_rest_api/:
-- Base and its children: lists, integers and texts as Python has them; no code of the program.
-- Json: JSON values as Python objects, exceptions, and the dict operations of the code.
-- Exec: what a handler does, a sequence of upstream calls with a result or an exception.
-- Encoding (encoding.py): quantities, wei amounts, statuses, transaction types, addresses.
-- BlockId (block_id.py) and BlockResolve (block_resolve.py): block identifiers, their form on the
-- wire, and the numbers that they stand for.
-- Cursor (cursor.py): the opaque cursors of paginated queries.
-- Delegation (delegation.py): the delegate of an account.
-- Errors (errors.py): problems and the mapping of JSON-RPC errors.
-- Pagination (pagination.py): the chunked fetch of /logs.
-- Shapes (handlers/transactions.py): the converters of transactions, receipts, logs and traces.
-- ContentNeg (content_neg.py): the choice of a representation; ContentNeg/Ranges tells the media ranges
-- letter by letter.
-- Transactions (handlers/transactions.py): the handlers of transactions.
-- Accounts (handlers/accounts.py): the handlers of accounts, with their input in Accounts/Input.
-- Logs (handlers/logs.py): get_logs and post_logs_search; Logs/Types, Input, Limit, Ranges, Search and
-- Handlers are the stages of the handlers, in this order; Logs/Filters tells which filters are valid.
-- Subscriptions (subscriptions.py): the subscriptions of the upstream WebSocket, shared by the clients.
-- Subscriptions/Reach has the steps of the manager and the states that they reach.
-- Metrics (metrics.py): the counters, gauges and histograms, with their text; Dicts, Series and the
-- registry.
-- Revert (abi_revert.py): what the data of a reverted call tells.
-- Traces (handlers/traces.py): the pages of traces, with Traces/Lookup for single traces and raw
-- transactions and Traces/Calls for calls.
-- Computed (handlers/computed.py): calls that are not sent, with Computed/Request for their input and Computed/Simulate for simulations.
-- Blocks (handlers/blocks.py): the handlers of blocks, with the converters in Blocks/Shapes.
-- Chain (handlers/chain.py): the five handlers of the chain.
-- Keccak (handlers/utils_keccak.py): the handler of the hash of bytes.
-- Client (upstream.py, server.py): one call over HTTP, and the answer to what a handler raises.
--
-- How they interact: a handler decodes its input with BlockId, Cursor and Encoding, calls the node in
-- Exec, pages through logs by Pagination and converts the answers by Shapes; an exception of JSON-RPC
-- becomes a problem by Errors.
--
-- State: `Exec A` takes the calls that the request has made and gives a result and the longer list.
-- The node is a parameter, a function from the calls before and the call to the reply, so it may
-- answer the same call differently later. Python's json and base64 are the parameter `Codec` of
-- Cursor, with the laws `IsBase64`; Python's formatting of messages is the parameter `render` of
-- Errors, and a message is kept as its template with its values; Python's int(), its floats and bytes.fromhex are parameters.
--
-- The subscription manager is a record of its dicts with a store of slots and queues. `subscribe` and
-- `_remove_consumer` hold the lock until they end, and are one step; `on_reconnect` is a step for each
-- request, between which notifications arrive.
--
-- Texts are lists of code points. `lower` acts on ASCII letters only, the classes of the patterns are
-- ASCII classes. Python's limit of 4300 digits is modelled where a block identifier is parsed, and
-- where json.loads reads a cursor; elsewhere it is left out. A float is kept by its repr.
--
-- Fuel: the loop of Pagination runs on `fuel_for from to` rounds, 5001 for each block and 5001 more;
-- a round moves to a later block or makes the chunk smaller, and a chunk has at most 5000 blocks.
--
-- Not modelled: the HTTP server with the other middlewares, the WebSocket side (upstream_ws.py,
-- chain_head.py, sse.py, handlers/streams.py), the configuration, and
-- the handlers of gas, of health and of the metrics.
pub mod Accounts
pub mod Base
pub mod BlockId
pub mod BlockResolve
pub mod Blocks
pub mod Chain
pub mod Client
pub mod Computed
pub mod ContentNeg
pub mod Cursor
pub mod Delegation
pub mod Encoding
pub mod Errors
pub mod Exec
pub mod Json
pub mod Keccak
pub mod Logs
pub mod Metrics
pub mod Pagination
pub mod Revert
pub mod Shapes
pub mod Subscriptions
pub mod Traces
pub mod Transactions
