-- ===== src/Lib.antt =====
-- kookaburra: a verification library for the runtime of components (runtime/core), their storage in
-- MongoDB (connectors/storages.mongodb), their exposition over HTTP (extensions/exposition), the
-- storages of octets (extensions/storages), streams of events (extensions/realtime), and batches
-- (libraries/conveyor).
--
-- The program. Components of a context expose resources: a tree of routes whose nodes have methods.
-- A gateway keeps one tree, into which it merges the branches that components announce, and answers
-- a request by matching its path, running the directives of the method found, calling the endpoint,
-- and settling the response by the directives. An endpoint is an operation of a component: the runtime
-- calls it over bindings, reads the object that its query selects from a storage, runs an algorithm,
-- stores what it made of the object unless another write came between, and emits an event. Files
-- below are under extensions/exposition/source unless another path is given.
--
-- Rtd/Segment: RTD/segment.ts, the fragments of a path and the segments of a route.
-- Rtd/Node: RTD/Node.ts, RTD/Route.ts, RTD/Match.ts. `match_node`, `match_routes` and `match_route`
--   are Node.match and Route.match, `sort` is Node.sort; a node's `intermediate` flag is a field.
-- Rtd/Merge: Node.merge, Node.append, Node.route, Route.equals and Route.merge.
-- Rtd/Factory: RTD/factory.ts, RTD/Tree.ts. The stack of directives, which the code shares between
--   nodes and restores behind each route, is an argument and a result of `create_node`.
-- Rtd/Parse: RTD/syntax/parse.ts; `add_part` is the body of the loop of `parseNode`, whose kinds of keys
--   are `Part`; Rtd/Parse/Mapping has the rest, and Rtd/Parse/Declared says what keys and mappings are. Untyped
--   has the values that it reads.
-- Directives: Directive.ts. `preflight` and `settle` run the sets in turn, `create` groups the
--   declarations by family; handlers are fields of a family and return the context they leave.
-- QuerySyntax: RTD/syntax/types.ts and the constructor of Query.ts (`trim`, `new_query`).
-- Query: the methods of Query.ts, `split`, `fit_criteria`, `fit_given`, `fit_sort`.
-- Gateway: Gateway.ts, Interception.ts, exceptions.ts. `process` is Gateway.process with its guards
--   in the order of the code, `merge_branch` is Gateway.merge, which keeps the tree on an exception.
-- Auth: directives/auth. `authorize` is the method of each directive by its constructor, `decide` and
--   `preflight` are Authorization.preflight with the sort by priority, and Auth/Settle is
--   Authorization.settle with Incept.settle.
-- Cache: directives/cache. A directive keeps the value that it computed first, as the code does.
-- Scanner: extensions/storages/source/Scanner.ts. `feed` is the buffers of a stream in turn; `raised`
--   is the error that the stream ends with.
-- Io: directives/io. `check` is Input.check, `restrict` the function of Output.restriction, and
--   `preflight` attaches the directives and the denial to the pipelines of a context.
-- Endpoint: Endpoint.ts and Mapping.ts. `fit_input` and `fit_queryable` make the request of an
--   operation, `respond` the response from its reply, `call` is Endpoint.call.
-- Tokens: extensions/exposition/components/identity.tokens/source. `encrypt`, `decrypt` and
--   `authenticate` are the operations of those names, with the cache of remote keys passed on;
--   Tokens/Footer has what PASETO documents of a token.
-- Runtime/Entity: runtime/core/src/entities. `replace_state`, `from_record` and `from_id` are the three
--   uses of `Entity.#set`, which the code tells apart by the state that it has.
-- Runtime/State: runtime/core/src/state.js, over a storage, an emission and a clock that are fields of
--   `Backend`; they work on a world `W`, which every exception leaves as it is then (Runtime/Eff).
-- Runtime/Operation: operation.js, transition.js, observation.js, assignment.js and effect.js of
--   runtime/core/src, with libraries/generic/source/retry.js. `transit_once` is one attempt, `transit`
--   all of them, `settle` is Transition.commit. Operation/Retries and Operation/Settled are on how a
--   transition ends.
-- Runtime/Criteria and Runtime/Queries: query.js and query/ of runtime/core/src, and translate.js and
--   translate/ of connectors/storages.mongodb/src; Queries has the options and the whole of both
--   functions. Criteria/Meaning says what a filter and criteria select.
-- Runtime/Storage: connectors/storages.mongodb/src/storage.js. Runtime/Concurrency is a step relation
--   of transitions that interleave over one collection, with the laws of the database.
-- Runtime/Invocation: Operation.invoke of runtime/core/src/operation.js. Runtime/Calls: call.js,
--   transmission.js and component.js of runtime/core/src.
-- Runtime/Difference: libraries/generic/source/difference.js.
-- Federation: extensions/exposition/components/identity.federation/source/lib/jwt.ts. `validate_header`,
--   `validate_payload`, `validate_signature` and `decode` are the functions of those names; the keys
--   and configuration of issuers, which the code fetches, are answers of `Services`.
-- Auth/Claims: directives/auth/Federation.ts; `match_all` is its loop over the matchers.
-- Basic: extensions/exposition/components/identity.basic/source/transit.ts; `execute` is the
--   transition's, in three steps.
-- Basic/SignIn: authenticate.ts and incept.ts beside it; Basic/Passwords is on both and on `execute`.
-- Tokens/Issue: issue.ts and revoke.ts beside encrypt.ts.
-- Storages: extensions/storages/source/Storage.ts over a record of a provider's methods, and
--   Storages/FileSystem: providers/FileSystem.ts over the files of the system, whose laws are `IsFiles`.
-- Octets: directives/octets/Octets.ts; Octets/Reads and Octets/Writes are its actions Get, Put, Delete and
--   Workflow, Octets/Workflow is workflows/Execution.ts, whose `run` is Execution.run, and
--   Octets/Component is extensions/exposition/components/octets.storage/operations.
-- Realtime: extensions/realtime/components/streams/source. `create` and `push` are create.ts and push.ts;
--   the events of closing are `close_fork` and `close_stream`, and `Step` is what may happen.
-- Conveyor: libraries/conveyor/source/conveyor.js. `process` is an arrival, `begin` the start of #process
--   and `continue` what follows its await; `Reached` has both as steps.
-- Roles: extensions/exposition/components/identity.roles/source/grant.ts.
-- Prelude, Text, Result, Dict and Sort are helpers; Result has the exceptions of HTTP/exceptions.ts.
-- Tests has runs at concrete values.
--
-- State is passed explicitly; code that throws returns a `Result`. Promises are awaited where the
-- code awaits them, in its order. All functions are total by recursion on their data, or on the
-- attempts that are left, but `Runtime.Storage.store`: it has fuel for its calls of itself, and one
-- unit more than the calls that the database refuses is enough. JavaScript strings are texts by code
-- points, records are association lists in the order of insertion.
--
-- Parameters: other components (identity providers, roles, bans, tokens), generated identifiers,
-- changes of case, glob patterns, JSON schemas, `parseInt`, content negotiation, and the factories
-- of endpoints. PASETO is a parameter as well, with what it documents as the hypothesis of one theorem
-- on tokens, and the collection of MongoDB one, with the law that a write to one document is made at
-- once or not at all (`IsDatabase`); the parser of RSQL, schemas, algorithms, the emission of events
-- and clocks are parameters too, and so are the files of a disk, with the laws of `IsFiles`, bcrypt,
-- and the providers of a storage. Nothing is assumed of the others beyond the type of their results.
--
-- Not modelled: the HTTP server, its messages and content formats, the introspection of nodes and
-- methods, closing of remotes, logging and timing, other families of directives, the components of
-- identities but where they are listed above, and the deployment; of the runtime the lifecycle of
-- connectors, bindings to brokers and booting, which wrap third-party services; indexes and streams of
-- MongoDB; the providers of storages over S3 and Cloudinary, which wrap their clients.
pub mod Prelude
pub mod Text
pub mod Result
pub mod Dict
pub mod Untyped
pub mod Sort
pub mod Rtd
pub mod Directives
pub mod QuerySyntax
pub mod Query
pub mod Gateway
pub mod Auth
pub mod Cache
pub mod Scanner
pub mod Storages
pub mod Tokens
pub mod Io
pub mod Octets
pub mod Endpoint
pub mod Federation
pub mod Basic
pub mod Conveyor
pub mod Realtime
pub mod Roles
pub mod Runtime
pub mod Tests
