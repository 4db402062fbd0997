-- ===== src/Lib.antt =====
-- DBAL, libraries/dbal/production, C++: its in-memory data layer, its page language BQL, its OIDC
-- service, the stores of nonces and blobs, and its workflow engine.
--
-- The client (src/client_page_component_ops.cpp and src/client_misc_ops.cpp under
-- libraries/dbal/production) passes its calls on pages, workflows, sessions and packages to the
-- functions of src/entities, which read and write one process-wide InMemoryStore
-- (src/store/in_memory_store.hpp). The store keeps each kind of entity in a map by id, beside a
-- map from a unique field (path, name, token, package key) to the id, a counter for ids, and a
-- snapshot for transactions. This library models those functions, in the order in which they read
-- and write, and states what they do to the store.
--
-- Files, and the code that each is about:
--   Prelude, Prelude/*     names shared by all modules; Booleans, lists, the signed int (ℤ)
--   Map, Map/Order         std::map<std::string, V>: its entries in the order of their keys
--   Result                 core/error*.hpp: Result and Error. reject_if, find_or and when_set are
--                          the guards, the lookups and the optional fields of the operations; each
--                          returns a result and the store, as an error can leave a changed store
--   Types                  core/types.hpp: the inputs, and of the entities the fields that
--                          src/entities assigns
--   Store, Store/*         in_memory_store.hpp: InMemoryStore, generateId (Ids), transactions; a
--                          map beside its unique index (Index), with its counter (Table)
--   Validation             src/validation/entity
--   Listing, Listing/*     the filters, sorts and pages of the list and search operations
--   Session, Session/*     src/entities/session: create, remove, get, get_by_token, update,
--                          clean_expired, list. Stages of update are functions of their own
--                          (update_user, update_token, update_rest), since an assignment through
--                          the reference into the map is there at once, also when a later check fails
--   Workflow, Page         src/entities/workflow and src/entities/page, in the same form
--   Package, Package/*     src/entities/package: the operations and the batches
--   Component, Component/* src/entities/component: create, get, reorder (Reorder), hasDescendant
--                          (Descent), update and move (Move), search (Queries), list and getChildren
--                          (Lists), the cascading delete (Delete), the tree of a page (Tree). The
--                          recursion of hasDescendant, of the delete and of buildTree runs on fuel; a
--                          height above each component, which exists where the children form no
--                          cycle, is fuel enough
--   Credential             src/entities/credential: the first-login flag
--   System, System/*       the calls of the client in any order; transactions around them
--   Bql, Bql/*             src/bql: the lexer (Lexer), the cursor and its readers (Cursor), lists and
--                          clauses (Lists), the forms of sentences (Sentences, Actions), lines and
--                          scripts (Script). Spelling and Lexer write tokens and sentences as text
--   Oidc, Oidc/*           src/oidc: RefreshTokens and AuthCodes, over Client, the interface of
--                          dbal::Client with what it is assumed to do; Client/Memory meets it.
--                          Clients is the registry of OAuth clients, Scopes and Pkce the checks, and
--                          Service the flow of oidc_service.cpp over the three kinds of entity:
--                          Sessions, Tokens (what is signed) and Exchange; Single, Flow and Refresh
--                          have its theorems. A call takes its readings of the clock and of
--                          generate_token as two functions from their number in the call
--   Base64url, .../*       src/security/jwt/base64url.hpp
--   Graph, Graph/*         src/workflow/wf_graph_order.cpp: topologicalOrder and bestForForm. Pending
--                          counts the edges from nodes that are not ordered, Relax is one round of the
--                          queue, Drain its loop, Order the result. The loop has fuel for twice the
--                          number of keys, and the number of keys is enough where they are distinct
--   Json                   the values of nlohmann::json
--   Engine, Engine/*       src/workflow/wf_executor.cpp, wf_compare.cpp and include/workflow/
--                          wf_context.hpp (Context). A template is read on fuel, its length
--   Nonces, Nonces/*       src/security/nonce
--   Blob, Blob/*           src/blob/memory_storage.hpp, src/blob/memory
--   Tests, Tests/*         the theorems at concrete stores
-- In each component Invariant holds its consistency, and Frame the writes of its operations.
--
-- A call takes the reading of the system clock as an argument. A Timestamp is a number of ticks.
-- Counters and sizes are natural numbers; a theorem that needs them to be an int says so with
-- int_end, which is 2 ^ 31. The pages of a list compute on ℤ, where an overflow and a range outside
-- of the vector end as `undefined`, and an exception as `thrown` (Listing.Outcome). A text is a
-- sequence of characters, and its length their number, which is the number of bytes for ASCII.
-- std::sort is the stable sort, one of the orders that it may give to equal elements.
-- generateId writes into a buffer of 64 bytes, which cuts a long id (Store.Ids.truncated); the program's
-- own prefixes fit. The loops of the BQL lexer and of its lists have one unit of fuel more than there
-- are bytes or tokens; the functions that are not named with fuel here or above recur on lists.
-- A BQL text is the list of its bytes. A JSON row of the OIDC stores is a record with all its fields;
-- SHA-256 and the token generator are arguments. Expiries and intervals are natural numbers.
--
-- Not modelled: the database adapters and the compensating transactions over them, the daemon, the
-- calls on users, components and the first-login flag in System, the keys of the OIDC service, SAML, blobs on disk and S3, caches, the steps and the loader of the workflow
-- engine, the query builder, the password and rate helpers of src/security and the JSON of BQL
-- results. The adapters and the daemon are mostly I/O through clients of other projects; the rest is
-- left for later.
pub mod Prelude
pub mod Map
pub mod Result
pub mod Types
pub mod Store
pub mod Validation
pub mod Listing
pub mod Session
pub mod Workflow
pub mod Page
pub mod Package
pub mod Bql
pub mod Oidc
pub mod Nonces
pub mod Blob
pub mod Base64url
pub mod Graph
pub mod Json
pub mod Credential
pub mod Engine
pub mod Component
pub mod System
pub mod Tests
