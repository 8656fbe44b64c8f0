-- ===== src/Lib.antt =====
-- barq-native: the query predicates, the managed fields and collections, the
-- transport and the observation of a reactive object database.
--
-- The program is a C++ binding of the database engine Barq Core. User code
-- writes predicates over managed fields; each comparison returns an rbool
-- (include/barq_native/rbool.hpp) that either holds a bool or carries a core
-- query, and results::where (include/barq_native/results.hpp) runs a predicate
-- once in query mode and hands on the query. The bridge
-- (src/barq_native/internal/bridge/query.cpp) builds the conditions with core's
-- column expressions. The default transport
-- (src/barq_native/internal/networking/network_transport.cpp) sends the requests
-- of the sync client. Observers (include/barq_native/observation.hpp) turn
-- core's change sets into calls of user code. A managed object has a field for
-- each member of a struct (include/barq_native/managed_*.hpp); outside a query a
-- field reads and writes the column of its object. db.hpp opens a file with the
-- schemas that schema.hpp makes of the structs, and its transactions write
-- structs by the accessors of accessors.hpp.
--
-- Core is not part of this repository. What the code calls of it is a parameter
-- of the model: QueryEngine in Query.antt for tables, columns and queries,
-- Column in Managed.antt for the fields of an object, CoreSet in
-- Managed/Set.antt, LinkSet in Managed/Set/Pointers.antt, CoreDictionary in
-- Managed/Dictionary.antt, CoreEntries in Managed/Dictionary/Entries.antt,
-- CoreList in Managed/Lists.antt, ObjectStore in Managed/Links.antt, LinkList in
-- Managed/Lists/Objects.antt, ValueType in Managed/Values.antt, CoreDecimal in
-- Managed/DecimalField.antt, CoreResults in Results.antt, CoreFloats in
-- Managed/Embeddings.antt, CoreValue in Managed/AnyValue.antt, CoreMixed in
-- Mixed.antt, CoreFile and CoreIndexes in Database.antt, ListColumn and
-- LinkColumn in Accessors.antt, DictionaryColumn and LinkEntries in
-- Accessors/Maps.antt, LinkDictionary in Managed/Dictionary/Boxes.antt,
-- CoreDefaults in Schema.antt, CoreSubscriptions in Subscriptions.antt, Observed
-- in Observation.antt for an observed type, World in
-- Network/Transport/World.antt for resolving, sockets and HTTP, and a URI parser
-- in Network/Endpoint.antt. CoreSession in Session.antt is a session of core.
-- CoreTypes and CoreFields in Fields.antt are the value types and the objects of
-- core. CoreObjects in Fields/Stored.antt is a file of such objects. The
-- functions and texts that a configuration only passes on are Given in
-- Configuration.antt. The arithmetic of floating point is FloatingPoint in
-- Managed/Floating.antt. The laws of each are a record that theorems take as a
-- hypothesis (IsLawful, IsColumn, IsSetLike, IsMixed and others), and the tests
-- have a concrete core that meets them: Query/Sample.antt, Managed/Sample.antt
-- and the Tests modules.
--
-- Files:
--   Prelude.antt and Prelude/: Boolean tests, lists and integers over the native
--     naturals, byte texts, stoi and to_string with their round trip
--   Query.antt: the kinds of column, the engine and its laws
--   Query/Bridge.antt: src/barq_native/internal/bridge/query.cpp
--   Query/Rbool.antt: include/barq_native/rbool.hpp, link.hpp operator->,
--     results.hpp where
--   Query/Predicate.antt: predicates over rows and what they mean
--   Query/Building.antt, Query/Limits.antt: what the built queries match
--   Observation.antt: include/barq_native/observation.hpp, the observers of objects,
--     and schema.hpp property_value_for_name
--   Observation/ObjectChanges.antt, Observation/PropertyValues.antt: what the
--     observer of an object is told
--   Observation/Collections.antt: the observers of collections and results;
--     Observation/Indexes.antt: the iterators of src/barq_native/internal/bridge/object.cpp
--     over a set of indexes; Observation/Dictionaries.antt: the observer of a dictionary
--   Managed.antt: a managed field, of an object or of a query object;
--     Managed/Answers.antt: what a comparison in a query answers
--   Managed/Numeric.antt: include/barq_native/managed_numeric.hpp and
--     managed_numeric.cpp; Managed/Numeric/Arithmetic.antt and Comparison.antt:
--     sequences of operators, and comparisons in a query and on an object
--   Managed/Floating.antt: double, float and bool of managed_numeric.hpp;
--     Managed/Floating/Laws.antt: their operators and comparisons
--   Managed/Dictionary.antt: the boxes of include/barq_native/managed_dictionary.hpp;
--     Managed/Dictionary/Agreement.antt: a box in a query and on an object;
--     Managed/Dictionary/Entries.antt and Detached.antt: the iterator, find and
--     detach of a dictionary; Managed/Dictionary/Boxes.antt: boxes of links
--   Managed/Set.antt: include/barq_native/managed_set.hpp; Managed/Set/Iteration.antt
--     and Insertion.antt: loops over a set, insertion and search;
--     Managed/Set/Pointers.antt and Objects.antt: sets of pointers, and insertion
--     in them
--   Managed/Lists.antt: include/barq_native/managed_list.hpp, lists of values;
--     Managed/Lists/Refinement.antt: histories of operations against a
--     std::vector; Managed/Lists/Objects.antt: lists of objects
--   Managed/Links.antt: include/barq_native/link.hpp; Managed/Links/Assignment.antt and
--     Comparison.antt: what a link leads to, and its comparisons
--   Managed/Values.antt: the comparisons that macros.hpp makes for dates, uuids,
--     object ids and others, and src/barq_native/managed_primary_key.cpp;
--     Managed/Values/Agreement.antt: a comparison in a query and on an object
--   Managed/Text.antt: src/barq_native/managed_string.cpp; Managed/Text/Edits.antt
--     and Search.antt: histories of edits, and the text conditions
--   Managed/Blob.antt: src/barq_native/managed_binary.cpp;
--     Managed/Blob/Bytewise.antt: bytes by their index
--   Managed/DecimalField.antt: src/barq_native/managed_decimal.cpp;
--     Managed/DecimalField/Writes.antt: what its operators write
--   Managed/AnyValue.antt: include/barq_native/managed_mixed.hpp and the mixed values of
--     types.hpp; Managed/AnyValue/Alternatives.antt and StoredLinks.antt: what
--     is read, what is said to be held, and links
--   Managed/Embeddings.antt: include/barq_native/managed_vector.hpp;
--     Managed/Embeddings/Whole.antt: what a vector column reads as
--   Results.antt: include/barq_native/results.hpp and bridge/results.cpp;
--     Results/Elements.antt and Ordering.antt: bounds of the index, and filters
--     and orders
--   Schema.antt: the schemas of include/barq_native/schema.hpp; Schema/Keys.antt and
--     Lookup.antt: the primary key, and members by their pointers;
--     Schema/MemberTypes.antt: include/barq_native/internal/type_info.hpp;
--     Schema/ColumnTypes.antt and Declaration.antt: the columns of its types
--   Database.antt: include/barq_native/db.hpp; Database/Writes.antt: a write is
--     atomic; Database/Indexes.antt, Declared.antt and Reconciled.antt: the vector
--     indexes
--   Configuration.antt: src/barq_native/internal/bridge/barq.cpp, the configuration of a
--     file; Configuration/Sequences.antt and Aliasing.antt: sequences of
--     settings, and copies; Configuration/Opening.antt: open of db.hpp;
--     Configuration/ClientReset.antt: the callbacks of a client reset
--   Fields.antt: the values of fields by their C++ types, of
--     include/barq_native/types.hpp, accessors.hpp and the managed fields;
--     Fields/Conversions.antt and Structs.antt: what is stored of a value, and
--     whole structs;
--     Fields/Stored.antt: structs of scalar members in the objects of a file
--   Session.antt: src/barq_native/internal/bridge/sync_session.cpp;
--     Session/Futures.antt: the futures of its waits
--   Logger.antt: src/barq_native/logger.cpp and include/barq_native/logger.hpp
--   Accessors.antt: include/barq_native/accessors.hpp and bridge/obj.cpp;
--     Accessors/Lists.antt, Pointers.antt and Maps.antt: whole lists, lists of
--     pointers, and sets and dictionaries
--   Subscriptions.antt: include/barq_native/flex_sync.hpp and
--     src/barq_native/flex_sync.cpp; Subscriptions/Editing.antt and Updates.antt: the
--     edits of a set, and its update
--   Mixed.antt: src/barq_native/internal/bridge/mixed.cpp; Mixed/Ownership.antt: the
--     bytes that a mixed value owns
--   Network/Ipv4.antt: is_valid_ipv4 of network_transport.cpp
--   Network/Headers.antt: the map of header names
--   Network/Transport/World.antt and Model.antt: send_request_to_server of
--     network_transport.cpp; Network/Transport/Requests.antt and Sending.antt: what
--     it tells the caller, and what it sends
--   Network/Endpoint.antt: src/barq_native/internal/networking/utils.cpp;
--     Network/Endpoint/Conversion.antt: what the conversions keep
--   Network/Shims.antt: src/barq_native/internal/networking/shims.cpp, the HTTP client
--   Scheduler.antt: the invocation queue and the libuv scheduler of
--     src/barq_native/schedulers/default_scheduler.cpp, as a step relation;
--     Scheduler/Interleavings.antt and Wakeups.antt: order, and no lost wakeup
--
-- Bounds: recursion is structural, on texts, predicates, schemas and histories.
-- A loop over an iterator has a number of rounds, and Managed/Set/Iteration.antt
-- proves how many are enough. to_string prints a number with a fuel of the
-- number plus one, and Prelude/Decimal.antt proves that this is enough.
--
-- Not modelled: core itself; the macros and templates that declare managed types
-- for the structs of a caller, whose result for one struct a model takes as a
-- record or a list; the bridge's wrappers that forward a call to the same method
-- of core; comparisons of two boxes of links; where and sort of lists; the
-- certificates of BARQ_INCLUDE_CERTS; the users and errors of the sync client
-- and the websocket shims.

pub mod Accessors
pub mod Configuration
pub mod Database
pub mod Fields
pub mod Logger
pub mod Managed
pub mod Mixed
pub mod Network
pub mod Observation
pub mod Prelude
pub mod Query
pub mod Results
pub mod Scheduler
pub mod Schema
pub mod Session
pub mod Subscriptions
