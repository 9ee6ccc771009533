-- ===== src/Lib.antt =====
-- Verification of quantalithos-bus, an event bus that accepts publications, delivers each to
-- its subscribers, takes feedback on every attempt and recovers from failed deliveries.
--
-- The program. The domain crate holds the aggregates. A publication comes from a command or from a
-- committed outbox fact; its material is checked and derived into a transport semantic, and an
-- acceptance records the decision on it. A durable semantic is scheduled as a delivery, which starts
-- attempts against a backend and finishes each with the result that the backend reports. A feedback on
-- an attempt completes the delivery or fails it. A failed delivery is retried under a retry plan or
-- made a dead-letter entry, which a replay preparation may approve for a replay. Idempotency anchors
-- bind the key of a request to the digest of its serialised form. The application services load these
-- aggregates from a store, call their methods and store them again.
--
-- The model, module by module.
--   Contracts/Core      the types re-exported from core-contracts, which is not in the repository: the
--                       timestamp, the actor, the key and the version are fields of the record Core, an
--                       instance argument of everything that uses them
--   Contracts/Status    the status enumerations of crates/contracts/src/metadata.rs with their equality
--   Contracts/Metadata  the identifiers, counters, scopes and backend references of the same file
--   Contracts/Inputs    the inputs in crates/contracts/src/commands.rs and events.rs
--   Domain/Errors       DomainError, crates/domain/src/errors.rs
--   Domain/Backend      the capability policy, crates/domain/src/backend.rs
--   Domain/Publication  Material, Semantic and Acceptance: crates/domain/src/publication.rs
--   Domain/Delivery     History, Attempt and the aggregate: crates/domain/src/delivery.rs
--   Domain/Feedback     crates/domain/src/feedback.rs
--   Domain/Recovery     Retry, Failure, DeadLetter, Replay and Policy: crates/domain/src/recovery.rs
--   Domain/Idempotency  Scope and Digest: crates/domain/src/idempotency.rs
--   Domain/Audit        the audit values of crates/domain/src/audit.rs
--   Contracts/Projections  the versions of projections and the backend health view,
--                       crates/contracts/src/metadata.rs and views.rs
--   Contracts/Receipts, Contracts/Jobs  the results of the services, crates/contracts/src/receipts.rs
--                       and jobs.rs
--   Domain/Display      the texts of the domain errors, crates/domain/src/errors.rs
--   Domain/ReadOutput   the read projections and the guard of sensitive reads,
--                       crates/domain/src/read_output.rs
--   Application/Ports   the unit of work's handle and errors and the contexts of the ports,
--                       crates/application/src/ports
--   Application/Errors  the errors of the services with their conversions,
--                       crates/application/src/errors.rs
--   Infra/Store         the in-memory store, crates/infra/src/store.rs: Transactions (begin, commit,
--                       rollback), Staging and RecoveryStaging (stage_*), Seeds (seed_*) and Queries
--                       (reads); Calls makes the staging calls values, over whose sequences the
--                       theorems range. Each method holds the store's lock for its whole body, so
--                       interleaved transactions are sequences of calls
--   Infra/System        the state of all in-memory adapters with the store, the clock, the record ids,
--                       the backend and the failpoints: crates/infra/src/uow.rs, repositories.rs,
--                       time.rs and id.rs
--   Application/Services  the handlers of crates/application/src/services: publication, delivery,
--                       feedback and recovery
--   Application/Requests  a request of any kind and sequences of requests on one system: Failure,
--                       Refinement (as calls of the store) and Refusal are about their
--                       effects
--   Application/Atomicity, Follows, Triples, Idempotence  how handlers change the store: rules for each
--                       way in which a handler is built, which proof search applies
--   Application/Batches  the summary of a retry cycle
--   Application/Progress  the progression of a delivery that the backend takes, by the steps of the handler
--                       on the aggregate (Domain/Delivery/Dispatching) and on the store
--   Base/Actions        a method on shared state: a function from the state to the state that it leaves,
--                       on errors too, beside its result
--   Base                Boolean tests, lists, results and texts
--   Examples            the records on which the theorems are tried
--
-- How the code is carried over. A struct is a record and an enum a data type with the source's names. A
-- method on `&mut self` is a function from the record to the record that it leaves behind, paired with
-- its result, so that an error keeps what was written before it. A call of the `?` operator is a bind of
-- Result. A u32 counter is a number whose sum is taken modulo 2 ^ 32, as in an optimised build, where
-- an overflow wraps. A String is the list of its code points; trim, to_ascii_lowercase, contains and
-- the other methods are functions on that list. A number is printed with one unit of fuel more than
-- its value, which exceeds the count of its digits, and a hash of 64 bits with the width 16 of its format
-- string. An enum without fields is compared by a function by clauses. serde_json is the parameter
-- to_vec of the digest module. A BTreeMap is an association list in the order of its keys, a HashMap one
-- whose order nothing reads, both with one entry for each key.
--
-- Not modelled: the relay of the outbox, the read services and their queries
-- (crates/application), the source and the publisher of the outbox (crates/infra), the jobs,
-- the worker and the API, which call the services; the fixtures of the tests; the serialisation
-- attributes, which are output only. The clock stands still, as the fixed clock of
-- crates/infra/src/time.rs does, and record ids come from the deterministic generator. The
-- handlers run one after the other: a handler awaits at each port call, and the interleavings
-- of transactions are those of Infra/Store.
pub mod Application
pub mod Base
pub mod Contracts
pub mod Domain
pub mod Examples
pub mod Infra
