-- ===== src/Lib.antt =====
-- The verification library of fabric-es (https://github.com/rtang03/fabric-es).
--
-- fabric-es writes the events of domain entities to a Hyperledger Fabric ledger, in commits, and
-- keeps projections of them in Redis: an entity in Redis is the reduction of the events of its
-- commits. A command handler of a domain reads the current state of an entity from a repository,
-- decides on events, and saves them; the query database merges each arriving commit into Redis.
--
-- Files and the code that they model (paths from the root of the repository):
--   Prelude, Prelude/*      JavaScript's values, dictionaries, promises; helpers on lists
--   Types                   packages/fabric-cqrs/src/types/commit.ts
--   Types/Guards            packages/fabric-cqrs/src/utils/typeGuard.ts
--   Types/Stamps            packages/fabric-cqrs/src/utils/add*.ts
--   Types/Tags, Types/Tags/*
--                           packages/fabric-cqrs/src/utils/replaceTag.ts
--   Reducer, Reducer/*      packages/fabric-cqrs/src/types/reducer.ts; Reducer/Group is
--                           packages/fabric-cqrs/src/queryHandler/commitsToGroupByEntityId.ts
--   Redis, Redis/*          packages/fabric-cqrs/src/queryHandler: the client as an interface, the
--                           selectors, createRedisRepository.ts, pipelineExec.ts and
--                           createNotificationCenter.ts (Redis/Notification)
--   QueryDatabase, QueryDatabase/*
--                           packages/fabric-cqrs/src/queryHandler/createQueryDatabase.ts; the
--                           operations on entities are in Entities, the proofs in the others
--   Repository              what command handlers use of packages/fabric-cqrs/src/types/repository.ts
--   Repository/Mock         packages/fabric-cqrs/src/repository/mockRepository.ts
--   Domain, Domain/*        the domains of packages/model-loan, packages/model-document and
--                           packages/gateway-lib/src/common/model, and the access control list of
--                           packages/gateway-lib/src/utils/aclService.ts (Domain/Acl)
--   Store, Store/*          packages/fabric-cqrs/src/store: the slices of the Redux store;
--                           packages/fabric-cqrs/src/utils: dispatcher.ts (Store/Dispatcher),
--                           getPaginated.ts (Store/Pages), commandGetById.ts and queryGetById.ts
--                           (Store/GetById); store/query/epic and store/projection/epic
--                           (Store/Epics), a dispatch that an epic answers (Store/Exchange), and
--                           store/reconcile/epic (Store/Reconcile)
--   Services                packages/fabric-cqrs/src/services: submit*.ts and evaluate.ts
--   Store/Command, Store/Command/*
--                           packages/fabric-cqrs/src/store/command/epic, and commandCreate.ts and
--                           commandGet*.ts of packages/fabric-cqrs/src/utils (Store/Command/Create)
--   QueryHandler, QueryHandler/*
--                           packages/fabric-cqrs/src/queryHandler/createQueryHandler.ts: the listener
--                           of the event hub, reconcile, and the operations of the query slice
--   Schema, Schema/*        packages/gateway-lib/src/utils/schemaUtils.ts
--   Examples, Examples/*    tests, and instances of the theorems at concrete inputs
--
-- How the code is read. An optional or nullable field is an Option; an absent payload of an event
-- is a payload without fields. A function that awaits and may throw is a function from a database
-- to a result and a database; what was written before a throw stays written. Names are those of the
-- source in snake_case. Errors carry the fixed part of their message. Keys of objects are strings
-- in insertion order (JavaScript moves keys that look like array indices to the front). An event
-- has a type, a life cycle and a payload; the payload has the library's fields beside a part that
-- belongs to the domain. The clock, JSON, the texts of numbers and dates, and the Redis client are
-- parameters, and so are the ledger and what the Fabric SDK answers. Loops are structural recursion
-- on lists. Fuel is used for the actions of a reconciliation alone, which takes three epics at
-- most; the loop of parseType has a counter of its own in the source.
--
-- Not modelled: the Fabric network and its chaincode (the ledger is a parameter), the RediSearch
-- queries, GraphQL schemas, the resolvers but those of access control, the gateways, account
-- enrolment, DID documents, logging and the tests.
pub mod Prelude
pub mod Types
pub mod Reducer
pub mod Redis
pub mod QueryDatabase
pub mod Repository
pub mod Domain
pub mod Examples
pub mod Services
pub mod Schema
pub mod Store
pub mod QueryHandler
