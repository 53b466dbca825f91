-- ===== src/QueryHandler.antt =====
-- packages/fabric-cqrs/src/queryHandler/createQueryHandler.ts: what the listener of the event hub makes
-- of an event, and the operations that dispatch to the query slice.
pub mod Arrivals
pub mod Merged
pub mod Reconciling
use fabric_es.Prelude.{
  String, Bool, true, false, ◌==◌, Option, none, some, List, [], ◌∷◌, map, Result, ok, throw, Error,
  new_error, type_error, Dict, any, same, if◌then◌else◌,
}
use fabric_es.Types.{Event, Commit}
use fabric_es.Types.Guards.{is_commit}
use fabric_es.Reducer.{Reducer}
use fabric_es.Redis.{Codec, Client}
use fabric_es.Redis.Repository.{EntityRepo}
use fabric_es.Redis.Notification.{Fields, invalid_arg}
use fabric_es.QueryDatabase.Entities.{Written}
use fabric_es.Store.{AnyAction, query_handlers, projection_handlers}
use fabric_es.Store.Dispatcher.{HandlerResponse, DispatcherOptions}
use fabric_es.Store.Exchange.{Traffic, plain_options, dispatch}
use fabric_es.Store.Epics.{
  Cause, QueryResult, clear_success, clear_error, get_success, get_error, merge_entity_success,
  merge_entity_error, delete_success, delete_error, clear_notification_epic,
  clear_notifications_epic, get_notifications_epic, delete_commit_by_entity_id_epic,
  delete_by_entity_name_epic, delete_entity_by_entity_name_epic, merge_entity_epic, query_success,
  query_error, query_by_entity_id_epic,
}

-- An event of the contract listener.
pub record ContractEvent : Type 0 where
  pub event_name : String
  pub payload : String

-- What is published: an arrived commit with the types of its events and the key of its entity, or the
-- response of a merge that failed.
pub data Message (P : Type 0) : Type 0 where
  commit_arrived : Commit P → List String → Option String → Message P
  system_event : HandlerResponse (List Written) Cause → Message P

-- What the listener closes over. `parse` is `JSON.parse` of the payload, into a value that has the
-- fields of a commit, if it does not throw; `pub_sub` is `publish` of the given engine.
pub record Hub (P : Type 0) : Type 0 where
  pub is_reconciled : Bool
  pub entity_names : List String
  pub parse : String → Option (Commit P)
  pub pub_sub : Option (Message P → Result (Unit {0}))

-- How a call of the listener ends, `none` while its promise is pending, and what it has published.
pub record Reaction (P : Type 0) : Type 0 where
  pub ends : Option (Result (Unit {0}))
  pub published : List (Message P)

abbrev pub first_key : List Written → Option String
first_key [] = none
first_key (w ∷ ws) = w.key

-- `entityNames.includes(name)`
abbrev pub includes_name : List String → Option String → Bool
includes_name names name = any (λ n. same (some n) name) names

module _ {P : Type 0} where
  -- `return`, with nothing published.
  abbrev pub quiet : Reaction P
  quiet = record { ends = some (ok tt); published = [] }

  abbrev fails : Error → Reaction P
  fails e = record { ends = some (throw e); published = [] }

  -- What follows the merge. A failure to publish a commit is caught, one to publish an event is not.
  unfoldable pub publish_result :
      Hub P → Commit P → HandlerResponse (List Written) Cause → Reaction P
  publish_result hub c r = elim hub.pub_sub [
    | none ↦ quiet
    | some publish ↦
        if r.status == "OK"
        then elim c.events [
          | none ↦ fails type_error
          | some es ↦ elim r.data' [
            | none ↦ fails type_error
            | some ws ↦ record {
              ends = some (ok tt);
              published = commit_arrived c (map (λ (e : Event P). e.type) es) (first_key ws) ∷ [];
            }
          ]
        ]
        else record { ends = some (publish (system_event r)); published = system_event r ∷ [] }
  ]

abbrev pub merge_options : DispatcherOptions (List Written) (List Written)
merge_options = plain_options "merge_one_entity" merge_entity_success merge_entity_error

-- `create`, `command_deleteByEntityId` and `command_getByEntityName`: the guard before the command.
unfoldable pub with_entity_name : {A : Type 0} → List String → String → A → Result A
with_entity_name names name command =
    if includes_name names (some name) then ok command else throw invalid_arg

module _ {P D X : Type 0} (client : Client X) (codec : Codec P)
    (repos : Dict (EntityRepo P D X)) where
  open client use {Db}

  -- The dispatch `merge_one_entity`.
  unfoldable pub merge_one_entity :
      Option (Dict (Reducer P D))
      → Traffic (List Written) Cause
      → Commit P
      → Db
      → Option (HandlerResponse (List Written) Cause) × Db
  merge_one_entity reducers t c db =
      let (answer, db') =
        merge_entity_epic client codec repos (some t.token) reducers (some c) db in
      (dispatch projection_handlers merge_options "[Project] Merge Entity" t answer, db')

  unfoldable pub merge_arrived :
      Hub P
      → Option (Dict (Reducer P D))
      → Traffic (List Written) Cause
      → Commit P
      → Db
      → Reaction P × Db
  merge_arrived hub reducers t c db =
      let (response, db') = merge_one_entity reducers t c db in
      (
        elim response [
          | none ↦ record { ends = none; published = [] }
          | some r ↦ publish_result hub c r
        ],
        db',
      )

  -- The listener of `subscribeHub`.
  unfoldable pub on_event :
      Hub P
      → Option (Dict (Reducer P D))
      → Traffic (List Written) Cause
      → ContractEvent
      → Db
      → Reaction P × Db
  on_event hub reducers t e db =
      if hub.is_reconciled
      then (if e.event_name == "createCommit"
          then elim (hub.parse e.payload) [
            | none ↦ (quiet, db)
            | some c ↦
                if is_commit c
                then (if includes_name hub.entity_names c.entity_name
                    then merge_arrived hub reducers t c db
                    else (quiet, db))
                else (quiet, db)
          ]
          else (quiet, db))
      else (quiet, db)

  -- A dispatch to the query slice and the epic that answers it.
  abbrev pub ask :
      String
      → String
      → String
      → String
      → Traffic (QueryResult P) Cause
      → (Option String → Db → AnyAction (QueryResult P) Cause × Db)
      → Db
      → Option (HandlerResponse (QueryResult P) Cause) × Db
  ask name success error type t epic db =
      let (answer, db') = epic (some t.token) db in
      (dispatch query_handlers (plain_options name success error) type t answer, db')

  unfoldable pub query_clear_notification :
      Fields
      → Traffic (QueryResult P) Cause
      → Db
      → Option (HandlerResponse (QueryResult P) Cause) × Db
  query_clear_notification f t =
      ask "query:clearNotification" clear_success clear_error "[Query-Db] Clear notification" t
        (λ tx. clear_notification_epic client codec repos tx f)

  unfoldable pub query_clear_notifications :
      Fields
      → Traffic (QueryResult P) Cause
      → Db
      → Option (HandlerResponse (QueryResult P) Cause) × Db
  query_clear_notifications f t =
      ask "query:clearNotifications" clear_success clear_error "[Query-Db] Clear notifications" t
        (λ tx. clear_notifications_epic client codec repos tx f)

  -- The source dispatches `getNotifications` here too.
  unfoldable pub query_get_notification :
      Fields
      → Traffic (QueryResult P) Cause
      → Db
      → Option (HandlerResponse (QueryResult P) Cause) × Db
  query_get_notification f t =
      ask "query:getNotification" get_success get_error "[Query-Db] Get notifications" t
        (λ tx. get_notifications_epic client codec repos tx f)

  unfoldable pub query_get_notifications :
      Fields
      → Traffic (QueryResult P) Cause
      → Db
      → Option (HandlerResponse (QueryResult P) Cause) × Db
  query_get_notifications f t =
      ask "query:getNotifications" get_success get_error "[Query-Db] Get notifications" t
        (λ tx. get_notifications_epic client codec repos tx f)

  unfoldable pub query_delete_entity_by_entity_name :
      Option String
      → Traffic (QueryResult P) Cause
      → Db
      → Option (HandlerResponse (QueryResult P) Cause) × Db
  query_delete_entity_by_entity_name name t =
      ask "query:deleteEntityByEntityName" "[Query-Db] Delete entity by EntityName Success"
        "[Query-Db] Delete entity by EntityName Error" "[Query-Db] Delete entity by EntityName" t
        (λ tx. delete_entity_by_entity_name_epic client codec repos tx name)

  -- utils/queryDeleteCommitByEntityId.ts, utils/queryDeleteCommitByEntityName.ts and
  -- utils/queryGetCommitByEntityId.ts
  unfoldable pub query_delete_commit_by_entity_id :
      Option String
      → Option String
      → Traffic (QueryResult P) Cause
      → Db
      → Option (HandlerResponse (QueryResult P) Cause) × Db
  query_delete_commit_by_entity_id name id t =
      ask "deleteCommitByEntityId" delete_success delete_error
        "[Query-Db] Delete commits by entityId" t
        (λ tx. delete_commit_by_entity_id_epic client codec repos tx name id)

  unfoldable pub query_delete_commit_by_entity_name :
      Option String
      → Traffic (QueryResult P) Cause
      → Db
      → Option (HandlerResponse (QueryResult P) Cause) × Db
  query_delete_commit_by_entity_name name t =
      ask "deleteByEntityName" delete_success delete_error "[Query-Db] Delete commits by EntityName"
        t (λ tx. delete_by_entity_name_epic client codec repos tx name)

  unfoldable pub query_get_commit_by_entity_id :
      Option String
      → Option String
      → Traffic (QueryResult P) Cause
      → Db
      → Option (HandlerResponse (QueryResult P) Cause) × Db
  query_get_commit_by_entity_id name id t =
      ask "getCommitByid" query_success query_error "[Query-Db] Query commit By entityId" t
        (λ tx. query_by_entity_id_epic client codec repos tx name id)
