-- ===== src/Store/Epics.antt =====
-- packages/fabric-cqrs/src/store/query/epic and packages/fabric-cqrs/src/store/projection/epic: each
-- takes the payload of its action, calls the query database and answers with one action.
use mathlib.Core.Option
use fabric_es.Prelude.{
  ℕ, String, Bool, true, false, ◌==◌, Option, none, some, List, [], ◌∷◌, Result, ok, throw, Error,
  Dict, lookup, text_of, truthy, if◌then◌else◌,
}
use fabric_es.Prelude.Action.{Action}
use fabric_es.Types.{Commit}
use fabric_es.Reducer.{Reducer}
use fabric_es.Redis.{Codec, Client}
use fabric_es.Redis.Selectors.{OutputCommit, ◌+++◌}
use fabric_es.Redis.Repository.{EntityRepo}
use fabric_es.Redis.Notification.{
  Response, Fields, clear_notification, clear_notifications, get_notification,
  get_notifications_by_fields,
}
use fabric_es.QueryDatabase.{
  Batch, delete_commit_by_entity_id, delete_commit_by_entity_name, query_commit_by_entity_id,
  query_commit_by_entity_name, merge_commit, merge_commit_batch,
}
use fabric_es.QueryDatabase.Entities.{
  Written, Merged, delete_entity_by_entity_name, merge_entity, merge_entity_batch,
}
use fabric_es.Store.{AnyAction, get_success_action, get_error_action}

-- What an error action of these slices carries: a text of the epic, the errors of a response, a
-- caught error, or the text of one.
pub data Cause : Type 0 where
  note : String → Cause
  errors : Option (List (Option Error)) → Cause
  failures : List (Option String) → Cause
  failed_ids : Option (List String) → Cause
  caught : Error → Cause
  message_of : Error → Cause

-- What a success action of the query slice carries.
pub data QueryResult (P : Type 0) : Type 0 where
  keys : List (Option String) → QueryResult P
  cleared : List String → QueryResult P
  scanned : Option (List String) → QueryResult P
  count : ℕ → QueryResult P
  commits : List (OutputCommit P) → QueryResult P
  flags : List (String × Option String) → QueryResult P

-- The types of the answers: store/query/action.ts and store/projection/action.ts.
abbrev pub clear_success : String
clear_success = "[Query-Db] Clear Notification / Notifications Success"

abbrev pub clear_error : String
clear_error = "[Query-Db] Clear Notification / Notifications Error"

abbrev pub delete_success : String
delete_success = "[Query-Db] Delete Success"

abbrev pub delete_error : String
delete_error = "[Query-Db] Delete Error"

abbrev pub get_success : String
get_success = "[Query-Db] Get Notification / Notifications Success"

abbrev pub get_error : String
get_error = "[Query-Db] Get Notification / Notifications Error"

abbrev pub query_success : String
query_success = "[Query-Db] Query Success"

abbrev pub query_error : String
query_error = "[Query-Db] Query Error"

abbrev pub merge_entity_success : String
merge_entity_success = "[Project] Merge Entity Success"

abbrev pub merge_entity_error : String
merge_entity_error = "[Project] Merge Entity Error"

abbrev pub merge_entity_batch_success : String
merge_entity_batch_success = "[Project] Merge Entity Batch Success"

abbrev pub merge_entity_batch_error : String
merge_entity_batch_error = "[Project] Merge Entity Batch Error"

abbrev pub is_empty : {A : Type 0} → Dict A → Bool
is_empty [] = true
is_empty (e ∷ es) = false

module _ {A R : Type 0} where
  -- `.then(({ data, status, errors }) => …).catch(…)`
  unfoldable pub respond :
      String
      → String
      → (Error → Cause)
      → (A → R)
      → Option String
      → Result (Response A)
      → AnyAction R Cause
  respond success error failing wrap tx_id (throw e) =
      get_error_action error tx_id (some (failing e))
  respond success error failing wrap tx_id (ok r) =
      if r.status == "OK"
      then get_success_action success tx_id (Option.map wrap r.result)
      else get_error_action error tx_id (some (errors r.errors))

module _ {P : Type 0} (tx_id : Option String) where
  -- The answer of `mergeCommitBatch` has its errors beside its data.
  unfoldable pub respond_batch : Result Batch → AnyAction (QueryResult P) Cause
  respond_batch (throw e) =
      get_error_action "[Query-Db] Merge Batch Error" tx_id (some (message_of e))
  respond_batch (ok b) =
      if b.status == "OK"
      then get_success_action "[Query-Db] Merge Batch Success" tx_id (some (keys b.keys))
      else get_error_action "[Query-Db] Merge Batch Error" tx_id (some (failures b.failures))

module _ (tx_id : Option String) where
  abbrev pub batch_fails : Cause → AnyAction (List Written) Cause
  batch_fails e = get_error_action merge_entity_batch_error tx_id (some e)

  unfoldable pub respond_merged : Result Merged → AnyAction (List Written) Cause
  respond_merged (throw e) = batch_fails (caught e)
  respond_merged (ok m) =
      if m.status == "OK"
      then get_success_action merge_entity_batch_success tx_id (some m.written)
      else batch_fails (failed_ids m.errors)

-- A call, and the action that its result becomes.
abbrev pub after : {S A B : Type 0} → Action S A → (Result A → B) → S → B × S
after call f s = let (r, s') = call s in (f r, s')

module _ {P D X : Type 0} (client : Client X) (codec : Codec P) (repos : Dict (EntityRepo P D X))
    (tx_id : Option String) where
  open client use {Db}

  -- store/query/epic
  unfoldable pub clear_notification_epic : Fields → Db → AnyAction (QueryResult P) Cause × Db
  clear_notification_epic f =
      after (clear_notification client f)
        (respond clear_success clear_error message_of cleared tx_id)

  unfoldable pub clear_notifications_epic : Fields → Db → AnyAction (QueryResult P) Cause × Db
  clear_notifications_epic f =
      after (clear_notifications client f)
        (respond clear_success clear_error message_of scanned tx_id)

  unfoldable pub delete_by_entity_name_epic :
      Option String → Db → AnyAction (QueryResult P) Cause × Db
  delete_by_entity_name_epic name =
      after (delete_commit_by_entity_name client codec name)
        (respond delete_success delete_error message_of count tx_id)

  unfoldable pub delete_commit_by_entity_id_epic :
      Option String → Option String → Db → AnyAction (QueryResult P) Cause × Db
  delete_commit_by_entity_id_epic name id =
      after (delete_commit_by_entity_id client codec name id)
        (respond delete_success delete_error message_of count tx_id)

  unfoldable pub delete_entity_by_entity_name_epic :
      Option String → Db → AnyAction (QueryResult P) Cause × Db
  delete_entity_by_entity_name_epic name =
      after (delete_entity_by_entity_name client codec repos name) (
        respond "[Query-Db] Delete entity by EntityName Success"
          "[Query-Db] Delete entity by EntityName Error" message_of count tx_id)

  unfoldable pub get_notification_epic : Fields → Db → AnyAction (QueryResult P) Cause × Db
  get_notification_epic f =
      after (get_notification client f) (respond get_success get_error message_of flags tx_id)

  unfoldable pub get_notifications_epic : Fields → Db → AnyAction (QueryResult P) Cause × Db
  get_notifications_epic f =
      after (λ db. (get_notifications_by_fields client f db, db))
        (respond get_success get_error message_of flags tx_id)

  unfoldable pub merge_commit_epic : Commit P → Db → AnyAction (QueryResult P) Cause × Db
  merge_commit_epic c =
      after (merge_commit client codec c)
        (respond "[Query-Db] Merge Success" "[Query-Db] Merge Error" message_of keys tx_id)

  unfoldable pub merge_commit_batch_epic :
      Option String → Option (Dict (Commit P)) → Db → AnyAction (QueryResult P) Cause × Db
  merge_commit_batch_epic name cs =
      after (merge_commit_batch client codec name cs) (respond_batch tx_id)

  unfoldable pub query_by_entity_id_epic :
      Option String → Option String → Db → AnyAction (QueryResult P) Cause × Db
  query_by_entity_id_epic name id =
      after (query_commit_by_entity_id client codec name id)
        (respond query_success query_error message_of commits tx_id)

  unfoldable pub query_by_entity_name_epic :
      Option String → Db → AnyAction (QueryResult P) Cause × Db
  query_by_entity_name_epic name =
      after (query_commit_by_entity_name client codec name)
        (respond query_success query_error message_of commits tx_id)

  -- store/projection/epic. A missing commit or reducer is answered without a call.
  abbrev merge_fails : String → AnyAction (List Written) Cause
  merge_fails text = get_error_action merge_entity_error tx_id (some (note text))

  unfoldable pub merge_entity_epic :
      Option (Dict (Reducer P D)) → Option (Commit P) → Db → AnyAction (List Written) Cause × Db
  merge_entity_epic (some reducers) (some c) db = elim (lookup (text_of c.entity_name) reducers) [
    | none ↦ (merge_fails ("entityName " +++ text_of c.entity_name +++ ": reducer not found"), db)
    | some reducer ↦
        after (merge_entity client codec repos c (some reducer))
          (respond merge_entity_success merge_entity_error caught (λ ws. ws) tx_id) db
  ]
  merge_entity_epic _ _ db = (merge_fails "invalid input argument", db)

  unfoldable pub merge_entity_batch_epic :
      Option (Dict (Reducer P D))
      → Option String
      → Option (Dict (Commit P))
      → Db
      → AnyAction (List Written) Cause × Db
  merge_entity_batch_epic (some reducers) name (some cs) db =
      if truthy name
      then (if is_empty cs
          then (get_success_action merge_entity_batch_success tx_id none, db)
          else elim (lookup (text_of name) reducers) [
            | none ↦ (
              batch_fails tx_id (note ("entityName " +++ text_of name +++ ": reducer not found")),
              db,
            )
            | some reducer ↦
                after (merge_entity_batch client codec repos name (some cs) (some reducer))
                  (respond_merged tx_id) db
          ])
      else (batch_fails tx_id (note "invalid input argument"), db)
  merge_entity_batch_epic _ name _ db = (batch_fails tx_id (note "invalid input argument"), db)
