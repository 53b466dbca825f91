-- ===== src/Store/Command/Create.antt =====
-- packages/fabric-cqrs/src/utils: commandCreate.ts, commandGetById.ts with its query and its save,
-- commandGetByEntityId.ts, commandGetByEntityName.ts and commandGetByEntityIdCommitId.ts, as
-- dispatches that the epics of the command slice answer.
use mathlib.Core.Option
use fabric_es.Prelude.{
  ℕ, String, Bool, Option, none, some, List, [], ◌∷◌, ◌++◌, Dict, values, Result, is_some,
  if◌then◌else◌,
}
use fabric_es.Types.{Event, Commit}
use fabric_es.Types.Guards.{is_commit_record}
use fabric_es.Types.Stamps.{add_created_at, add_creator, add_timestamp}
use fabric_es.Types.Tags.{replace_tag}
use fabric_es.Reducer.{Reducer, compute_entity}
use fabric_es.Repository.{Found}
use fabric_es.Services.{Network}
use fabric_es.Store.{Reply, Failure, command_handlers}
use fabric_es.Store.Dispatcher.{HandlerResponse, DispatcherOptions}
use fabric_es.Store.Exchange.{Traffic, dispatch}
use fabric_es.Store.GetById.{command_get_by_id}
use fabric_es.Store.Command.{
  Texts, CreateArgs, Moment, create_success, create_error, query_success, query_error, create_run,
}
use fabric_es.Store.Command.Queries.{
  command_query_by_entity_id_epic, command_query_by_entity_name_epic,
  command_query_by_entity_id_commit_id_epic,
}

abbrev pub CommandTraffic : Type 0 → Type 0
CommandTraffic P = Traffic (Reply (Dict (Commit P))) (Failure (Dict (Commit P)))

abbrev pub CommandResponse : Type 0 → Type 0 → Type 0
CommandResponse P A = HandlerResponse A (Failure (Dict (Commit P)))

abbrev pub first : {A : Type 0} → List A → Option A
first [] = none
first (a ∷ as') = some a

module _ {P : Type 0} where
  abbrev pub no_commit : Commit P
  no_commit = record {
    id = none;
    entity_name = none;
    version = none;
    commit_id = none;
    entity_id = none;
    msp_id = none;
    events = none;
    signed_request = none;
  }

  -- A text in the place of a commit.
  abbrev pub text_entry : String → Option String → Dict (Commit P)
  text_entry key s = if is_some s then (key, no_commit) ∷ [] else []

  -- The entries of a reply, taken as a record of commits: of a status or an error, no field is read.
  abbrev pub entries_of : Reply (Dict (Commit P)) → Dict (Commit P)
  entries_of r = text_entry "error" r.error ++ (text_entry "status" r.status ++ r.body)

  -- `Object.values(result)[0]`
  abbrev pub first_commit : Option (Reply (Dict (Commit P))) → Option (Commit P)
  first_commit none = none
  first_commit (some r) = first (values (entries_of r))

  unfoldable pub is_record_reply : Reply (Dict (Commit P)) → Bool
  unfolding is_commit_record
  is_record_reply r = is_commit_record (entries_of r)

  abbrev pub create_options : String → DispatcherOptions (Reply (Dict (Commit P))) (Commit P)
  create_options name = record {
    name = name;
    success_action = create_success;
    error_action = create_error;
    type_guard = some is_record_reply;
    on_success = first_commit;
  }

  abbrev pub found_options : DispatcherOptions (Reply (Dict (Commit P))) (Reply (Dict (Commit P)))
  found_options = record {
    name = "queryByEntityId";
    success_action = query_success;
    error_action = query_error;
    type_guard = none;
    on_success = λ r. r;
  }

  abbrev pub commits_options :
      String → DispatcherOptions (Reply (Dict (Commit P))) (List (Commit P))
  commits_options name = record {
    name = name;
    success_action = query_success;
    error_action = query_error;
    type_guard = some is_record_reply;
    on_success = Option.map (λ r. values (entries_of r));
  }

module _ {P : Type 0} (network : Network P) (texts : Texts P) (t : CommandTraffic P) where
  open network use {Ledger}

  -- The promise of a save, `none` while it is pending, and the ledger then.
  unfoldable pub dispatch_create :
      String
      → P
      → Moment
      → Moment
      → String
      → CreateArgs P
      → Ledger
      → Option (CommandResponse P (Commit P)) × Ledger
  unfolding create_run
  dispatch_create name no_body moment later enrollment_id args l =
      let (a, l') =
        create_run network texts (some t.token) no_body moment later enrollment_id args l in
      (dispatch command_handlers (create_options name) "[Command] Create" t a, l')

  -- `commandCreate(…)({ enrollmentId, id }).save({ events, signedRequest })` at the time `now`; the
  -- moments are those at which the epics run.
  unfoldable pub command_create :
      String
      → Bool
      → Option String
      → P
      → ℕ
      → Moment
      → Moment
      → String
      → String
      → List (Event P)
      → Option String
      → Ledger
      → Option (CommandResponse P (Commit P)) × Ledger
  unfolding dispatch_create add_created_at add_creator replace_tag
  command_create entity_name is_private_data parent_name no_body now moment later enrollment_id id
        events signed_request =
      dispatch_create "command_create" no_body moment later enrollment_id (record {
        entity_name = entity_name;
        parent_name = parent_name;
        id = id;
        version = 0;
        is_private_data = is_private_data;
        events = replace_tag (add_creator enrollment_id (add_created_at now events));
        signed_request = signed_request;
      })

  -- The `save` that `commandGetById` returns, with the version that it has captured.
  unfoldable pub save_found_version :
      String
      → Bool
      → P
      → ℕ
      → Moment
      → Moment
      → String
      → String
      → ℕ
      → List (Event P)
      → Option String
      → Ledger
      → Option (CommandResponse P (Commit P)) × Ledger
  unfolding dispatch_create add_timestamp replace_tag
  save_found_version entity_name is_private_data no_body now moment later enrollment_id id version
        events signed_request =
      dispatch_create "create" no_body moment later enrollment_id (record {
        entity_name = entity_name;
        parent_name = none;
        id = id;
        version = version;
        is_private_data = is_private_data;
        events = replace_tag (add_timestamp now events);
        signed_request = signed_request;
      })

module _ {P : Type 0} (network : Network P) (t : CommandTraffic P) where
  open network use {Ledger}

  unfoldable pub query_found :
      String → Bool → String → Ledger → Option (CommandResponse P (Reply (Dict (Commit P))))
  unfolding command_query_by_entity_id_epic
  query_found entity_name is_private_data id l =
      dispatch command_handlers found_options "[Command] Query commit by entity id" t
        (command_query_by_entity_id_epic network (some t.token) is_private_data entity_name id l)

  -- `commandGetById`: `none` while its query is pending.
  unfoldable pub find_by_id :
      {D : Type 0} → Reducer P D → String → Bool → String → Ledger → Option (Result (Found D))
  unfolding query_found compute_entity command_get_by_id
  find_by_id reducer entity_name is_private_data id l =
      Option.map (λ r. command_get_by_id reducer (Option.map entries_of r.data'))
        (query_found entity_name is_private_data id l)

  unfoldable pub command_get_by_entity_id :
      String → Bool → String → Ledger → Option (CommandResponse P (List (Commit P)))
  unfolding command_query_by_entity_id_epic
  command_get_by_entity_id entity_name is_private_data id l =
      dispatch command_handlers (commits_options "queryByEntityId")
        "[Command] Query commit by entity id" t
        (command_query_by_entity_id_epic network (some t.token) is_private_data entity_name id l)

  unfoldable pub command_get_by_entity_name :
      String → Bool → Ledger → Option (CommandResponse P (List (Commit P)))
  unfolding command_query_by_entity_name_epic
  command_get_by_entity_name entity_name is_private_data l =
      dispatch command_handlers (commits_options "command_getByEntityName")
        "[Command] Query commit by entityName" t
        (command_query_by_entity_name_epic network (some t.token) is_private_data entity_name l)

  unfoldable pub command_get_by_entity_id_commit_id :
      String → Bool → String → String → Ledger → Option (CommandResponse P (List (Commit P)))
  unfolding command_query_by_entity_id_commit_id_epic
  command_get_by_entity_id_commit_id entity_name is_private_data id commit_id l =
      dispatch command_handlers (commits_options "queryByEntIdCommitId")
        "[Command] Query by entity id and commitId" t
        (command_query_by_entity_id_commit_id_epic network (some t.token) is_private_data
          entity_name id commit_id l)
