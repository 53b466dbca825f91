-- ===== src/Store/Command.antt =====
-- packages/fabric-cqrs/src/store/command/epic: each takes the payload of its action, calls the network
-- and answers with one action; an action of a private entity that has a parent is answered by another,
-- which the epic of track answers.
pub mod Create
pub mod Answers
pub mod Saving
pub mod Reading
pub mod Tracking
pub mod Queries
use fabric_es.Prelude.{
  ℕ, String, Bool, true, false, not, Option, none, some, List, [], ◌∷◌, Dict, same, truthy, text_of,
  if◌then◌else◌,
}
use fabric_es.Types.{Event, Commit, Payload, track_event}
use fabric_es.Types.Stamps.{add_created_at}
use fabric_es.Types.Tags.{replace_tag}
use fabric_es.Services.{Network, submit, submit_private_data, evaluate}
use fabric_es.Store.{
  AnyAction, Reply, Failure, network_error, bad_reply, dispatch_result, get_success_action,
  get_error_action,
}

-- store/command/action.ts
abbrev pub create_success : String
create_success = "[Command] Create Success"

abbrev pub create_error : String
create_error = "[Command] Create Error"

abbrev pub delete_success : String
delete_success = "[Command] Delete Success"

abbrev pub delete_error : String
delete_error = "[Command] Delete Error"

abbrev pub query_success : String
query_success = "[Command] Query Success"

abbrev pub query_error : String
query_error = "[Command] Query Error"

-- What the code takes from JavaScript: `JSON.stringify` of events, and `toString` of a number.
pub record Texts (P : Type 0) : Type 0 where
  pub stringify : List (Event P) → String
  pub show : ℕ → String

-- The `args` of the action CREATE.
pub record CreateArgs (P : Type 0) : Type 0 where
  pub entity_name : String
  pub parent_name : Option String
  pub id : String
  pub version : ℕ
  pub is_private_data : Bool
  pub events : List (Event P)
  pub signed_request : Option String

-- The clock, as a time and as the id of a commit, when an epic runs.
pub record Moment : Type 0 where
  pub time : ℕ
  pub commit_id : String

abbrev pub CommandAction : Type 0 → Type 0
CommandAction P = AnyAction (Reply (Dict (Commit P))) (Failure (Dict (Commit P)))

-- What the epic of CREATE emits: an answer, or the action TRACK with these `args`.
pub data Emitted (P : Type 0) : Type 0 where
  answer : CommandAction P → Emitted P
  track : CreateArgs P → Emitted P

module _ {P : Type 0} where
  -- The events of TRACK: one, with the id and the name of the private entity.
  unfoldable pub track_events : P → ℕ → String → String → List (Event P)
  unfolding add_created_at replace_tag
  track_events no_body now id entity_name = replace_tag (
      add_created_at now (
        record {
          type = track_event;
          life_cycle = none;
          payload = record {
            body = no_body;
            id = some id;
            entity_name = some entity_name;
            tag = none;
            creator = none;
            created = none;
            ts = none;
          };
        }
        ∷ []))

module _ {P : Type 0} (network : Network P) (texts : Texts P) (tx_id : Option String) where
  open network use {Ledger}

  -- A `getNetwork` that has failed, with this error, is answered at once.
  abbrev pub if_connected :
      {B : Type 0} → (CommandAction P → B) → Option String → B × Ledger → Ledger → B × Ledger
  if_connected wrap (some e) run l =
      (wrap (get_error_action create_error tx_id (some (network_error (some e)))), l)
  if_connected wrap none run l = run

  -- `submit$(…).pipe(dispatchResult(…))`
  abbrev pub submit_create : Moment → List (Option String) → Ledger → CommandAction P × Ledger
  submit_create moment args l =
      let (reply, l') = submit network moment.commit_id "eventstore:createCommit" args l in
      (dispatch_result tx_id create_success create_error reply, l')

  unfoldable pub track_epic : P → Moment → String → CreateArgs P → Ledger → CommandAction P × Ledger
  unfolding track_events
  track_epic no_body moment enrollment_id args l =
      if_connected (λ a. a) (network.get_network enrollment_id true l)
        (submit_create moment
          (args.parent_name
            ∷ some args.id
            ∷ some (texts.show args.version)
            ∷ some (texts.stringify (track_events no_body moment.time args.id args.entity_name))
            ∷ [])
          l)
        l

  -- The `map` of the private branch.
  unfoldable pub private_result : CreateArgs P → Reply (Dict (Commit P)) → Emitted P
  private_result args r =
      if truthy r.error
      then answer (get_error_action create_error tx_id (some (network_error r.error)))
      else if same r.status (some "ERROR")
      then answer (get_error_action create_error tx_id (some (bad_reply r)))
      else if truthy args.parent_name
      then track
          (record args { version = 0; is_private_data = false; events = []; signed_request = none })
      else answer (get_success_action create_success tx_id (some r))

  unfoldable pub submit_created : Moment → CreateArgs P → Ledger → Emitted P × Ledger
  submit_created moment args l =
      let (a, l') =
        submit_create moment
          (some args.entity_name
            ∷ some args.id
            ∷ some (texts.show args.version)
            ∷ some (texts.stringify args.events)
            ∷ some (if truthy args.signed_request then text_of args.signed_request else "")
            ∷ [])
          l in
      (answer a, l')

  unfoldable pub submit_created_private : Moment → CreateArgs P → Ledger → Emitted P × Ledger
  unfolding private_result
  submit_created_private moment args l =
      let (reply, l') =
        submit_private_data network moment.commit_id "privatedata:createCommit"
          (some args.entity_name ∷ some args.id ∷ some (texts.show args.version) ∷ [])
          (some (texts.stringify args.events)) l in
      (private_result args reply, l')

  unfoldable pub create_epic : Moment → String → CreateArgs P → Ledger → Emitted P × Ledger
  create_epic moment enrollment_id args l =
      if_connected answer (network.get_network enrollment_id (not args.is_private_data) l)
        (if args.is_private_data
          then submit_created_private moment args l
          else submit_created moment args l)
        l

  abbrev pub continue_with :
      (CreateArgs P → Ledger → CommandAction P × Ledger)
      → Emitted P × Ledger
      → CommandAction P × Ledger
  continue_with run (answer a, l) = (a, l)
  continue_with run (track args, l) = run args l

  -- CREATE until an action answers, with the moments of the two epics.
  unfoldable pub create_run :
      P → Moment → Moment → String → CreateArgs P → Ledger → CommandAction P × Ledger
  create_run no_body moment later enrollment_id args l =
      continue_with (track_epic no_body later enrollment_id)
        (create_epic moment enrollment_id args l)
