-- ===== src/Store.antt =====
-- packages/fabric-cqrs/src/store: the slices of the Redux store and their actions. A slice keeps the
-- outcome of the last transaction that has ended.
pub mod Dispatcher
pub mod Outcomes
pub mod Pages
pub mod GetById
pub mod Exchange
pub mod Epics
pub mod Reconcile
pub mod Command
use fabric_es.Prelude.{
  String, Bool, ◌==◌, Option, none, some, List, [], ◌∷◌, Dict, lookup, truthy, same, if◌then◌else◌,
}

-- types/state.ts
pub record State (R E : Type 0) : Type 0 where
  pub tx_id : Option String
  pub type : Option String
  pub result : Option R
  pub error : Option E

-- An action, with those fields of its payload that reducers read.
pub record AnyAction (R E : Type 0) : Type 0 where
  pub type : String
  pub tx_id : Option String
  pub result : Option R
  pub error : Option E

module _ {R E : Type 0} where
  abbrev pub initial_state : State R E
  initial_state = record { tx_id = none; type = none; result = none; error = none }

  -- store/utils/getActionHandlers.ts
  unfoldable pub get_success_action_handler : String → State R E → AnyAction R E → State R E
  get_success_action_handler type s a = record {
    tx_id = a.tx_id;
    type = some type;
    result = a.result;
    error = none;
  }

  unfoldable pub get_error_action_handler : String → State R E → AnyAction R E → State R E
  get_error_action_handler type s a = record {
    tx_id = a.tx_id;
    type = some type;
    result = none;
    error = a.error;
  }

  -- store/utils/getSuccessAction.ts and getErrorAction.ts
  abbrev pub get_success_action : String → Option String → Option R → AnyAction R E
  get_success_action type tx_id result = record {
    type = type;
    tx_id = tx_id;
    result = result;
    error = none;
  }

  abbrev pub get_error_action : String → Option String → Option E → AnyAction R E
  get_error_action type tx_id error = record {
    type = type;
    tx_id = tx_id;
    result = none;
    error = error;
  }

  -- store/utils/getReducer.ts
  unfoldable pub slice_reducer :
      Dict (State R E → AnyAction R E → State R E) → State R E → AnyAction R E → State R E
  unfolding lookup
  slice_reducer handlers s a = elim (lookup a.type handlers) [ none ↦ s | some f ↦ f s a ]

  abbrev succeeds : String → String × (State R E → AnyAction R E → State R E)
  succeeds type = (type, get_success_action_handler type)

  abbrev fails : String → String × (State R E → AnyAction R E → State R E)
  fails type = (type, get_error_action_handler type)

  -- store/command/reducer.ts
  unfoldable pub command_handlers : Dict (State R E → AnyAction R E → State R E)
  unfolding get_success_action_handler get_error_action_handler
  command_handlers =
      succeeds "[Command] Create Success"
      ∷ fails "[Command] Create Error"
      ∷ succeeds "[Command] Delete Success"
      ∷ fails "[Command] Delete Error"
      ∷ succeeds "[Command] Query Success"
      ∷ fails "[Command] Query Error"
      ∷ succeeds "[Entity-C] Track Success"
      ∷ fails "[Entity-C] Track Error"
      ∷ []

  -- store/query/reducer.ts
  unfoldable pub query_handlers : Dict (State R E → AnyAction R E → State R E)
  unfolding get_success_action_handler get_error_action_handler
  query_handlers =
      succeeds "[Query-Db] Merge Success"
      ∷ fails "[Query-Db] Merge Error"
      ∷ succeeds "[Query-Db] Merge Batch Success"
      ∷ fails "[Query-Db] Merge Batch Error"
      ∷ succeeds "[Query-Db] Delete Success"
      ∷ fails "[Query-Db] Delete Error"
      ∷ succeeds "[Query-Db] Query Success"
      ∷ fails "[Query-Db] Query Error"
      ∷ fails "[Query-Db] Search Error"
      ∷ succeeds "[Query-Db] Search Success"
      ∷ fails "[Query-Db] Get Notification / Notifications Error"
      ∷ succeeds "[Query-Db] Get Notification / Notifications Success"
      ∷ fails "[Query-Db] Clear Notification / Notifications Error"
      ∷ succeeds "[Query-Db] Clear Notification / Notifications Success"
      ∷ fails "[Query-Db] Delete entity by EntityName Error"
      ∷ succeeds "[Query-Db] Delete entity by EntityName Success"
      ∷ []

  -- store/projection/reducer.ts
  unfoldable pub projection_handlers : Dict (State R E → AnyAction R E → State R E)
  unfolding get_success_action_handler get_error_action_handler
  projection_handlers =
      succeeds "[Project] Merge Entity Success"
      ∷ fails "[Project] Merge Entity Error"
      ∷ succeeds "[Project] Merge Entity Batch Success"
      ∷ fails "[Project] Merge Entity Batch Error"
      ∷ []

  -- store/reconcile/reducer.ts
  unfoldable pub reconcile_handlers : Dict (State R E → AnyAction R E → State R E)
  unfolding get_success_action_handler get_error_action_handler
  reconcile_handlers =
      succeeds "[Entity] Reconcile Success"
      ∷ succeeds "[Entity] Merge commits Success"
      ∷ succeeds "[Entity] Merge commits into entity Success"
      ∷ fails "[Entity] Reconcile Error"
      ∷ fails "[Entity] Merge commits Error"
      ∷ fails "[Entity] Merge commits into entity Error"
      ∷ []

-- What a network call answers.
pub record Reply (B : Type 0) : Type 0 where
  pub error : Option String
  pub status : Option String
  pub body : B

-- What an error action carries: the network's error, or the whole reply.
pub data Failure (B : Type 0) : Type 0 where
  network_error : Option String → Failure B
  bad_reply : Reply B → Failure B

-- store/utils/dispatchResult.ts, with the types of its two actions.
module _ {B : Type 0} where
  unfoldable pub dispatch_result :
      Option String → String → String → Reply B → AnyAction (Reply B) (Failure B)
  dispatch_result tx_id success error r =
      if truthy r.error
      then get_error_action error tx_id (some (network_error r.error))
      else if truthy r.status
      then (if same r.status (some "ERROR")
          then get_error_action error tx_id (some (bad_reply r))
          else if same r.status (some "SUCCESS")
          then get_success_action success tx_id (some r)
          else get_success_action success tx_id (some r))
      else get_success_action success tx_id (some r)
