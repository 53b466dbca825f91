-- ===== src/Store/Dispatcher.antt =====
-- packages/fabric-cqrs/src/utils/dispatcher.ts. A dispatch subscribes to the store and waits: it looks
-- at its slice after each action, its own included.
use fabric_es.Prelude.{String, Bool, ◌&&◌, Option, none, some, List, [], ◌∷◌, same, if◌then◌else◌}
use fabric_es.Store.{State, AnyAction}

-- What a promise that was rejected carries: the name of the call whose result the guard refused, or
-- the type and the error of the slice.
pub data Rejection (E : Type 0) : Type 0 where
  guard_failed : String → Rejection E
  action_failed : String → Option E → Rejection E

pub record HandlerResponse (A E : Type 0) : Type 0 where
  pub status : String
  pub data' : Option A
  pub error : Option (Rejection E)

pub record DispatcherOptions (R A : Type 0) : Type 0 where
  pub name : String
  pub success_action : String
  pub error_action : String
  pub type_guard : Option (R → Bool)
  pub on_success : Option R → Option A

module _ {A E : Type 0} where
  abbrev pub resolved : Option A → HandlerResponse A E
  resolved a = record { status = "OK"; data' = a; error = none }

  abbrev pub rejected : Rejection E → HandlerResponse A E
  rejected e = record { status = "ERROR"; data' = none; error = some e }

module _ {R A E : Type 0} where
  -- The response to a result of the slice.
  unfoldable pub accept : DispatcherOptions R A → Option R → HandlerResponse A E
  accept o result = elim o.type_guard [
    | none ↦ resolved (o.on_success result)
    | some guard ↦ elim result [
      | none ↦ resolved none
      | some r ↦
          if guard r then resolved (o.on_success (some r)) else rejected (guard_failed o.name)
    ]
  ]

  -- The listener, at one state of the slice.
  unfoldable pub settle : DispatcherOptions R A → String → State R E → Option (HandlerResponse A E)
  unfolding accept
  settle o tid s =
      if same s.tx_id (some tid) && same s.type (some o.success_action)
      then some (accept o s.result)
      else if same s.tx_id (some tid) && same s.type (some o.error_action)
      then some (rejected (action_failed o.error_action s.error))
      else none

  -- The response, if any, to a dispatch while these actions arrive; once the promise is settled, the
  -- listener has unsubscribed.
  unfoldable pub dispatcher :
      (State R E → AnyAction R E → State R E)
      → DispatcherOptions R A
      → String
      → State R E
      → List (AnyAction R E)
      → Option (HandlerResponse A E)
  unfolding settle
  dispatcher reducer o tid s [] = none
  dispatcher reducer o tid s (a ∷ as') =
      let rest = dispatcher reducer o tid (reducer s a) as' in
      elim (settle o tid (reducer s a)) [ some r ↦ some r | none ↦ rest ]
