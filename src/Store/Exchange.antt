-- ===== src/Store/Exchange.antt =====
-- A dispatch to a store in which an epic answers: packages/fabric-cqrs/src/utils/dispatcher.ts together
-- with packages/fabric-cqrs/src/store/store.ts. Each action goes through the reducers first, then to
-- the epics; the action of the epic's answer follows later, after and before those of others.
use text.Mathlib.TextPositions.{eq_refl}
use fabric_es.Prelude.{
  String, ◌≡◌, refl, ◌∙◌, true, false, not, ◌==◌, Option, none, some, List, [], ◌∷◌, ◌++◌, all,
  Dict, arith, if◌then◌else◌,
}
use fabric_es.Store.{State, AnyAction, slice_reducer}
use fabric_es.Store.Dispatcher.{
  HandlerResponse, DispatcherOptions, accept, settle, dispatcher, rejected, action_failed,
}
use fabric_es.Store.Outcomes.{IsSlice, is_own, first_answer, dispatcher_lem}

-- The token of a dispatch, the state of its slice when it starts, and the actions of others that
-- arrive before and after the answer of the epic.
pub record Traffic (R E : Type 0) : Type 0 where
  pub token : String
  pub state : State R E
  pub before : List (AnyAction R E)
  pub after : List (AnyAction R E)

-- A dispatch that takes the result of the slice as it is, without a guard.
abbrev pub plain_options : {R : Type 0} → String → String → String → DispatcherOptions R R
plain_options name success error = record {
  name = name;
  success_action = success;
  error_action = error;
  type_guard = none;
  on_success = λ r. r;
}

module _ {R E : Type 0} where
  -- The action that a dispatch sends; no reducer reads its arguments.
  abbrev pub request : String → String → AnyAction R E
  request type token = record { type = type; tx_id = some token; result = none; error = none }

  -- What the promise of a dispatch resolves to, `none` while it is pending.
  unfoldable pub dispatch :
      {A : Type 0}
      → Dict (State R E → AnyAction R E → State R E)
      → DispatcherOptions R A
      → String
      → Traffic R E
      → AnyAction R E
      → Option (HandlerResponse A E)
  unfolding dispatcher slice_reducer
  dispatch handlers o type t answer =
      dispatcher (slice_reducer handlers) o t.token t.state
        (request type t.token ∷ t.before ++ answer ∷ t.after)

  -- No action of others has the token, and none of its actions is what the slice holds at the start.
  pub record IsForeign {A : Type 0} (o : DispatcherOptions R A) (t : Traffic R E) : Type 0 where
    pub before : all (λ a. not (is_own t.token a)) t.before ≡ true
    pub state : settle {E = E} o t.token t.state ≡ none

  first_answer-foreign :
      {A : Type 0} (o : DispatcherOptions R A) (token : String)
      (before after : List (AnyAction R E))
      → all (λ a. not (is_own token a)) before ≡ true
      → first_answer o token (before ++ after) ≡ first_answer o token after
  first_answer-foreign o token [] after h = refl
  first_answer-foreign o token (a ∷ as') after h =
      ground (arith, first_answer-foreign o token as' after)

  first_answer-unawaited :
      {A : Type 0} (o : DispatcherOptions R A) (token : String) (a : AnyAction R E)
      (as' : List (AnyAction R E))
      → (a.type == o.success_action) ≡ false
      → (a.type == o.error_action) ≡ false
      → first_answer o token (a ∷ as') ≡ first_answer o token as'
  first_answer-unawaited o token a as' s e = rw (s, e) (ground arith)

  -- What the answer of the epic means to the dispatch.
  abbrev pub outcome : {A : Type 0} → DispatcherOptions R A → AnyAction R E → HandlerResponse A E
  outcome o answer =
      if answer.type == o.success_action
      then accept o answer.result
      else rejected (action_failed o.error_action answer.error)

  -- An answer of the transaction of one of the two awaited types.
  pub record IsAnswer {A : Type 0} (o : DispatcherOptions R A) (token : String)
      (answer : AnyAction R E) : Type 0 where
    pub own : answer.tx_id ≡ some token
    pub awaited : (answer.type == o.success_action) ≡ false → (answer.type == o.error_action) ≡ true

  first_answer-IsAnswer :
      {A : Type 0} (o : DispatcherOptions R A) (token : String) (answer : AnyAction R E)
      (as' : List (AnyAction R E))
      → IsAnswer o token answer
      → first_answer o token (answer ∷ as') ≡ some (outcome o answer)
  first_answer-IsAnswer o token answer as' a = rw (a.own, eq_refl token) (ground (arith, a.awaited))

  pub dispatch_lem :
      {A : Type 0} (handlers : Dict (State R E → AnyAction R E → State R E))
      (o : DispatcherOptions R A) (type : String) (t : Traffic R E) (answer : AnyAction R E)
      → IsSlice handlers o
      → IsForeign o t
      → (type == o.success_action) ≡ false
      → (type == o.error_action) ≡ false
      → IsAnswer o t.token answer
      → dispatch handlers o type t answer ≡ some (outcome o answer)
  unfolding dispatch
  dispatch_lem handlers o type t answer h f s e a =
      let rest = answer ∷ t.after in
      dispatcher_lem handlers o h t.token t.state ((request type t.token ∷ t.before) ++ rest)
        f.state
      ∙ first_answer-unawaited o t.token (request type t.token) (t.before ++ rest) s e
      ∙ first_answer-foreign o t.token t.before rest f.before
      ∙ first_answer-IsAnswer o t.token answer t.after a
