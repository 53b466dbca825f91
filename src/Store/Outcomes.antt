-- ===== src/Store/Outcomes.antt =====
-- What a dispatch resolves to, in any interleaving of the actions of other transactions.
use text.Mathlib.TextPositions.{eq_refl}
use fabric_es.Prelude.{
  String, ◌≡◌, refl, Bool, false, ◌&&◌, ◌==◌, eq_iff, Option, none, some, List, [], ◌∷◌, same, All,
  ◌⊎◌, select, lookup, Dict, arith, Option-cases, Bool-cases, inl, inr, ap, sym, ◌∙◌, if◌then◌else◌,
}
use fabric_es.Store.{
  State, AnyAction, initial_state, slice_reducer, command_handlers, query_handlers,
  projection_handlers, reconcile_handlers, get_success_action_handler, get_error_action_handler,
}
use fabric_es.Store.Dispatcher.{
  HandlerResponse, DispatcherOptions, accept, settle, dispatcher, rejected, action_failed,
}

module _ {R E : Type 0} where
  -- The actions of a transaction.
  abbrev pub is_own : String → AnyAction R E → Bool
  is_own tid a = same a.tx_id (some tid)

  -- A type with the success handler or the error handler of that type.
  abbrev pub IsHandler : String × (State R E → AnyAction R E → State R E) → Type 0
  IsHandler (t, f) = (f ≡ get_success_action_handler t) ⊎ (f ≡ get_error_action_handler t)

  lookup-IsHandler :
      (handlers : Dict (State R E → AnyAction R E → State R E)) (t : String)
      (f : State R E → AnyAction R E → State R E)
      → All IsHandler handlers
      → lookup t handlers ≡ some f
      → IsHandler (t, f)
  unfolding lookup
  lookup-IsHandler [] t f h e = cc
  lookup-IsHandler ((j, g) ∷ handlers) t f (h, hs) e = elim (Bool-cases (j == t)) [
    | inl y ↦ let same_handler : g ≡ f = ground arith in rw (← same_handler, ← (eq_iff j t).0 y) h
    | inr n ↦ lookup-IsHandler handlers t f hs (ground arith)
  ]

module _ {R A E : Type 0} where
  -- The first action of the transaction that is of one of the two awaited types decides.
  abbrev pub first_answer :
      DispatcherOptions R A → String → List (AnyAction R E) → Option (HandlerResponse A E)
  first_answer o tid [] = none
  first_answer o tid (a ∷ as') =
      let rest = first_answer o tid as' in
      if is_own tid a && a.type == o.success_action
      then some (accept o a.result)
      else if is_own tid a && a.type == o.error_action
      then some (rejected (action_failed o.error_action a.error))
      else rest

  -- Every type of the slice has a handler of its own, and the slice has the two awaited types.
  pub record IsSlice (handlers : Dict (State R E → AnyAction R E → State R E))
      (o : DispatcherOptions R A) : Type 0 where
    pub handled : All IsHandler handlers
    pub success :
        lookup o.success_action handlers ≡ some (get_success_action_handler o.success_action)
    pub error : lookup o.error_action handlers ≡ some (get_error_action_handler o.error_action)
    pub apart : (o.success_action == o.error_action) ≡ false

module _ {R A E : Type 0} (handlers : Dict (State R E → AnyAction R E → State R E))
    (o : DispatcherOptions R A) (h : IsSlice handlers o) (tid : String) where
  slice_reducer-found :
      (s : State R E) (a : AnyAction R E) (f : State R E → AnyAction R E → State R E)
      → lookup a.type handlers ≡ some f
      → slice_reducer handlers s a ≡ f s a
  unfolding slice_reducer
  slice_reducer-found s a f e = rw (slice_reducer, e) refl

  -- What the listener sees after one action, if it has seen nothing before.
  settle-slice_reducer :
      (s : State R E) (a : AnyAction R E)
      → settle o tid s ≡ none
      → settle o tid (slice_reducer handlers s a) ≡ (
          if is_own tid a && a.type == o.success_action
          then some (accept o a.result)
          else if is_own tid a && a.type == o.error_action
          then some (rejected (action_failed o.error_action a.error))
          else none)
  unfolding settle slice_reducer get_success_action_handler get_error_action_handler
  settle-slice_reducer s a q = elim (Bool-cases (a.type == o.success_action)) [
    | inl y ↦
        let awaited : a.type ≡ o.success_action = (eq_iff a.type o.success_action).0 y in
        let reduced : slice_reducer handlers s a ≡ get_success_action_handler o.success_action s a =
          slice_reducer-found s a _ (ap (λ t. lookup t handlers) awaited ∙ h.success) in
        rw (reduced, y, eq_refl o.success_action) (ground arith)
    | inr n ↦ elim (Bool-cases (a.type == o.error_action)) [
      | inl y ↦
          let awaited : a.type ≡ o.error_action = (eq_iff a.type o.error_action).0 y in
          let reduced : slice_reducer handlers s a ≡ get_error_action_handler o.error_action s a =
            slice_reducer-found s a _ (ap (λ t. lookup t handlers) awaited ∙ h.error) in
          rw (reduced, n, y, eq_refl o.error_action)
            (ground (arith, h.apart, eq_iff o.success_action o.error_action))
      | inr m ↦ elim (Option-cases (lookup a.type handlers)) [
        | inl e ↦ rw (slice_reducer, e, n, m) (ground arith)
        | inr (f, e) ↦ elim (lookup-IsHandler handlers a.type f h.handled e) [
          | inl k ↦ rw (slice_reducer, e, k, n, m) (ground arith)
          | inr k ↦ rw (slice_reducer, e, k, n, m) (ground arith)
        ]
      ]
    ]
  ]

  -- While nothing is settled, a dispatch resolves as the first answer to its own transaction says.
  pub dispatcher_lem :
      (s : State R E) (as' : List (AnyAction R E))
      → settle o tid s ≡ none
      → dispatcher (slice_reducer handlers) o tid s as' ≡ first_answer o tid as'
  unfolding dispatcher
  dispatcher_lem s [] q = refl
  dispatcher_lem s (a ∷ as') q =
      let seen = settle-slice_reducer s a q in
      elim (Option-cases (settle o tid (slice_reducer handlers s a))) [
        | inl e ↦
            rw (dispatcher, e) (dispatcher_lem (slice_reducer handlers s a) as' e ∙ ground arith)
        | inr (r, e) ↦ rw (dispatcher, e) (ground arith)
      ]

  -- Dropping the actions of other transactions changes no answer.
  first_answer-select :
      (as' : List (AnyAction R E))
      → first_answer o tid (select (is_own tid) as') ≡ first_answer o tid as'
  first_answer-select [] = refl
  first_answer-select (a ∷ as') = ground (arith, first_answer-select as')

  -- For a slice with a handler of its own for each of its types, the two awaited types among them
  -- and different, a dispatch that starts in the initial state resolves as the first action of its
  -- own transaction of one of the two types says; so leaving out the actions of all other
  -- transactions changes nothing.
  pub dispatcher-first_answer :
      (as' : List (AnyAction R E))
      → (dispatcher (slice_reducer handlers) o tid initial_state as' ≡ first_answer o tid as')
        × (dispatcher (slice_reducer handlers) o tid initial_state as'
            ≡ dispatcher (slice_reducer handlers) o tid initial_state (select (is_own tid) as'))
  dispatcher-first_answer as' =
      let quiet : settle {E = E} o tid initial_state ≡ none = unfold settle in refl in
      (
        dispatcher_lem initial_state as' quiet,
        dispatcher_lem initial_state as' quiet
            ∙ sym (first_answer-select as')
            ∙ sym (dispatcher_lem initial_state (select (is_own tid) as') quiet),
      )

-- The four slices of the store, each with a handler of its own for each of its types.
module _ (R E : Type 0) where
  pub command_handlers-IsHandler : All (IsHandler {R = R} {E = E}) command_handlers
  unfolding command_handlers
  command_handlers-IsHandler = (
    inl refl,
    (inr refl, (inl refl, (inr refl, (inl refl, (inr refl, (inl refl, (inr refl, tt))))))),
  )

  pub query_handlers-IsHandler : All (IsHandler {R = R} {E = E}) query_handlers
  unfolding query_handlers
  query_handlers-IsHandler = (
    inl refl,
    (
      inr refl,
      (
        inl refl,
        (
          inr refl,
          (
            inl refl,
            (
              inr refl,
              (
                inl refl,
                (
                  inr refl,
                  (
                    inr refl,
                    (
                      inl refl,
                      (inr refl, (inl refl, (inr refl, (inl refl, (inr refl, (inl refl, tt)))))),
                    ),
                  ),
                ),
              ),
            ),
          ),
        ),
      ),
    ),
  )

  pub projection_handlers-IsHandler : All (IsHandler {R = R} {E = E}) projection_handlers
  unfolding projection_handlers
  projection_handlers-IsHandler = (inl refl, (inr refl, (inl refl, (inr refl, tt))))

  pub reconcile_handlers-IsHandler : All (IsHandler {R = R} {E = E}) reconcile_handlers
  unfolding reconcile_handlers
  reconcile_handlers-IsHandler =
      (inl refl, (inl refl, (inl refl, (inr refl, (inr refl, (inr refl, tt))))))
