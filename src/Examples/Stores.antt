-- ===== src/Examples/Stores.antt =====
-- Dispatches, pages and reads at concrete inputs.
use fabric_es.Prelude.{
  ℕ, String, ◌≡◌, refl, ◌<◌, ◌≤◌, Option, none, some, List, [], ◌∷◌, ◌++◌, ok, select, arith, ltb,
  length, lookup,
}
use fabric_es.Store.{
  AnyAction, initial_state, slice_reducer, command_handlers, get_success_action, get_error_action,
}
use fabric_es.Store.Dispatcher.{DispatcherOptions, dispatcher}
use fabric_es.Store.Outcomes.{
  IsSlice, is_own, first_answer, command_handlers-IsHandler, dispatcher-first_answer,
}
use fabric_es.Store.Pages.{page_of, get_paginated-progress, drop}
use fabric_es.Store.GetById.{command_get_by_id, query_get_by_id, get_by_id-IsTracked}
use fabric_es.Types.{Event}
use fabric_es.Reducer.{Entity, get_reducer}
use fabric_es.Reducer.Compute.{IsTracked}
use fabric_es.Examples.Reductions.{keep, event, commit}

-- `create` waits for its success or its error.
abbrev creating : DispatcherOptions String String
creating = record {
  name = "create";
  success_action = "[Command] Create Success";
  error_action = "[Command] Create Error";
  type_guard = none;
  on_success = λ r. r;
}

creating-IsSlice : IsSlice {R = String} {E = String} command_handlers creating
unfolding command_handlers lookup
creating-IsSlice = record {
  handled = command_handlers-IsHandler String String;
  success = refl;
  error = refl;
  apart = refl;
}

-- Another transaction fails and a query of the same transaction succeeds before the create does.
abbrev arrivals : List (AnyAction String String)
arrivals =
    get_error_action "[Command] Create Error" (some "t2") (some "no")
    ∷ get_success_action "[Command] Query Success" (some "t1") none
    ∷ get_success_action "[Command] Create Success" (some "t1") (some "done")
    ∷ []

dispatcher-first_answer_example :
    (dispatcher (slice_reducer command_handlers) creating "t1" initial_state arrivals
      ≡ first_answer creating "t1" arrivals)
    × (dispatcher (slice_reducer command_handlers) creating "t1" initial_state arrivals
        ≡ dispatcher
            (slice_reducer command_handlers)
            creating
            "t1"
            initial_state
            (select (is_own "t1") arrivals))
dispatcher-first_answer_example =
    dispatcher-first_answer command_handlers creating creating-IsSlice "t1" arrivals

abbrev words : List String
words = "a" ∷ "b" ∷ "c" ∷ []

get_paginated-progress_example :
    (next : ℕ) × ((page_of words 1 5).cursor ≡ some next)
    × (1 < next)
    × (next ≤ length words)
    × ((page_of words 1 5).items ++ drop next words ≡ drop 1 words)
    × ((page_of words 1 5).has_more ≡ ltb next (length words))
get_paginated-progress_example = get_paginated-progress words 1 5 (omega arith) (omega arith)

abbrev history : List (Event String)
history = event "Created" "a" 3 ∷ []

abbrev found : Entity String
found = record {
  id = some "i1";
  domain = "a";
  creator = some "admin";
  created = some 3;
  ts = some 3;
  organization = none;
  private_data = none;
}

abbrev reducer : List (Event String) → Option (Entity String)
reducer es = get_reducer keep es none

get_by_id-IsTracked_example :
    (m : Entity String) × IsTracked (commit "Org1MSP" history ∷ []) found m
    × (command_get_by_id reducer (some (("k", commit "Org1MSP" history) ∷ []))
        ≡ ok (record { current_state = some m; version = some 1 }))
    × (query_get_by_id (some reducer) (some (("k", commit "Org1MSP" history) ∷ []))
        ≡ ok (record { current_state = some m; version = some 1 }))
get_by_id-IsTracked_example =
    get_by_id-IsTracked reducer (("k", commit "Org1MSP" history) ∷ []) found refl
      (unfold get_reducer in refl) refl refl
