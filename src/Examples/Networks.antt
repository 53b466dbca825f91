-- ===== src/Examples/Networks.antt =====
-- The command side over a ledger in memory.
use text.Mathlib.TextPositions.{eq_refl}
use fabric_es.Prelude.{
  ℕ, suc, String, ◌≡◌, refl, sym, ap, true, false, ◌==◌, ◌&&◌, none, some, List, [], ◌∷◌, ◌++◌,
  Dict, length, all, ok, values, if◌then◌else◌,
}
use fabric_es.Types.{Event, Commit}
use fabric_es.Types.Stamps.{add_created_at, add_creator}
use fabric_es.Types.Tags.{replace_tag}
use fabric_es.Types.Tags.Cleaning.{is_clean, tag_of, replace_tag-is_clean}
use fabric_es.Reducer.{Reducer, Entity}
use fabric_es.Domain.Handlers.{fresh, plain}
use fabric_es.Services.{Network}
use fabric_es.Store.{Reply, initial_state, dispatch_result}
use fabric_es.Store.Dispatcher.{resolved, settle}
use fabric_es.Store.GetById.{nothing_found}
use fabric_es.Reducer.Compute.{IsTracked}
use fabric_es.Store.Command.Reading.{
  command_create-find_by_id, dispatch_create-ends, find_by_id-unavailable,
}
use fabric_es.Store.Command.Tracking.{command_create-tracked}
use fabric_es.Store.Exchange.{IsForeign, outcome}
use fabric_es.Store.Command.{Texts, Moment, CreateArgs, create_success, create_error}
use fabric_es.Store.Command.Create.{
  CommandTraffic, CommandResponse, dispatch_create, create_options, found_options, command_create,
  find_by_id,
}
use fabric_es.Store.Command.Saving.{IsEventstore}
use fabric_es.Types.Guards.{is_commit_record}
use fabric_es.Examples.Memory.{tally}

abbrev added : List (Event ℕ)
added = plain "Added" none 1 ∷ []

abbrev stored : List (Event ℕ)
stored = replace_tag (add_creator "u1" (add_created_at 7 added))

abbrev commit_of : String → String → String → String → Commit ℕ
commit_of name id commit_id signed = record {
  id = some id;
  entity_name = some name;
  version = some 0;
  commit_id = some commit_id;
  entity_id = some id;
  msp_id = some "Org1MSP";
  events = some stored;
  signed_request = some signed;
}

abbrev Memory : Type 0
Memory = String → String → Dict (Commit ℕ)

abbrev no_reply : Reply (Dict (Commit ℕ))
no_reply = record { error = some "unknown function"; status = none; body = [] }

abbrev empty_reply : Reply (Dict (Commit ℕ))
empty_reply = record { error = none; status = none; body = [] }

abbrev append_entry : Memory → String → String → String × Commit ℕ → Memory
append_entry l name id entry n i = if (name == n) && (id == i) then l n i ++ entry ∷ [] else l n i

abbrev texts : Texts ℕ
texts = record { stringify = λ es. "[…]"; show = λ n. tally (suc n) }

abbrev reply_to : List String → Memory → Reply (Dict (Commit ℕ)) × Memory
reply_to (name ∷ id ∷ version ∷ json ∷ commit_id ∷ signed ∷ []) l =
    let c = commit_of name id commit_id signed in
    if version == texts.show (length (l name id))
    then (
      record {
        error = none;
        status = none;
        body = (commit_id, record c { events = none; signed_request = none }) ∷ [];
      },
      append_entry l name id (commit_id, c),
    )
    else (no_reply, l)
reply_to (name ∷ id ∷ version ∷ commit_id ∷ []) l = (empty_reply, l)
reply_to _ l = (no_reply, l)

abbrev find : List String → Memory → Reply (Dict (Commit ℕ))
find (name ∷ id ∷ []) l = record { error = none; status = none; body = l name id }
find _ l = no_reply

abbrev network : Network ℕ
network = record {
  Ledger = Memory;
  get_network = λ enrollment_id discovery l. none;
  transact = λ fcn args transient l. reply_to args l;
  evaluate_transaction = λ fcn args l. find args l;
}

abbrev eventstore : IsEventstore network texts
eventstore = record {
  commits = λ l. l;
  Kept = λ es. es ≡ stored;
  created = λ name id commit_id signed version es l kept at. (
    commit_id,
    record (commit_of name id commit_id signed) { events = none; signed_request = none },
    commit_of name id commit_id signed,
    append_entry l name id (commit_id, commit_of name id commit_id signed),
    rw (at, eq_refl) refl,
    unfold is_commit_record in refl,
    ap some (sym kept),
    rw (eq_refl name, eq_refl id) refl,
  );
  queried = λ name id l. refl;
}

abbrev traffic : String → CommandTraffic ℕ
traffic token = record { token = token; state = initial_state; before = []; after = [] }

abbrev moment : Moment
moment = record { time = 8; commit_id = "2020" }

abbrev blank : Memory
blank name id = []

abbrev created : Commit ℕ
created = commit_of "counter" "c1" "2020" ""

-- What the chaincode answers: the commit without its events.
abbrev replied : Commit ℕ
replied = record created { events = none; signed_request = none }

abbrev count : Reducer ℕ ℕ
count es = some (fresh (some "c1") (length es))

abbrev counted : Entity ℕ
counted = fresh (some "c1") 1

abbrev created_args : CreateArgs ℕ
created_args = record {
  entity_name = "secret";
  parent_name = some "counter";
  id = "c1";
  version = 0;
  is_private_data = true;
  events = added;
  signed_request = none;
}

create_options-IsForeign : IsForeign (create_options "command_create") (traffic "t1")
unfolding settle
create_options-IsForeign = record { before = refl; state = refl }

found_options-IsForeign : IsForeign found_options (traffic "t2")
unfolding settle
found_options-IsForeign = record { before = refl; state = refl }

command_create-find_by_id_example :
    (c : Commit ℕ) × (saved : Commit ℕ) × (l' : Memory) × (m : Entity ℕ) × (command_create network
        texts
        (traffic "t1")
        "counter"
        false
        none
        0
        7
        moment
        moment
        "u1"
        "c1"
        added
        none
        blank
      ≡ (some (resolved (some c)), l'))
    × (find_by_id network (traffic "t2") count "counter" false "c1" l'
        ≡ some (ok (record { current_state = some m; version = some 1 })))
    × (values (l' "counter" "c1") ≡ saved ∷ [])
    × (saved.events ≡ some stored)
    × IsTracked (saved ∷ []) counted m
unfolding replace_tag add_creator add_created_at
command_create-find_by_id_example =
    command_create-find_by_id eventstore count (traffic "t1") (traffic "t2") "counter" 0 7 moment
      moment "u1" "c1" added none none blank counted create_options-IsForeign
      found_options-IsForeign refl refl refl refl refl refl refl refl

command_create-tracked_example :
    command_create network texts
      (traffic "t1")
      "secret"
      true
      (some "counter")
      0
      7
      moment
      moment
      "u1"
      "c1"
      added
      none
      blank
    ≡ (
      some (
          outcome (create_options "command_create") (
            dispatch_result
              (some "t1")
              create_success
              create_error
              (record { error = none; status = none; body = ("2020", replied) ∷ [] }))),
      append_entry blank "counter" "c1" ("2020", created),
    )
command_create-tracked_example =
    command_create-tracked network texts 0 moment moment "u1" blank blank
      (append_entry blank "counter" "c1" ("2020", created)) empty_reply
      (record { error = none; status = none; body = ("2020", replied) ∷ [] }) refl refl refl refl
      refl (traffic "t1") 7 "secret" "c1" "counter" added none create_options-IsForeign refl refl
      refl refl refl

dispatch_create-ends_example :
    (r : CommandResponse ℕ (Commit ℕ)) × ((dispatch_create network texts
        (traffic "t1")
        "command_create"
        0
        moment
        moment
        "u1"
        created_args
        blank).0
      ≡ some r)
dispatch_create-ends_example =
    dispatch_create-ends network texts (traffic "t1") "command_create" 0 moment moment "u1"
      created_args blank create_options-IsForeign

abbrev broken : Network ℕ
broken = record network { evaluate_transaction = λ fcn args l. no_reply }

find_by_id-unavailable_example :
    find_by_id broken (traffic "t2") count "counter" false "c1" blank ≡ some (ok nothing_found)
find_by_id-unavailable_example =
    find_by_id-unavailable broken count (traffic "t2") "counter" "c1" blank found_options-IsForeign
      refl refl refl

replace_tag-is_clean_example : all (λ e. is_clean (tag_of e)) (replace_tag stored) ≡ true
replace_tag-is_clean_example = replace_tag-is_clean stored
