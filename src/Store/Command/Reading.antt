-- ===== src/Store/Command/Reading.antt =====
-- What is read of an entity after a save, and when the network does not answer.
use mathlib.Core.List.{append-nil}
use fabric_es.Prelude.{
  ℕ, String, ◌≡◌, refl, ◌∙◌, ap, true, false, Option, none, some, List, [], ◌∷◌, values, ok, truthy,
}
use fabric_es.Types.{Event, Commit}
use fabric_es.Types.Stamps.{add_created_at, add_creator}
use fabric_es.Types.Tags.{replace_tag}
use fabric_es.Reducer.{Reducer, Entity}
use fabric_es.Reducer.Compute.{IsTracked}
use fabric_es.Services.{Network, evaluate}
use fabric_es.Store.{command_handlers, network_error, dispatch_result, get_error_action}
use fabric_es.Store.Dispatcher.{resolved}
use fabric_es.Store.Exchange.{IsForeign, dispatch_lem, outcome}
use fabric_es.Store.GetById.{command_get_by_id, nothing_found, get_by_id-IsTracked}
use fabric_es.Store.Command.{Texts, CreateArgs, Moment, CommandAction, query_error, create_run}
use fabric_es.Store.Command.Queries.{command_query_by_entity_id_epic}
use fabric_es.Store.Command.Create.{
  CommandTraffic, CommandResponse, create_options, found_options, dispatch_create, command_create,
  query_found, find_by_id,
}
use fabric_es.Store.Command.Answers.{create_run-Answers}
use fabric_es.Store.Command.Saving.{
  IsEventstore, create_options-IsSlice, found_options-IsSlice, command_create-saves,
  find_by_id-commits,
}

-- The promise of a save is settled, whatever the network answers.
module _ {P : Type 0} (network : Network P) (texts : Texts P) where
  -- If the dispatch of a create is among actions of other transactions only, its promise is
  -- settled, for public and private data, with and without a parent, in every state of the ledger
  -- and whatever the network answers.
  pub dispatch_create-ends :
      (t : CommandTraffic P) (name : String) (no_body : P) (moment later : Moment)
      (enrollment_id : String) (args : CreateArgs P) (l : network.Ledger)
      → IsForeign (create_options name) t
      → (r : CommandResponse P (Commit P)) × ((dispatch_create network texts t name no_body moment
            later enrollment_id args l).0
          ≡ some r)
  unfolding dispatch_create
  dispatch_create-ends t name no_body moment later enrollment_id args l f =
      let run = create_run network texts (some t.token) no_body moment later enrollment_id args l in
      let (own, awaited) =
        create_run-Answers t.token network texts no_body moment later enrollment_id args l in
      (
        outcome (create_options name) run.0,
        dispatch_lem command_handlers (create_options name) "[Command] Create" t run.0
            (create_options-IsSlice name) f refl refl (record { own = own; awaited = awaited }),
      )

module _ {P D : Type 0} (network : Network P) (reducer : Reducer P D) where
  -- If the dispatch of the query is among actions of other transactions only, the name and the id
  -- are non-empty, and the network answers the query for the commits of an entity with an error,
  -- commandGetById resolves, without a current state and without a save.
  pub find_by_id-unavailable :
      (t : CommandTraffic P) (name id : String) (l : network.Ledger)
      → IsForeign found_options t
      → truthy (some name) ≡ true
      → truthy (some id) ≡ true
      → truthy (network.evaluate_transaction "eventstore:queryByEntityId" (name ∷ id ∷ []) l).error
        ≡ true
      → find_by_id network t reducer name false id l ≡ some (ok nothing_found)
  unfolding find_by_id query_found command_query_by_entity_id_epic evaluate dispatch_result
      command_get_by_id
  find_by_id-unavailable t name id l f n i e =
      let reply = network.evaluate_transaction "eventstore:queryByEntityId" (name ∷ id ∷ []) l in
      let a : CommandAction P =
        get_error_action query_error (some t.token) (some (network_error reply.error)) in
      let answered : command_query_by_entity_id_epic network (some t.token) false name id l ≡ a =
        rw (n, i, e) refl in
      rw
        (
          answered,
          dispatch_lem command_handlers found_options "[Command] Query commit by entity id" t a
              found_options-IsSlice f refl refl (record { own = refl; awaited = λ q. refl }),
        )
        refl

module _ {P D : Type 0} {network : Network P} {texts : Texts P} (laws : IsEventstore network texts)
    (reducer : Reducer P D) where
  open network use {Ledger}

  -- Let the chaincode eventstore keep and answer commits as documented, the network be reached, the
  -- name and the id be non-empty, the entity have no commits, each of the two dispatches be among
  -- actions of other transactions only, and JSON keep the stamped events. If the reducer makes of
  -- the stamped events (with the time, the creator and the replaced tags) an entity without
  -- tracking fields, then a save of commandCreate on public data resolves with a commit, the ledger
  -- has one commit of the entity, with the stamped events, and commandGetById gives that entity,
  -- with the tracking fields of this commit, and a save at version 1.
  pub command_create-find_by_id :
      (t u : CommandTraffic P) (name : String) (no_body : P) (now : ℕ) (moment later : Moment)
      (enrollment_id id : String) (es : List (Event P)) (parent_name signed_request : Option String)
      (l : Ledger) (n : Entity D)
      → IsForeign (create_options "command_create") t
      → IsForeign found_options u
      → network.get_network enrollment_id true l ≡ none
      → truthy (some name) ≡ true
      → truthy (some id) ≡ true
      → laws.commits l name id ≡ []
      → let stamped = replace_tag (add_creator enrollment_id (add_created_at now es)) in
        laws.Kept stamped
        → reducer stamped ≡ some n
        → n.organization ≡ none
        → n.private_data ≡ none
        → (c : Commit P) × (saved : Commit P) × (l' : Ledger) × (m : Entity D) × (command_create
              network texts t name false parent_name no_body now moment later enrollment_id id es
              signed_request l
            ≡ (some (resolved (some c)), l'))
          × (find_by_id network u reducer name false id l'
              ≡ some (ok (record { current_state = some m; version = some 1 })))
          × (values (laws.commits l' name id) ≡ saved ∷ [])
          × (saved.events ≡ some stamped)
          × IsTracked (saved ∷ []) n m
  command_create-find_by_id t u name no_body now moment later enrollment_id id es parent_name
        signed_request l n f g up ny iy new kept reduced o p =
      let (key, c, saved, l', run, events, grown) =
        command_create-saves laws t name no_body now moment later enrollment_id id es parent_name
          signed_request l f up kept new in
      let (m, tracked, computed, _) =
        get_by_id-IsTracked reducer ((key, saved) ∷ []) n (rw events refl)
          (rw events (ap reducer (append-nil _) ∙ reduced)) o p in
      (
        c,
        saved,
        l',
        m,
        run,
        find_by_id-commits laws reducer u name id l' g ny iy
            ∙ ap (λ d. some (command_get_by_id reducer (some d))) grown
            ∙ ap some computed,
        ap values grown,
        events,
        tracked,
      )
