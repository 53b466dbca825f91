-- ===== src/Store/Command/Saving.antt =====
-- What the promises of the command side resolve to, and what the ledger then holds.
use fabric_es.Prelude.{
  ℕ, String, ◌≡◌, refl, ap, sym, ◌∙◌, length, true, false, Option, none, some, List, [], ◌∷◌, ◌++◌,
  Dict, lookup, text_of, if◌then◌else◌, truthy,
}
use fabric_es.Types.{Event, Commit}
use fabric_es.Types.Stamps.{add_created_at, add_creator}
use fabric_es.Types.Tags.{replace_tag}
use fabric_es.Types.Guards.{is_commit_record}
use fabric_es.Reducer.{Reducer}
use fabric_es.Services.{Network, submit, evaluate}
use fabric_es.Store.{Reply, Failure, dispatch_result, command_handlers, get_success_action}
use fabric_es.Store.Dispatcher.{resolved, accept}
use fabric_es.Store.Outcomes.{IsSlice, command_handlers-IsHandler}
use fabric_es.Store.Exchange.{IsForeign, dispatch_lem}
use fabric_es.Store.GetById.{command_get_by_id}
use fabric_es.Store.Command.{
  Texts, CreateArgs, Moment, CommandAction, create_success, create_error, query_success,
  create_epic, create_run, submit_created,
}
use fabric_es.Store.Command.Queries.{command_query_by_entity_id_epic}
use fabric_es.Store.Command.Create.{
  CommandTraffic, create_options, found_options, is_record_reply, dispatch_create, command_create,
  query_found, find_by_id,
}

-- What the code relies on of the chaincode eventstore, for the events of `Kept`, those that JSON keeps:
-- a create at the version that is the number of the commits of the entity stores the events in a
-- commit under the name and the id of its entity, and answers with the fields of that commit that
-- are no events; a create at another version may fail. A query answers with the commits of an
-- entity.
pub record IsEventstore {P : Type 0} (network : Network P) (texts : Texts P) : Type 1 where
  pub commits : network.Ledger → String → String → Dict (Commit P)
  pub Kept : List (Event P) → Type 0
  pub created :
      (name id commit_id signed : String) (version : ℕ) (es : List (Event P)) (l : network.Ledger)
      → Kept es
      → version ≡ length (commits l name id)
      → (key : String) × (c : Commit P) × (saved : Commit P) × (l' : network.Ledger)
        × (network.transact "eventstore:createCommit"
              (name ∷ id ∷ texts.show version ∷ texts.stringify es ∷ commit_id ∷ signed ∷ [])
              none
              l
            ≡ (record { error = none; status = none; body = (key, c) ∷ [] }, l'))
        × (is_commit_record ((key, c) ∷ []) ≡ true)
        × (saved.events ≡ some es)
        × (commits l' name id ≡ commits l name id ++ (key, saved) ∷ [])
  pub queried :
      (name id : String) (l : network.Ledger)
      → network.evaluate_transaction "eventstore:queryByEntityId" (name ∷ id ∷ []) l
        ≡ record { error = none; status = none; body = commits l name id }

pub create_options-IsSlice :
    {P : Type 0} (name : String)
    → IsSlice {E = Failure (Dict (Commit P))} command_handlers (create_options {P = P} name)
unfolding lookup command_handlers
create_options-IsSlice name = record {
  handled = command_handlers-IsHandler _ _;
  success = refl;
  error = refl;
  apart = refl;
}

pub found_options-IsSlice :
    {P : Type 0} → IsSlice {E = Failure (Dict (Commit P))} command_handlers (found_options {P = P})
unfolding lookup command_handlers
found_options-IsSlice = record {
  handled = command_handlers-IsHandler _ _;
  success = refl;
  error = refl;
  apart = refl;
}

-- What the services make of the signed request of a commit.
abbrev signed_text : Option String → String
signed_text s =
    let given = if truthy s then text_of s else "" in if truthy (some given) then given else ""

create_run-public :
    {P : Type 0} (network : Network P) (texts : Texts P) (tx_id : Option String) (no_body : P)
    (moment later : Moment) (enrollment_id : String) (args : CreateArgs P) (l l' : network.Ledger)
    (reply : Reply (Dict (Commit P)))
    → args.is_private_data ≡ false
    → network.get_network enrollment_id true l ≡ none
    → network.transact "eventstore:createCommit"
        (args.entity_name
          ∷ args.id
          ∷ texts.show args.version
          ∷ texts.stringify args.events
          ∷ moment.commit_id
          ∷ signed_text args.signed_request
          ∷ [])
        none
        l
      ≡ (reply, l')
    → create_run network texts tx_id no_body moment later enrollment_id args l
      ≡ (dispatch_result tx_id create_success create_error reply, l')
unfolding create_run create_epic submit_created submit
create_run-public network texts tx_id no_body moment later enrollment_id args l l' reply public up
      sent =
    rw (public, up, sent) refl

module _ {P : Type 0} {network : Network P} {texts : Texts P}
    (laws : IsEventstore network texts) where
  open network use {Ledger}

  dispatch_create-saves :
      (t : CommandTraffic P) (name : String) (no_body : P) (moment later : Moment)
      (enrollment_id : String) (args : CreateArgs P) (l : Ledger)
      → IsForeign (create_options name) t
      → args.is_private_data ≡ false
      → network.get_network enrollment_id true l ≡ none
      → laws.Kept args.events
      → args.version ≡ length (laws.commits l args.entity_name args.id)
      → (key : String) × (c : Commit P) × (saved : Commit P) × (l' : Ledger) × (dispatch_create
            network texts t name no_body moment later enrollment_id args l
          ≡ (some (resolved (some c)), l'))
        × (saved.events ≡ some args.events)
        × (laws.commits l' args.entity_name args.id
            ≡ laws.commits l args.entity_name args.id ++ (key, saved) ∷ [])
  unfolding dispatch_create dispatch_result accept is_record_reply
  dispatch_create-saves t name no_body moment later enrollment_id args l f public up kept version =
      let (key, c, saved, l', sent, guarded, es, grown) =
        laws.created args.entity_name args.id moment.commit_id (signed_text args.signed_request)
          args.version args.events l kept version in
      let reply : Reply (Dict (Commit P)) = record {
        error = none;
        status = none;
        body = (key, c) ∷ [];
      } in
      let a : CommandAction P = get_success_action create_success (some t.token) (some reply) in
      let ran : create_run network texts (some t.token) no_body moment later enrollment_id args l
          ≡ (a, l') =
        create_run-public network texts (some t.token) no_body moment later enrollment_id args l l'
          reply public up sent in
      (
        key,
        c,
        saved,
        l',
        rw ran (
            rw
              (dispatch_lem command_handlers (create_options name) "[Command] Create" t a
                (create_options-IsSlice name) f refl refl
                (record { own = refl; awaited = λ q. cc }))
              (rw guarded refl)),
        es,
        grown,
      )

  -- Under the law of the chaincode, when the network is reached, the dispatch is among actions of
  -- other transactions only, JSON keeps the stamped events, and the entity has no commits: a save of
  -- commandCreate on public data resolves with a commit, and a commit of the stamped events is then
  -- the only one of its entity on the ledger.
  pub command_create-saves :
      (t : CommandTraffic P) (name : String) (no_body : P) (now : ℕ) (moment later : Moment)
      (enrollment_id id : String) (es : List (Event P)) (parent_name signed_request : Option String)
      (l : Ledger)
      → IsForeign (create_options "command_create") t
      → network.get_network enrollment_id true l ≡ none
      → laws.Kept (replace_tag (add_creator enrollment_id (add_created_at now es)))
      → laws.commits l name id ≡ []
      → (key : String) × (c : Commit P) × (saved : Commit P) × (l' : Ledger) × (command_create
            network texts t name false parent_name no_body now moment later enrollment_id id es
            signed_request l
          ≡ (some (resolved (some c)), l'))
        × (saved.events ≡ some (replace_tag (add_creator enrollment_id (add_created_at now es))))
        × (laws.commits l' name id ≡ (key, saved) ∷ [])
  unfolding command_create
  command_create-saves t name no_body now moment later enrollment_id id es parent_name
        signed_request l f up kept new =
      let (key, c, saved, l', run, es, grown) =
        dispatch_create-saves t "command_create" no_body moment later enrollment_id
          (record {
            entity_name = name;
            parent_name = parent_name;
            id = id;
            version = 0;
            is_private_data = false;
            events = replace_tag (add_creator enrollment_id (add_created_at now es));
            signed_request = signed_request;
          })
          l f refl up kept (ap length (sym new)) in
      (key, c, saved, l', run, es, grown ∙ ap (λ cs. cs ++ (key, saved) ∷ []) new)

  query_found-commits :
      (t : CommandTraffic P) (name id : String) (l : Ledger)
      → IsForeign found_options t
      → truthy (some name) ≡ true
      → truthy (some id) ≡ true
      → query_found network t name false id l
        ≡ some (
            resolved (some (record { error = none; status = none; body = laws.commits l name id })))
  unfolding query_found command_query_by_entity_id_epic evaluate dispatch_result accept
  query_found-commits t name id l f n i =
      let a : CommandAction P =
        get_success_action query_success (some t.token)
          (some (record { error = none; status = none; body = laws.commits l name id })) in
      let answered : command_query_by_entity_id_epic network (some t.token) false name id l ≡ a =
        rw (n, i, laws.queried name id l) refl in
      rw answered (
        dispatch_lem command_handlers found_options "[Command] Query commit by entity id" t a
          found_options-IsSlice f refl refl (record { own = refl; awaited = λ q. cc }))

  pub find_by_id-commits :
      {D : Type 0} (reducer : Reducer P D) (t : CommandTraffic P) (name id : String) (l : Ledger)
      → IsForeign found_options t
      → truthy (some name) ≡ true
      → truthy (some id) ≡ true
      → find_by_id network t reducer name false id l
        ≡ some (command_get_by_id reducer (some (laws.commits l name id)))
  unfolding find_by_id
  find_by_id-commits reducer t name id l f n i = rw (query_found-commits t name id l f n i) refl
