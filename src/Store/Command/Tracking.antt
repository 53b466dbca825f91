-- ===== src/Store/Command/Tracking.antt =====
-- The save of a private entity that has a parent: the commit goes to the private data, then a track
-- event goes to the parent.
use fabric_es.Prelude.{
  ℕ, String, ◌≡◌, refl, true, false, Option, none, some, List, [], ◌∷◌, Dict, same, truthy,
}
use fabric_es.Types.{Event, Commit}
use fabric_es.Types.Stamps.{add_created_at, add_creator}
use fabric_es.Types.Tags.{replace_tag}
use fabric_es.Services.{Network, submit, submit_private_data}
use fabric_es.Store.{Reply, command_handlers, dispatch_result}
use fabric_es.Store.Exchange.{IsForeign, dispatch_lem, outcome}
use fabric_es.Store.Command.{
  Texts, Moment, create_success, create_error, create_run, create_epic, submit_created_private,
  private_result, track_epic, track_events,
}
use fabric_es.Store.Command.Create.{CommandTraffic, create_options, dispatch_create, command_create}
use fabric_es.Store.Command.Answers.{dispatch_result-Answers}
use fabric_es.Store.Command.Saving.{create_options-IsSlice}

module _ {P : Type 0} (network : Network P) (texts : Texts P) (no_body : P) (moment later : Moment)
    (enrollment_id : String) (l l' end : network.Ledger) (stored tracked : Reply (Dict (Commit P)))
    (up : network.get_network enrollment_id false l ≡ none)
    (still_up : network.get_network enrollment_id true l' ≡ none)
    (shown : truthy (some (texts.show 0)) ≡ true) (taken : truthy stored.error ≡ false)
    (accepted : same stored.status (some "ERROR") ≡ false) where
  -- What the chaincode of private data answers to the commit.
  abbrev pub IsStored : String → String → List (Event P) → Type 0
  IsStored name id es =
      network.transact "privatedata:createCommit" (name ∷ id ∷ texts.show 0 ∷ moment.commit_id ∷ [])
        (some (texts.stringify es)) l
      ≡ (stored, l')

  -- What the chaincode of the parent answers to the track event.
  abbrev pub IsSentToParent : String → String → String → Type 0
  IsSentToParent parent name id =
      network.transact "eventstore:createCommit"
        (parent
          ∷ id
          ∷ texts.show 0
          ∷ texts.stringify (track_events no_body later.time id name)
          ∷ later.commit_id
          ∷ ""
          ∷ [])
        none l'
      ≡ (tracked, end)

  create_run-tracked :
      (tx_id : Option String) (name id parent : String) (es : List (Event P))
      (signed_request : Option String)
      → truthy (some name) ≡ true
      → truthy (some id) ≡ true
      → truthy (some parent) ≡ true
      → IsStored name id es
      → IsSentToParent parent name id
      → create_run network texts tx_id no_body moment later enrollment_id
          (record {
            entity_name = name;
            parent_name = some parent;
            id = id;
            version = 0;
            is_private_data = true;
            events = es;
            signed_request = signed_request;
          })
          l
        ≡ (dispatch_result tx_id create_success create_error tracked, end)
  unfolding create_run create_epic submit_created_private private_result submit submit_private_data
      track_epic
  create_run-tracked tx_id name id parent es signed_request ny iy py s k =
      rw (up, ny, iy, shown, s, taken, accepted, py, still_up) (rw k refl)

  -- Let the network be reached before both submissions, the name, the id, the parent's name and the
  -- text of the version 0 be non-empty, the dispatch be among actions of other transactions only,
  -- and the chaincode of private data answer to the commit without an error. Then a save of
  -- commandCreate on private data with a parent leaves the ledger as the submission of the track
  -- event to the parent leaves it, and its promise resolves as the reply to that submission says.
  pub command_create-tracked :
      (t : CommandTraffic P) (now : ℕ) (name id parent : String) (es : List (Event P))
      (signed_request : Option String)
      → IsForeign (create_options "command_create") t
      → truthy (some name) ≡ true
      → truthy (some id) ≡ true
      → truthy (some parent) ≡ true
      → IsStored name id (replace_tag (add_creator enrollment_id (add_created_at now es)))
      → IsSentToParent parent name id
      → command_create network texts t name true
          (some parent)
          no_body
          now
          moment
          later
          enrollment_id
          id
          es
          signed_request
          l
        ≡ (
          some (
              outcome
                (create_options "command_create")
                (dispatch_result (some t.token) create_success create_error tracked)),
          end,
        )
  unfolding command_create dispatch_create
  command_create-tracked t now name id parent es signed_request f ny iy py s k =
      let (own, awaited) = dispatch_result-Answers t.token create_success create_error tracked in
      rw (create_run-tracked (some t.token) name id parent _ signed_request ny iy py s k) (
        rw
          (dispatch_lem command_handlers (create_options "command_create") "[Command] Create" t
            (dispatch_result (some t.token) create_success create_error tracked)
            (create_options-IsSlice "command_create") f refl refl
            (record { own = own; awaited = awaited }))
          refl)
