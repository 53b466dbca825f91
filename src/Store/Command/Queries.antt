-- ===== src/Store/Command/Queries.antt =====
-- packages/fabric-cqrs/src/store/command/epic: the epics that query and those that delete.
use fabric_es.Prelude.{String, Bool, true, false, Option, none, some, [], ◌∷◌, if◌then◌else◌}
use fabric_es.Services.{Network, submit, submit_private_data, evaluate}
use fabric_es.Store.{dispatch_result}
use fabric_es.Store.Command.{
  CommandAction, Moment, delete_error, delete_success, query_error, query_success,
}

module _ {P : Type 0} (network : Network P) (tx_id : Option String) where
  open network use {Ledger}

  unfoldable pub command_query_by_entity_id_epic : Bool → String → String → Ledger → CommandAction P
  unfolding evaluate dispatch_result
  command_query_by_entity_id_epic is_private_data entity_name id l =
      dispatch_result tx_id query_success query_error (
        evaluate network
          (if is_private_data then "privatedata:queryByEntityId" else "eventstore:queryByEntityId")
          (some entity_name ∷ some id ∷ []) l)

  unfoldable pub command_query_by_entity_name_epic : Bool → String → Ledger → CommandAction P
  unfolding evaluate dispatch_result
  command_query_by_entity_name_epic is_private_data entity_name l =
      dispatch_result tx_id query_success query_error (
        evaluate network
          (if is_private_data
            then "privatedata:queryByEntityName"
            else "eventstore:queryByEntityName")
          (some entity_name ∷ []) l)

  unfoldable pub command_query_by_entity_id_commit_id_epic :
      Bool → String → String → String → Ledger → CommandAction P
  unfolding evaluate dispatch_result
  command_query_by_entity_id_commit_id_epic is_private_data entity_name id commit_id l =
      dispatch_result tx_id query_success query_error (
        evaluate network
          (if is_private_data
            then "privatedata:queryByEntityIdCommitId"
            else "eventstore:queryByEntityIdCommitId")
          (some entity_name ∷ some id ∷ some commit_id ∷ []) l)

  -- Not for private data.
  unfoldable pub delete_by_entity_id_epic :
      Moment → String → String → Ledger → CommandAction P × Ledger
  unfolding submit dispatch_result
  delete_by_entity_id_epic moment entity_name id l =
      let (reply, l') =
        submit network moment.commit_id "eventstore:deleteByEntityId"
          (some entity_name ∷ some id ∷ []) l in
      (dispatch_result tx_id delete_success delete_error reply, l')

  unfoldable pub delete_by_entity_id_commit_id_epic :
      Moment → Bool → String → String → String → Ledger → CommandAction P × Ledger
  unfolding submit submit_private_data dispatch_result
  delete_by_entity_id_commit_id_epic moment is_private_data entity_name id commit_id l =
      let args = some entity_name ∷ some id ∷ some commit_id ∷ [] in
      elim is_private_data [
        | true ↦
            let (reply, l') =
              submit_private_data network moment.commit_id "privatedata:deleteByEntityIdCommitId"
                args none l in
            (dispatch_result tx_id delete_success delete_error reply, l')
        | false ↦
            let (reply, l') =
              submit network moment.commit_id "eventstore:deleteByEntityIdCommitId" args l in
            (dispatch_result tx_id delete_success delete_error reply, l')
      ]
