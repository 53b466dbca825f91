-- ===== src/Services.antt =====
-- packages/fabric-cqrs/src/services: submit.ts, submitPrivateData.ts and evaluate.ts. What the SDK and
-- the chaincode answer is a parameter.
use fabric_es.Prelude.{
  String, Bool, ◌==◌, Option, none, some, List, [], ◌∷◌, ◌++◌, all, is_some, map, text_of, truthy,
  Dict, if◌then◌else◌,
}
use fabric_es.Types.{Commit}
use fabric_es.Store.{Reply}

-- A transaction with its arguments, on a ledger; `transient` is the data that it does not record. An
-- error of the SDK is a reply with an error, as the services catch it.
pub record Network (P : Type 0) : Type 1 where
  pub Ledger : Type 0
  pub get_network : String → Bool → Ledger → Option String
  pub transact : String → List String → Option String → Ledger → Reply (Dict (Commit P)) × Ledger
  pub evaluate_transaction : String → List String → Ledger → Reply (Dict (Commit P))

-- `args.slice(0, 4)`
abbrev pub first_four : {A : Type 0} → List A → List A
first_four (a ∷ b ∷ c ∷ d ∷ rest) = a ∷ b ∷ c ∷ d ∷ []
first_four args = args

-- `args[4]`
abbrev pub fifth : List (Option String) → Option String
fifth (a ∷ b ∷ c ∷ d ∷ e ∷ rest) = e
fifth _ = none

module _ {P : Type 0} where
  abbrev pub invalid_input : Reply (Dict (Commit P))
  invalid_input = record { error = some "invalid input argument"; status = none; body = [] }

  module _ (network : Network P) where
    open network use {Ledger}

    -- `commit_id` is what `createCommitId` gives.
    unfoldable pub submit :
        String → String → List (Option String) → Ledger → Reply (Dict (Commit P)) × Ledger
    submit commit_id fcn args l =
        if all is_some args
        then network.transact fcn
            (if fcn == "eventstore:createCommit"
              then map text_of (first_four args)
                ++ (commit_id ∷ (if truthy (fifth args) then text_of (fifth args) else "") ∷ [])
              else map text_of args)
            none l
        else (invalid_input, l)

    unfoldable pub submit_private_data :
        String
        → String
        → List (Option String)
        → Option String
        → Ledger
        → Reply (Dict (Commit P)) × Ledger
    submit_private_data commit_id fcn args transient l =
        if all truthy args
        then network.transact fcn
            (if fcn == "privatedata:createCommit"
              then map text_of args ++ (commit_id ∷ [])
              else map text_of args)
            transient l
        else (invalid_input, l)

    unfoldable pub evaluate : String → List (Option String) → Ledger → Reply (Dict (Commit P))
    evaluate fcn args l =
        if all truthy args
        then network.evaluate_transaction fcn (map text_of args) l
        else invalid_input
