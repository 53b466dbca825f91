-- ===== src/Domain/LoanDetails/Laws.antt =====
-- What the commands of loan details do to the state that a repository reports.
use fabric_es.Prelude.{String, ◌≡◌, ◌∙◌, refl, Option, none, some, arith, throw, Error}
use fabric_es.Reducer.{Entity}
use fabric_es.Repository.{Repo, IsRepo}
use fabric_es.Domain.Handlers.{reducer_of, state_of}
use fabric_es.Domain.Handlers.Effects.{Accepts, create_lem, update_effect, update_refused}
use fabric_es.Domain.LoanDetails.{LoanDetails, DetailsPayload, loan_details_reducer}
use fabric_es.Domain.LoanDetails.Commands.{
  DetailsCommand, create_loan_details, define_loan_requester, define_loan_start_date,
  details_target, loan_details_not_found, created_details, decide_details,
  loan_details_command_handler,
}
use fabric_es.Domain.LoanDetails.Table.{
  details_after, details_refusal, created_details_lem, decide_details-Fits,
}

module _ {repo : Repo DetailsPayload LoanDetails}
    (laws : IsRepo repo (reducer_of loan_details_reducer)) where
  abbrev pub details_of : repo.Db → String → Option (Entity LoanDetails)
  details_of db id = state_of loan_details_reducer laws db id

  module _ (db : repo.Db) (v : laws.Valid db) where
    -- Over any repository that satisfies the laws, in a valid and ready database, a command on loan
    -- details that the table does not refuse saves a commit, leaves the database valid, turns the
    -- details with its id into what the table says, and changes no other details.
    pub loan_details_command_handler-effect :
        (c : DetailsCommand)
        → laws.Ready db
        → details_refusal c (details_of db (details_target c).loan_id) ≡ none
        → Accepts loan_details_reducer laws
            (details_target c).loan_id
            (loan_details_command_handler repo c)
            db
            (details_after c (details_of db (details_target c).loan_id))
    unfolding loan_details_command_handler
    loan_details_command_handler-effect (create_loan_details t d) r h =
        let (c, db', made, v', own, others) =
          create_lem loan_details_reducer laws t.loan_id (created_details t d) db v r in
        (c, db', ground (arith, made), v', own ∙ created_details_lem t d _, others)
    loan_details_command_handler-effect (define_loan_requester t v) r h = cc
    loan_details_command_handler-effect (define_loan_start_date t v) r h = cc
    loan_details_command_handler-effect c r h =
        update_effect loan_details_reducer laws (details_target c).loan_id loan_details_not_found
          (decide_details c) (details_after c) (details_refusal c) (decide_details-Fits c refl) db v
          r h

    -- Over any repository that satisfies the laws, in a valid database, a command on loan details that
    -- the table refuses throws the error of the table and leaves the database as it is.
    pub loan_details_command_handler-refused :
        (c : DetailsCommand) (e : Error)
        → details_refusal c (details_of db (details_target c).loan_id) ≡ some e
        → loan_details_command_handler repo c db ≡ (throw e, db)
    unfolding loan_details_command_handler
    loan_details_command_handler-refused (create_loan_details t d) e h = ground arith
    loan_details_command_handler-refused (define_loan_requester t v) e h = cc
    loan_details_command_handler-refused (define_loan_start_date t v) e h = cc
    loan_details_command_handler-refused c e h =
        update_refused loan_details_reducer laws (details_target c).loan_id loan_details_not_found
          (decide_details c) (details_after c) (details_refusal c) (decide_details-Fits c refl) db v
          e h
