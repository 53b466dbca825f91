-- ===== src/Examples/LoanDetails.antt =====
-- Loan details in the mock repository.
use fabric_es.Prelude.{refl, none, some}
use fabric_es.Domain.Handlers.{reducer_of}
use fabric_es.Repository.{IsRepo}
use fabric_es.Repository.Mock.{mock_repository, mock_laws}
use fabric_es.Domain.Handlers.Effects.{Accepts}
use fabric_es.Domain.LoanDetails.{LoanRequester, ContactInfo, loan_details_reducer}
use fabric_es.Domain.LoanDetails.Commands.{
  DetailsTarget, DetailsCommand, create_loan_details, loan_details_command_handler,
}
use fabric_es.Domain.LoanDetails.Table.{details_after}
use fabric_es.Domain.LoanDetails.Laws.{loan_details_command_handler-effect}
use fabric_es.Examples.Domains.{date, decode, empty, empty_fresh}

abbrev details_laws :
    IsRepo
      (mock_repository date decode "loanDetails" (reducer_of loan_details_reducer))
      (reducer_of loan_details_reducer)
details_laws = mock_laws date decode "loanDetails" (reducer_of loan_details_reducer)

abbrev details : DetailsTarget
details = record { loan_id = "l1"; user_id = some "u1"; timestamp = some 5 }

abbrev requester : LoanRequester
requester = record { registration = some "BR1"; name = some "One"; type = none }

abbrev contact : ContactInfo
contact = record {
  salutation = none;
  name = some "Ann";
  title = some "Ms";
  phone = some "555";
  email = some "a@one";
}

abbrev new_loan : DetailsCommand
new_loan = create_loan_details details (record {
  requester = some requester;
  contact = some contact;
  loan_type = none;
  start_date = some 3;
  tenor = some 12;
  currency = some "HKD";
  requested_amt = some 1000;
  approved_amt = none;
  comment = some "first";
})

loan_details_command_handler-effect_example :
    Accepts loan_details_reducer details_laws "l1"
      (loan_details_command_handler
        (mock_repository date decode "loanDetails" (reducer_of loan_details_reducer))
        new_loan)
      empty
      (details_after new_loan none)
loan_details_command_handler-effect_example =
    loan_details_command_handler-effect details_laws empty refl new_loan empty_fresh refl
