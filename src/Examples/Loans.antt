-- ===== src/Examples/Loans.antt =====
-- Loans in the mock repository.
use fabric_es.Prelude.{
  ◌∷◌, ℕ, String, ◌≡◌, refl, Option, none, some, List, [], Result, ok, throw, eqb, if◌then◌else◌,
  lookup,
}
use fabric_es.Types.{Event}
use fabric_es.Reducer.{Entity, get_reducer}
use fabric_es.Repository.{Repo, IsRepo}
use fabric_es.Repository.Mock.{MockDb, mock_repository, mock_laws, create_commit}
use fabric_es.Domain.Handlers.{reducer_of, fresh}
use fabric_es.Domain.Handlers.Effects.{Accepts}
use fabric_es.Domain.Loan.{
  Loan, LoanPayload, loan_reducer, Target, LoanCommand, apply_loan, cancel_loan,
  loan_command_handler, loan_not_found, loan_applied, applied_events,
}
use fabric_es.Domain.Loan.Laws.{
  loan_of, result_of, loan_command_handler-effect, loan_command_handler-refused,
}
use fabric_es.Domain.Loan.Runs.{stop, command, IsSame, Run-IsSame}

abbrev date : ℕ → String
date n = if eqb n 0 then "20200528133519841" else "20200528133519842"

abbrev decode : String → Result (Option (List (Event LoanPayload)))
decode s = ok none

abbrev loans : Repo LoanPayload Loan
loans = mock_repository date decode "loan" (reducer_of loan_reducer)

abbrev laws : IsRepo loans (reducer_of loan_reducer)
laws = mock_laws date decode "loan" (reducer_of loan_reducer)

abbrev empty : MockDb LoanPayload
empty = record { commits = []; now = 0 }

abbrev target : Target
target = record { user_id = some "u1"; loan_id = "l1"; timestamp = some 5 }

abbrev application : LoanCommand
application = apply_loan target (some "bridge") (some "REF1") none

empty_ready : lookup (date 0) (empty.commits) ≡ none
unfolding lookup
empty_ready = refl

loan_command_handler-effect_example :
    Accepts loan_reducer laws "l1"
      (loan_command_handler loans application)
      empty
      (result_of application none)
loan_command_handler-effect_example =
    loan_command_handler-effect laws empty refl application empty_ready refl

loan_command_handler-refused_example :
    loan_command_handler loans (cancel_loan target) empty ≡ (throw loan_not_found, empty)
loan_command_handler-refused_example =
    loan_command_handler-refused laws empty refl (cancel_loan target) loan_not_found
      (unfold get_reducer in refl)

-- A table with the commit of an application, a millisecond later.
abbrev applied : MockDb LoanPayload
applied = record {
  commits =
      (
        "20200528133519841",
        create_commit date 0 "l1" "loan" 0
            (applied_events target (some "bridge") (some "REF1") none) none,
      )
      ∷ [];
  now = 1;
}

abbrev bridge : Entity Loan
bridge = fresh (some "l1") (record {
  loan_id = some "l1";
  owner_id = some "u1";
  description = some "bridge";
  reference = some "REF1";
  status = some loan_applied;
  comment = none;
  timestamp = some 5;
})

applied_lem : loan_of laws applied "l1" ≡ some bridge
unfolding create_commit applied_events get_reducer loan_reducer
applied_lem = refl

applied_ready : lookup (date 1) applied.commits ≡ none
unfolding lookup
applied_ready = refl

Run-IsSame_example :
    (m : Entity Loan) × (loan_of laws
        ((loan_command_handler loans (cancel_loan target) applied).1)
        "l1"
      ≡ some m)
    × IsSame bridge m
unfolding create_commit
Run-IsSame_example =
    Run-IsSame laws "l1" bridge (command (cancel_loan target) refl applied_ready stop) refl
      applied_lem
