-- ===== src/Domain/Loan.antt =====
-- packages/model-loan/src/loan/domain: the reducer and the command handler of loans.
pub mod Laws
pub mod Runs
use fabric_es.Prelude.{
  ℕ, String, Bool, ◌==◌, Option, none, some, List, [], ◌∷◌, ◌++◌, Result, ok, throw, Error,
  new_error, truthy, if◌then◌else◌,
}
use fabric_es.Prelude.Action.{Action, raise}
use fabric_es.Types.{Event, Commit, begin, end}
use fabric_es.Reducer.{Entity, Callback}
use fabric_es.Repository.{Repo}
use fabric_es.Domain.Handlers.{
  invalid_operation, required_data_missing, spread, fresh, plain, update_existing,
}

-- model.ts
pub data LoanStatus : Type 0 where
  loan_applied loan_cancelled loan_approved loan_returned loan_rejected loan_expired : LoanStatus

pub record Loan : Type 0 where
  pub loan_id : Option String
  pub owner_id : Option String
  pub description : Option String
  pub reference : Option String
  pub status : Option LoanStatus
  pub comment : Option String
  pub timestamp : Option ℕ

-- events.ts: the fields that some event's payload has.
pub record LoanPayload : Type 0 where
  pub loan_id : Option String
  pub user_id : Option String
  pub timestamp : Option ℕ
  pub reference : Option String
  pub description : Option String
  pub comment : Option String

abbrev blank : Loan
blank = record {
  loan_id = none;
  owner_id = none;
  description = none;
  reference = none;
  status = none;
  comment = none;
  timestamp = none;
}

abbrev with_domain : Option (Entity Loan) → (Loan → Loan) → Option (Entity Loan)
with_domain loan f = let n = spread blank loan in some (record n { domain = f n.domain })

abbrev set_status : LoanStatus → Loan → Loan
set_status s l = record l { status = some s }

-- reducer.ts
unfoldable pub loan_reducer : Callback LoanPayload Loan
loan_reducer loan e =
    let p = e.payload.body in
    if e.type == "LoanApplied"
    then some (
        fresh p.loan_id (record {
          loan_id = p.loan_id;
          owner_id = p.user_id;
          description = none;
          reference = none;
          status = some loan_applied;
          comment = none;
          timestamp = p.timestamp;
        }))
    else if e.type == "LoanCancelled"
    then with_domain loan (set_status loan_cancelled)
    else if e.type == "LoanApproved"
    then with_domain loan (set_status loan_approved)
    else if e.type == "LoanReturned"
    then with_domain loan (set_status loan_returned)
    else if e.type == "LoanRejected"
    then with_domain loan (set_status loan_rejected)
    else if e.type == "LoanExpired"
    then with_domain loan (set_status loan_expired)
    else if e.type == "LoanReferenceDefined"
    then with_domain loan (λ l. record l { reference = p.reference })
    else if e.type == "LoanDescriptionDefined"
    then with_domain loan (λ l. record l { description = p.description })
    else if e.type == "LoanCommentDefined"
    then with_domain loan (λ l. record l { comment = p.comment })
    else loan

-- commands.ts
pub record Target : Type 0 where
  pub user_id : Option String
  pub loan_id : String
  pub timestamp : Option ℕ

pub data LoanCommand : Type 0 where
  apply_loan : Target → (description reference comment : Option String) → LoanCommand
  cancel_loan approve_loan return_loan reject_loan expire_loan : Target → LoanCommand
  define_loan_reference define_loan_description define_loan_comment :
      Target → Option String → LoanCommand

abbrev base : Target → LoanPayload
base t = record {
  loan_id = some t.loan_id;
  user_id = t.user_id;
  timestamp = t.timestamp;
  reference = none;
  description = none;
  comment = none;
}

abbrev pub loan_not_found : Error
loan_not_found = new_error "LOAN_NOT_FOUND"

-- The events of `ApplyLoan`.
unfoldable pub applied_events :
    Target → Option String → Option String → Option String → List (Event LoanPayload)
applied_events t description reference comment =
    plain "LoanApplied" (some begin) (base t)
    ∷ plain "LoanReferenceDefined" none (record (base t) { reference = reference })
    ∷ plain "LoanDescriptionDefined" none (record (base t) { description = description })
    ∷ (if truthy comment
        then plain "LoanCommentDefined" none (record (base t) { comment = comment }) ∷ []
        else [])

-- The event that a command on an existing loan saves, or what it throws.
unfoldable pub decide_loan : LoanCommand → Result (List (Event LoanPayload))
decide_loan (cancel_loan t) = ok (plain "LoanCancelled" (some end) (base t) ∷ [])
decide_loan (approve_loan t) = ok (plain "LoanApproved" none (base t) ∷ [])
decide_loan (return_loan t) = ok (plain "LoanReturned" none (base t) ∷ [])
decide_loan (reject_loan t) = ok (plain "LoanRejected" none (base t) ∷ [])
decide_loan (expire_loan t) = ok (plain "LoanExpired" none (base t) ∷ [])
decide_loan (define_loan_description t description) =
    if truthy description
    then ok
        (plain "LoanDescriptionDefined" none (record (base t) { description = description }) ∷ [])
    else throw required_data_missing
decide_loan (define_loan_comment t comment) =
    ok (plain "LoanCommentDefined" none (record (base t) { comment = comment }) ∷ [])
decide_loan _ = throw invalid_operation

abbrev pub target : LoanCommand → Target
target (apply_loan t _ _ _) = t
target (cancel_loan t) = t
target (approve_loan t) = t
target (return_loan t) = t
target (reject_loan t) = t
target (expire_loan t) = t
target (define_loan_reference t _) = t
target (define_loan_description t _) = t
target (define_loan_comment t _) = t

-- handler.ts
module _ (repo : Repo LoanPayload Loan) where
  unfoldable pub loan_command_handler : LoanCommand → Action repo.Db (Commit LoanPayload)
  unfolding applied_events decide_loan
  loan_command_handler (apply_loan t description reference comment) =
      if truthy reference
      then (if truthy description
          then repo.create t.loan_id (applied_events t description reference comment)
          else raise required_data_missing)
      else raise required_data_missing
  loan_command_handler (define_loan_reference t reference) = raise invalid_operation
  loan_command_handler c =
      update_existing repo (target c).loan_id loan_not_found (λ n. decide_loan c)
