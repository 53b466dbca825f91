-- ===== src/Domain/LoanDetails.antt =====
-- packages/model-loan/src/loan-details/domain: the data and the reducer of loan details.
pub mod Commands
pub mod Table
pub mod Laws
use fabric_es.Prelude.{
  ℕ, String, Bool, true, false, not, ◌&&◌, ◌==◌, Option, none, some, List, [], ◌∷◌, ◌++◌, Result,
  ok, throw, Error, new_error, truthy, truthy_num, if◌then◌else◌,
}
use fabric_es.Prelude.Action.{Action, raise}
use fabric_es.Types.{Event, Commit}
use fabric_es.Reducer.{Entity, Callback}
use fabric_es.Repository.{Repo}
use fabric_es.Domain.Handlers.{
  invalid_operation, required_data_missing, spread, fresh, plain, update_existing,
}

-- model.ts
pub record LoanRequester : Type 0 where
  pub registration : Option String
  pub name : Option String
  pub type : Option String

pub record ContactInfo : Type 0 where
  pub salutation : Option String
  pub name : Option String
  pub title : Option String
  pub phone : Option String
  pub email : Option String

pub record LoanDetails : Type 0 where
  pub loan_id : Option String
  pub requester : Option LoanRequester
  pub contact : Option ContactInfo
  pub loan_type : Option String
  pub start_date : Option ℕ
  pub tenor : Option ℕ
  pub currency : Option String
  pub requested_amt : Option ℕ
  pub approved_amt : Option ℕ
  pub comment : Option String
  pub timestamp : Option ℕ

-- events.ts: the fields that some event's payload has; those of a requester and of a contact, which
-- are spread into their payloads, are records.
pub record DetailsPayload : Type 0 where
  pub loan_id : Option String
  pub user_id : Option String
  pub timestamp : Option ℕ
  pub requester : LoanRequester
  pub contact : ContactInfo
  pub loan_type : Option String
  pub start_date : Option ℕ
  pub tenor : Option ℕ
  pub currency : Option String
  pub requested_amt : Option ℕ
  pub approved_amt : Option ℕ
  pub comment : Option String

abbrev pub no_requester : LoanRequester
no_requester = record { registration = none; name = none; type = none }

abbrev pub no_contact : ContactInfo
no_contact = record { salutation = none; name = none; title = none; phone = none; email = none }

abbrev pub no_details : LoanDetails
no_details = record {
  loan_id = none;
  requester = none;
  contact = none;
  loan_type = none;
  start_date = none;
  tenor = none;
  currency = none;
  requested_amt = none;
  approved_amt = none;
  comment = none;
  timestamp = none;
}

abbrev pub with_details :
    Option (Entity LoanDetails) → (LoanDetails → LoanDetails) → Option (Entity LoanDetails)
with_details s f = let n = spread no_details s in some (record n { domain = f n.domain })

-- `if (s) o.f = s` of an object without `f`.
abbrev pub if_truthy : Option String → Option String
if_truthy s = if truthy s then s else none

-- reducer.ts
unfoldable pub loan_details_reducer : Callback DetailsPayload LoanDetails
loan_details_reducer details e =
    let p = e.payload.body in
    if e.type == "LoanDetailsCreated"
    then some (fresh p.loan_id (record no_details { loan_id = p.loan_id; timestamp = p.timestamp }))
    else if e.type == "LoanRequesterDefined"
    then with_details details (λ d. record d {
      requester = some (record p.requester { type = if_truthy p.requester.type });
    })
    else if e.type == "LoanContactDefined"
    then with_details details (λ d. record d {
      contact = some (record p.contact {
        salutation = if_truthy p.contact.salutation;
        title = if_truthy p.contact.title;
      });
    })
    else if e.type == "LoanTypeDefined"
    then with_details details (λ d. record d { loan_type = p.loan_type })
    else if e.type == "LoanStartDateDefined"
    then with_details details (λ d. record d { start_date = p.start_date })
    else if e.type == "LoanTenorDefined"
    then with_details details (λ d. record d { tenor = p.tenor })
    else if e.type == "LoanCurrencyDefined"
    then with_details details (λ d. record d { currency = p.currency })
    else if e.type == "LoanRequestedAmtDefined"
    then with_details details (λ d. record d { requested_amt = p.requested_amt })
    else if e.type == "LoanApprovedAmtDefined"
    then with_details details (λ d. record d { approved_amt = p.approved_amt })
    else if e.type == "LoanDtlCommentDefined"
    then with_details details (λ d. record d { comment = p.comment })
    else details
