-- ===== src/Domain/LoanDetails/Commands.antt =====
-- packages/model-loan/src/loan-details/domain: the commands and the command handler.
use fabric_es.Prelude.{
  ℕ, String, Bool, true, false, ◌&&◌, ◌==◌, Option, none, some, List, [], ◌∷◌, ◌++◌, Result, ok,
  throw, Error, new_error, truthy, truthy_num, if◌then◌else◌,
}
use fabric_es.Prelude.Action.{Action, raise}
use fabric_es.Types.{Event, Commit}
use fabric_es.Reducer.{Entity}
use fabric_es.Repository.{Repo}
use fabric_es.Domain.Handlers.{invalid_operation, required_data_missing, plain, update_existing}
use fabric_es.Domain.LoanDetails.{
  ContactInfo, DetailsPayload, LoanDetails, LoanRequester, no_contact, no_requester,
}

-- A field of an object that is given: it may be missing, and it may be null.
pub data Given : Type 0 where
  missing null : Given
  given : String → Given

-- The contact of `DefineLoanContact`.
pub record GivenContact : Type 0 where
  pub salutation : Given
  pub name : Given
  pub title : Given
  pub phone : Given
  pub email : Given

-- commands.ts: the id, the user and the time that all commands have.
pub record DetailsTarget : Type 0 where
  pub loan_id : String
  pub user_id : Option String
  pub timestamp : Option ℕ

-- The fields of `CreateLoanDetails`.
pub record NewDetails : Type 0 where
  pub requester : Option LoanRequester
  pub contact : Option ContactInfo
  pub loan_type : Option String
  pub start_date : Option ℕ
  pub tenor : Option ℕ
  pub currency : Option String
  pub requested_amt : Option ℕ
  pub approved_amt : Option ℕ
  pub comment : Option String

pub data DetailsCommand : Type 0 where
  create_loan_details : DetailsTarget → NewDetails → DetailsCommand
  define_loan_requester : DetailsTarget → Option LoanRequester → DetailsCommand
  define_loan_contact : DetailsTarget → GivenContact → DetailsCommand
  define_loan_type define_loan_currency define_loan_dtl_comment :
      DetailsTarget → Option String → DetailsCommand
  define_loan_start_date define_loan_tenor define_loan_requested_amt define_loan_approved_amt :
      DetailsTarget → Option ℕ → DetailsCommand

abbrev pub details_target : DetailsCommand → DetailsTarget
details_target (create_loan_details t d) = t
details_target (define_loan_requester t v) = t
details_target (define_loan_contact t v) = t
details_target (define_loan_type t v) = t
details_target (define_loan_currency t v) = t
details_target (define_loan_dtl_comment t v) = t
details_target (define_loan_start_date t v) = t
details_target (define_loan_tenor t v) = t
details_target (define_loan_requested_amt t v) = t
details_target (define_loan_approved_amt t v) = t

-- handler.ts
abbrev pub loan_details_not_found : Error
loan_details_not_found = new_error "LOAN_DETAILS_NOT_FOUND"

abbrev pub details_base : DetailsTarget → DetailsPayload
details_base t = record {
  loan_id = some t.loan_id;
  user_id = t.user_id;
  timestamp = t.timestamp;
  requester = no_requester;
  contact = no_contact;
  loan_type = none;
  start_date = none;
  tenor = none;
  currency = none;
  requested_amt = none;
  approved_amt = none;
  comment = none;
}

abbrev pub details_event : String → DetailsPayload → Event DetailsPayload
details_event type p = plain type none p

-- `Object.assign(o, given)`, at one field.
abbrev pub assigned : Option String → Given → Option String
assigned s missing = s
assigned s null = none
assigned s (given v) = some v

abbrev pub or_no_contact : Option ContactInfo → ContactInfo
or_no_contact none = no_contact
or_no_contact (some c) = c

abbrev pub assign_contact : ContactInfo → GivenContact → ContactInfo
assign_contact c g = record {
  salutation = assigned c.salutation g.salutation;
  name = assigned c.name g.name;
  title = assigned c.title g.title;
  phone = assigned c.phone g.phone;
  email = assigned c.email g.email;
}

-- `!s && typeof s !== 'undefined'`
abbrev pub is_blank : Given → Bool
is_blank missing = false
is_blank null = true
is_blank (given v) = v == ""

-- The guards of `CreateLoanDetails`.
abbrev pub is_requester : Option LoanRequester → Bool
is_requester none = false
is_requester (some r) = truthy r.registration && truthy r.name

abbrev pub is_contact : Option ContactInfo → Bool
is_contact none = false
is_contact (some c) = truthy c.name && (truthy c.phone && truthy c.email)

abbrev pub or_no_requester : Option LoanRequester → LoanRequester
or_no_requester none = no_requester
or_no_requester (some r) = r

unfoldable pub created_details : DetailsTarget → NewDetails → List (Event DetailsPayload)
created_details t d =
    details_event "LoanDetailsCreated" (details_base t)
    ∷ details_event "LoanRequesterDefined"
        (record (details_base t) { requester = or_no_requester d.requester })
    ∷ details_event "LoanContactDefined"
        (record (details_base t) { contact = or_no_contact d.contact })
    ∷ details_event "LoanStartDateDefined" (record (details_base t) { start_date = d.start_date })
    ∷ details_event "LoanTenorDefined" (record (details_base t) { tenor = d.tenor })
    ∷ details_event "LoanCurrencyDefined" (record (details_base t) { currency = d.currency })
    ∷ details_event "LoanRequestedAmtDefined"
        (record (details_base t) { requested_amt = d.requested_amt })
    ∷ ((if truthy d.loan_type
          then details_event "LoanTypeDefined" (record (details_base t) { loan_type = d.loan_type })
            ∷ []
          else [])
        ++ ((if truthy_num d.approved_amt
              then details_event "LoanApprovedAmtDefined"
                  (record (details_base t) { approved_amt = d.approved_amt })
                ∷ []
              else [])
            ++ (if truthy d.comment
                then details_event "LoanDtlCommentDefined"
                    (record (details_base t) { comment = d.comment })
                  ∷ []
                else [])))

-- What a command on existing details saves, or throws.
unfoldable pub decide_details :
    DetailsCommand → Entity LoanDetails → Result (List (Event DetailsPayload))
decide_details (define_loan_contact t g) n =
    if is_blank g.name
    then throw required_data_missing
    else if is_blank g.phone
    then throw required_data_missing
    else if is_blank g.email
    then throw required_data_missing
    else ok (
        details_event "LoanContactDefined"
          (record (details_base t) { contact = assign_contact (or_no_contact n.domain.contact) g })
        ∷ [])
decide_details (define_loan_type t v) n =
    ok (details_event "LoanTypeDefined" (record (details_base t) { loan_type = v }) ∷ [])
decide_details (define_loan_tenor t v) n =
    if truthy_num v
    then ok (details_event "LoanTenorDefined" (record (details_base t) { tenor = v }) ∷ [])
    else throw required_data_missing
decide_details (define_loan_currency t v) n =
    if truthy v
    then ok (details_event "LoanCurrencyDefined" (record (details_base t) { currency = v }) ∷ [])
    else throw required_data_missing
decide_details (define_loan_requested_amt t v) n =
    if truthy_num v
    then ok (
        details_event "LoanRequestedAmtDefined" (record (details_base t) { requested_amt = v })
        ∷ [])
    else throw required_data_missing
decide_details (define_loan_approved_amt t v) n =
    ok (details_event "LoanApprovedAmtDefined" (record (details_base t) { approved_amt = v }) ∷ [])
decide_details (define_loan_dtl_comment t v) n =
    ok (details_event "LoanDtlCommentDefined" (record (details_base t) { comment = v }) ∷ [])
decide_details _ n = throw invalid_operation

module _ (repo : Repo DetailsPayload LoanDetails) where
  unfoldable pub loan_details_command_handler :
      DetailsCommand → Action repo.Db (Commit DetailsPayload)
  loan_details_command_handler (create_loan_details t d) =
      if is_requester d.requester
      then (if is_contact d.contact
          then (if truthy_num d.start_date
              then (if truthy_num d.tenor
                  then (if truthy d.currency
                      then (if truthy_num d.requested_amt
                          then repo.create t.loan_id (created_details t d)
                          else raise required_data_missing)
                      else raise required_data_missing)
                  else raise required_data_missing)
              else raise required_data_missing)
          else raise required_data_missing)
      else raise required_data_missing
  loan_details_command_handler (define_loan_requester t v) = raise invalid_operation
  loan_details_command_handler (define_loan_start_date t v) = raise invalid_operation
  loan_details_command_handler k =
      update_existing repo (details_target k).loan_id loan_details_not_found (decide_details k)
