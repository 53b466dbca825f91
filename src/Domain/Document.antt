-- ===== src/Domain/Document.antt =====
-- packages/model-document/src/document/domain: the reducer and the command handler of documents.
pub mod Laws
use fabric_es.Prelude.{
  ℕ, String, Bool, ◌==◌, Option, none, some, List, [], ◌∷◌, ◌++◌, Result, ok, throw, Error,
  new_error, truthy, if◌then◌else◌,
}
use fabric_es.Prelude.Action.{Action, raise}
use fabric_es.Types.{Event, Commit, begin, end}
use fabric_es.Reducer.{Entity, Callback}
use fabric_es.Repository.{Repo}
use fabric_es.Domain.Handlers.{
  invalid_operation, required_data_missing, spread, fresh, plain, update_existing,
}

-- model.ts
pub data DocumentStatus : Type 0 where
  document_created document_deleted document_restricted : DocumentStatus

pub record Document : Type 0 where
  pub document_id : Option String
  pub owner_id : Option String
  pub loan_id : Option String
  pub title : Option String
  pub reference : Option String
  pub status : Option DocumentStatus
  pub timestamp : Option ℕ

-- events.ts: the fields that some event's payload has.
pub record DocumentPayload : Type 0 where
  pub document_id : Option String
  pub user_id : Option String
  pub timestamp : Option ℕ
  pub reference : Option String
  pub loan_id : Option String
  pub title : Option String

abbrev no_document : Document
no_document = record {
  document_id = none;
  owner_id = none;
  loan_id = none;
  title = none;
  reference = none;
  status = none;
  timestamp = none;
}

abbrev with_document : Option (Entity Document) → (Document → Document) → Option (Entity Document)
with_document document f =
    let n = spread no_document document in some (record n { domain = f n.domain })

-- reducer.ts
unfoldable pub document_reducer : Callback DocumentPayload Document
document_reducer document e =
    let p = e.payload.body in
    if e.type == "DocumentCreated"
    then some (
        fresh p.document_id (record {
          document_id = p.document_id;
          owner_id = p.user_id;
          loan_id = none;
          title = none;
          reference = none;
          status = some document_created;
          timestamp = p.timestamp;
        }))
    else if e.type == "DocumentDeleted"
    then with_document document (λ d. record d { status = some document_deleted })
    else if e.type == "DocumentRestricted"
    then with_document document (λ d. record d { status = some document_restricted })
    else if e.type == "DocumentReferenceDefined"
    then with_document document (λ d. record d { reference = p.reference })
    else if e.type == "DocumentLoanIdDefined"
    then with_document document (λ d. record d { loan_id = p.loan_id })
    else if e.type == "DocumentTitleDefined"
    then with_document document (λ d. record d { title = p.title })
    else document

-- commands.ts
pub record DocumentTarget : Type 0 where
  pub user_id : Option String
  pub document_id : String
  pub timestamp : Option ℕ

pub data DocumentCommand : Type 0 where
  create_document : DocumentTarget → (loan_id title reference : Option String) → DocumentCommand
  delete_document restrict_document_access : DocumentTarget → DocumentCommand
  define_document_reference define_document_loan_id define_document_title :
      DocumentTarget → Option String → DocumentCommand

abbrev base : DocumentTarget → DocumentPayload
base t = record {
  document_id = some t.document_id;
  user_id = t.user_id;
  timestamp = t.timestamp;
  reference = none;
  loan_id = none;
  title = none;
}

abbrev pub document_not_found : Error
document_not_found = new_error "DOCUMENT_NOT_FOUND"

-- The events of `CreateDocument`.
pub created_events :
    DocumentTarget → Option String → Option String → Option String → List (Event DocumentPayload)
created_events t loan_id title reference =
    plain "DocumentCreated" (some begin) (base t)
      ∷ plain "DocumentReferenceDefined" none (record (base t) { reference = reference })
      ∷ (if truthy loan_id
          then plain "DocumentLoanIdDefined" none (record (base t) { loan_id = loan_id }) ∷ []
          else [])
    ++ (if truthy title
        then plain "DocumentTitleDefined" none (record (base t) { title = title }) ∷ []
        else [])

-- The event that a command on an existing document saves, or what it throws.
pub decide_document : DocumentCommand → Result (List (Event DocumentPayload))
decide_document (delete_document t) = ok (plain "DocumentDeleted" (some end) (base t) ∷ [])
decide_document (restrict_document_access t) = ok (plain "DocumentRestricted" none (base t) ∷ [])
decide_document (define_document_loan_id t loan_id) =
    ok (plain "DocumentLoanIdDefined" none (record (base t) { loan_id = loan_id }) ∷ [])
decide_document (define_document_title t title) =
    ok (plain "DocumentTitleDefined" none (record (base t) { title = title }) ∷ [])
decide_document _ = throw invalid_operation

abbrev pub document_target : DocumentCommand → DocumentTarget
document_target (create_document t _ _ _) = t
document_target (delete_document t) = t
document_target (restrict_document_access t) = t
document_target (define_document_reference t _) = t
document_target (define_document_loan_id t _) = t
document_target (define_document_title t _) = t

-- handler.ts
module _ (repo : Repo DocumentPayload Document) where
  unfoldable pub document_command_handler :
      DocumentCommand → Action repo.Db (Commit DocumentPayload)
  unfolding created_events decide_document
  document_command_handler (create_document t loan_id title reference) =
      if truthy reference
      then repo.create t.document_id (created_events t loan_id title reference)
      else raise required_data_missing
  document_command_handler (define_document_reference t reference) = raise invalid_operation
  document_command_handler c =
      update_existing repo (document_target c).document_id document_not_found
        (λ n. decide_document c)
