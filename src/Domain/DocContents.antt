-- ===== src/Domain/DocContents.antt =====
-- packages/model-document/src/doc-contents/domain: the reducer and the command handler of the private
-- contents of documents.
pub mod Table
pub mod Laws
use fabric_es.Prelude.{
  ℕ, String, Bool, ◌==◌, ◌&&◌, Option, none, some, List, [], ◌∷◌, Result, ok, throw, Error,
  type_error, new_error, truthy, if◌then◌else◌,
}
use fabric_es.Prelude.Action.{Action, raise}
use fabric_es.Types.{Event, Commit}
use fabric_es.Reducer.{Entity, Callback}
use fabric_es.Repository.{Repo}
use fabric_es.Domain.Handlers.{required_data_missing, spread, fresh, plain, update_existing}

-- model.ts: `DataContent | FileContent`, read through a cast to either, so with the fields of both.
pub record Content : Type 0 where
  pub body : Option String
  pub format : Option String
  pub link : Option String

pub record DocContents : Type 0 where
  pub document_id : Option String
  pub content : Option Content
  pub timestamp : Option ℕ

-- events.ts: the fields that some event's payload has.
pub record ContentsPayload : Type 0 where
  pub document_id : Option String
  pub user_id : Option String
  pub timestamp : Option ℕ
  pub body : Option String
  pub format : Option String
  pub link : Option String

abbrev no_contents : DocContents
no_contents = record { document_id = none; content = none; timestamp = none }

abbrev with_content : Option (Entity DocContents) → Content → Option (Entity DocContents)
with_content contents c =
    let n = spread no_contents contents in
    some (record n { domain = record n.domain { content = some c } })

-- reducer.ts
unfoldable pub doc_contents_reducer : Callback ContentsPayload DocContents
doc_contents_reducer contents e =
    let p = e.payload.body in
    if e.type == "DocContentsCreated"
    then some (
        fresh p.document_id
          (record { document_id = p.document_id; content = none; timestamp = p.timestamp }))
    else if e.type == "DocContentsDataDefined"
    then with_content contents (record { body = p.body; format = none; link = none })
    else if e.type == "DocContentsFileDefined"
    then with_content contents (record { body = none; format = p.format; link = p.link })
    else contents

-- commands.ts
pub record ContentsTarget : Type 0 where
  pub user_id : Option String
  pub document_id : String
  pub timestamp : Option ℕ

pub data DocContentsCommand : Type 0 where
  create_doc_contents define_doc_contents_content :
      ContentsTarget → Option Content → DocContentsCommand

abbrev base : ContentsTarget → ContentsPayload
base t = record {
  document_id = some t.document_id;
  user_id = t.user_id;
  timestamp = t.timestamp;
  body = none;
  format = none;
  link = none;
}

abbrev pub doc_contents_not_found : Error
doc_contents_not_found = new_error "DOC_CONTENTS_NOT_FOUND"

abbrev pub doc_contents_mismatched : Error
doc_contents_mismatched = new_error "DOC_CONTENTS_MISMATCHED"

abbrev pub contents_created : ContentsTarget → Event ContentsPayload
contents_created t = plain "DocContentsCreated" none (base t)

abbrev pub data_defined : ContentsTarget → Content → Event ContentsPayload
data_defined t c = plain "DocContentsDataDefined" none (record (base t) { body = c.body })

abbrev pub file_defined : ContentsTarget → Content → Event ContentsPayload
file_defined t c =
    plain "DocContentsFileDefined" none (record (base t) { format = c.format; link = c.link })

-- The events of `CreateDocContents`.
unfoldable pub created_contents :
    ContentsTarget → Option Content → Result (List (Event ContentsPayload))
created_contents t none = throw required_data_missing
created_contents t (some c) =
    if truthy c.body
    then ok (contents_created t ∷ data_defined t c ∷ [])
    else if truthy c.format && truthy c.link
    then ok (contents_created t ∷ file_defined t c ∷ [])
    else throw required_data_missing

-- A save of `event`, unless the field of the old content that belongs to the other kind is set.
unfoldable pub unless_mismatched :
    (Content → Option String)
    → Event ContentsPayload
    → Option Content
    → Result (List (Event ContentsPayload))
unless_mismatched other event none = throw type_error
unless_mismatched other event (some old) =
    if truthy (other old) then throw doc_contents_mismatched else ok (event ∷ [])

-- What `DefineDocContentsContent` saves for existing contents, or what it throws.
unfoldable pub decide_content :
    ContentsTarget → Option Content → Entity DocContents → Result (List (Event ContentsPayload))
unfolding unless_mismatched
decide_content t none n = throw type_error
decide_content t (some c) n =
    if truthy c.body
    then unless_mismatched (λ old. old.format) (data_defined t c) n.domain.content
    else if truthy c.format && truthy c.link
    then unless_mismatched (λ old. old.body) (file_defined t c) n.domain.content
    else throw required_data_missing

-- handler.ts
module _ (repo : Repo ContentsPayload DocContents) where
  unfoldable pub doc_contents_command_handler :
      DocContentsCommand → Action repo.Db (Commit ContentsPayload)
  unfolding created_contents decide_content
  doc_contents_command_handler (create_doc_contents t content) = elim (created_contents t content) [
    | throw e ↦ raise e
    | ok events ↦ repo.create t.document_id events
  ]
  doc_contents_command_handler (define_doc_contents_content t content) =
      update_existing repo t.document_id doc_contents_not_found (decide_content t content)
