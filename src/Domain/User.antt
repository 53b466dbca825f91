-- ===== src/Domain/User.antt =====
-- packages/gateway-lib/src/common/model/user/domain: the reducer and the command handler of users.
pub mod Laws
use fabric_es.Prelude.{ℕ, String, Bool, ◌==◌, Option, none, some, List, [], ◌∷◌, if◌then◌else◌}
use fabric_es.Prelude.Action.{Action}
use fabric_es.Types.{Event, Commit}
use fabric_es.Reducer.{Entity, Callback}
use fabric_es.Repository.{Repo}
use fabric_es.Domain.Handlers.{spread, fresh, plain, append_events}

-- model.ts
pub record User : Type 0 where
  pub user_id : Option String
  pub name : Option String
  pub merged_user_ids : Option (List String)

-- events.ts: the fields that some event's payload has.
pub record UserPayload : Type 0 where
  pub user_id : Option String
  pub name : Option String
  pub merged_user_ids : Option (List String)
  pub review_owner_id : Option String
  pub document_id : Option String
  pub trade_id : Option String
  pub timestamp : Option ℕ

abbrev pub no_user : User
no_user = record { user_id = none; name = none; merged_user_ids = none }

-- reducer.ts
unfoldable pub user_reducer : Callback UserPayload User
user_reducer user e =
    let p = e.payload.body in
    if e.type == "UserCreated"
    then some (
        fresh p.user_id
          (record { user_id = p.user_id; name = p.name; merged_user_ids = p.merged_user_ids }))
    else if e.type == "ReviewInvitationDeclined"
    then some (spread no_user user)
    else if e.type == "ReviewInvitationExpired"
    then some (spread no_user user)
    else user

-- commands.ts
pub data UserCommand : Type 0 where
  create_user : (user_id : String) (name : Option String) (timestamp : Option ℕ) → UserCommand
  decline_review_invitation expire_review_invitation :
      (user_id : String) (document_id trade_id : Option String) (timestamp : Option ℕ) → UserCommand

abbrev review : String → Option String → Option String → Option ℕ → UserPayload
review user_id document_id trade_id timestamp = record {
  user_id = none;
  name = none;
  merged_user_ids = none;
  review_owner_id = some user_id;
  document_id = document_id;
  trade_id = trade_id;
  timestamp = timestamp;
}

abbrev pub command_user : UserCommand → String
command_user (create_user id name timestamp) = id
command_user (decline_review_invitation id document_id trade_id timestamp) = id
command_user (expire_review_invitation id document_id trade_id timestamp) = id

-- The events that a command saves.
unfoldable pub user_events : UserCommand → List (Event UserPayload)
user_events (create_user id name timestamp) =
    plain "UserCreated" none (record {
      user_id = some id;
      name = name;
      merged_user_ids = some (id ∷ []);
      review_owner_id = none;
      document_id = none;
      trade_id = none;
      timestamp = timestamp;
    })
    ∷ []
user_events (decline_review_invitation id document_id trade_id timestamp) =
    plain "ReviewInvitationDeclined" none (review id document_id trade_id timestamp) ∷ []
user_events (expire_review_invitation id document_id trade_id timestamp) =
    plain "ReviewInvitationExpired" none (review id document_id trade_id timestamp) ∷ []

-- handler.ts
module _ (repo : Repo UserPayload User) where
  unfoldable pub user_command_handler : UserCommand → Action repo.Db (Commit UserPayload)
  unfolding user_events append_events
  user_command_handler (create_user id name timestamp) =
      repo.create id (user_events (create_user id name timestamp))
  user_command_handler c = append_events repo (command_user c) (user_events c)
