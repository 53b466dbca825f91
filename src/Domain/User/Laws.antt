-- ===== src/Domain/User/Laws.antt =====
-- What the user commands do to the state that a repository reports.
use fabric_es.Prelude.{◌≡◌, ◌∙◌, refl, Option, some, [], ◌∷◌}
use fabric_es.Reducer.{Entity, get_reducer}
use fabric_es.Repository.{Repo, IsRepo}
use fabric_es.Domain.Handlers.{reducer_of, state_of, fresh, spread}
use fabric_es.Domain.Handlers.Effects.{Accepts, create_lem, append_lem, get_reducer-plain}
use fabric_es.Domain.User.{
  User, UserPayload, no_user, user_reducer, UserCommand, create_user, decline_review_invitation,
  expire_review_invitation, command_user, user_events, user_command_handler,
}

-- What a command makes of the user with its id: a review invitation changes no field, and makes an
-- entity without fields of a user that does not exist.
abbrev pub user_after : UserCommand → Option (Entity User) → Option (Entity User)
user_after (create_user id name timestamp) s =
    some (
      fresh (some id) (record { user_id = some id; name = name; merged_user_ids = some (id ∷ []) }))
user_after _ s = some (spread no_user s)

user_events_lem :
    (c : UserCommand) (s : Option (Entity User))
    → get_reducer user_reducer (user_events c) s ≡ user_after c s
unfolding user_events user_reducer
user_events_lem (create_user id name timestamp) s =
    rw get_reducer-plain (unfold get_reducer in refl)
user_events_lem (decline_review_invitation id document_id trade_id timestamp) s =
    rw get_reducer-plain (unfold get_reducer in refl)
user_events_lem (expire_review_invitation id document_id trade_id timestamp) s =
    rw get_reducer-plain (unfold get_reducer in refl)

module _ {repo : Repo UserPayload User} (laws : IsRepo repo (reducer_of user_reducer))
    (db : repo.Db) (v : laws.Valid db) where
  -- Over any repository that satisfies the laws, in a valid and ready database, every user command
  -- saves a commit, leaves the database valid, turns the user with its id into what the table says
  -- (an invitation that is declined or has expired changes no field of an existing user), and
  -- changes no other user.
  pub user_command_handler-effect :
      (c : UserCommand)
      → laws.Ready db
      → Accepts user_reducer laws
          (command_user c)
          (user_command_handler repo c)
          db
          (user_after c (state_of user_reducer laws db (command_user c)))
  unfolding user_command_handler
  user_command_handler-effect (create_user id name timestamp) r =
      let es = user_events (create_user id name timestamp) in
      let (c, db', made, v', own, others) = create_lem user_reducer laws id es db v r in
      (c, db', made, v', own ∙ user_events_lem (create_user id name timestamp) _, others)
  user_command_handler-effect k r =
      let (c, db', made, v', own, others) =
        append_lem user_reducer laws (command_user k) (user_events k) db v r in
      (c, db', made, v', own ∙ user_events_lem k _, others)
