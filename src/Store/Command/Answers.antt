-- ===== src/Store/Command/Answers.antt =====
-- The epics of CREATE always come to an answer of their transaction.
use text.Mathlib.TextPositions.{eq_refl}
use fabric_es.Prelude.{
  String, ◌≡◌, refl, true, false, not, ◌==◌, Bool-cases, inl, inr, Option, none, some, [], ◌∷◌,
  Dict, same, truthy, arith,
}
use fabric_es.Types.{Commit}
use fabric_es.Services.{Network, submit_private_data}
use fabric_es.Store.{Reply, Failure, bad_reply, dispatch_result, network_error, get_error_action}
use fabric_es.Store.Command.{
  Texts, CreateArgs, Moment, CommandAction, Emitted, answer, track, create_success, create_error,
  create_epic, create_run, track_epic, private_result, if_connected, continue_with, submit_created,
  submit_created_private,
}

-- An answer to `token` of one of these two types.
abbrev pub Answers : {P : Type 0} → String → String → String → CommandAction P → Type 0
Answers token success error a =
    (a.tx_id ≡ some token) × ((a.type == success) ≡ false → (a.type == error) ≡ true)

module _ {P : Type 0} (token : String) where
  pub dispatch_result-Answers :
      (success error : String) (r : Reply (Dict (Commit P)))
      → Answers token success error (dispatch_result (some token) success error r)
  unfolding dispatch_result
  dispatch_result-Answers success error r = elim (Bool-cases (truthy r.error)) [
    | inl y ↦ rw y (refl, λ q. eq_refl error)
    | inr n ↦ rw n (ground (arith, eq_refl error, eq_refl success))
  ]

  error-Answers :
      (e : Failure (Dict (Commit P)))
      → Answers {P = P} token create_success create_error
          (get_error_action create_error (some token) (some e))
  error-Answers e = (refl, λ q. refl)

  abbrev EmitsAnswer : Emitted P → Type 0
  EmitsAnswer (answer a) = Answers token create_success create_error a
  EmitsAnswer (track args) = Unit

  module _ (network : Network P) (texts : Texts P) where
    if_connected-IsAnswered :
        {B : Type 0} (Holds : B → Type 0) (wrap : CommandAction P → B) (o : Option String)
        (run : B × network.Ledger) (l : network.Ledger)
        → Holds (wrap (get_error_action create_error (some token) (some (network_error o))))
        → Holds run.0
        → Holds (if_connected network texts (some token) wrap o run l).0
    if_connected-IsAnswered Holds wrap (some e) run l h k = h
    if_connected-IsAnswered Holds wrap none run l h k = k

    private_result-EmitsAnswer :
        (args : CreateArgs P) (r : Reply (Dict (Commit P)))
        → EmitsAnswer (private_result network texts (some token) args r)
    unfolding private_result
    private_result-EmitsAnswer args r = elim (Bool-cases (truthy r.error)) [
      | inl y ↦ rw y (error-Answers (network_error r.error))
      | inr n ↦ rw n (elim (Bool-cases (same r.status (some "ERROR"))) [
        | inl y ↦ rw y (error-Answers (bad_reply r))
        | inr m ↦ rw m (elim (Bool-cases (truthy args.parent_name)) [
          | inl y ↦ rw y tt
          | inr k ↦ rw k (refl, λ q. cc)
        ])
      ])
    ]

    create_epic-EmitsAnswer :
        (moment : Moment) (enrollment_id : String) (args : CreateArgs P) (l : network.Ledger)
        → EmitsAnswer (create_epic network texts (some token) moment enrollment_id args l).0
    unfolding create_epic submit_created submit_created_private
    create_epic-EmitsAnswer moment enrollment_id args l =
        if_connected-IsAnswered EmitsAnswer answer
          (network.get_network enrollment_id (not args.is_private_data) l) _ l
          (error-Answers
            (network_error (network.get_network enrollment_id (not args.is_private_data) l)))
          (elim (Bool-cases args.is_private_data) [
            | inl y ↦ rw y (
                private_result-EmitsAnswer args
                  (submit_private_data network moment.commit_id "privatedata:createCommit"
                    (some args.entity_name ∷ some args.id ∷ some (texts.show args.version) ∷ [])
                    (some (texts.stringify args.events)) l).0)
            | inr n ↦ rw n (dispatch_result-Answers _ _ _)
          ])

    track_epic-Answers :
        (no_body : P) (moment : Moment) (enrollment_id : String) (args : CreateArgs P)
        (l : network.Ledger)
        → Answers token create_success create_error
            (track_epic network texts (some token) no_body moment enrollment_id args l).0
    unfolding track_epic
    track_epic-Answers no_body moment enrollment_id args l =
        if_connected-IsAnswered (Answers token create_success create_error) (λ a. a)
          (network.get_network enrollment_id true l) _ l
          (error-Answers (network_error (network.get_network enrollment_id true l)))
          (dispatch_result-Answers _ _ _)

    continue_with-Answers :
        (run : CreateArgs P → network.Ledger → CommandAction P × network.Ledger) (e : Emitted P)
        (l : network.Ledger)
        → EmitsAnswer e
        → ((args : CreateArgs P) (l : network.Ledger)
            → Answers token create_success create_error (run args l).0)
        → Answers token create_success create_error
            (continue_with network texts (some token) run (e, l)).0
    continue_with-Answers run (answer a) l h k = h
    continue_with-Answers run (track args) l h k = k args l

    pub create_run-Answers :
        (no_body : P) (moment later : Moment) (enrollment_id : String) (args : CreateArgs P)
        (l : network.Ledger)
        → Answers token create_success create_error
            (create_run network texts (some token) no_body moment later enrollment_id args l).0
    unfolding create_run
    create_run-Answers no_body moment later enrollment_id args l =
        continue_with-Answers (track_epic network texts (some token) no_body later enrollment_id)
          (create_epic network texts (some token) moment enrollment_id args l).0
          (create_epic network texts (some token) moment enrollment_id args l).1
          (create_epic-EmitsAnswer moment enrollment_id args l)
          (track_epic-Answers no_body later enrollment_id)
