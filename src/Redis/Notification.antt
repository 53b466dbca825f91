-- ===== src/Redis/Notification.antt =====
-- packages/fabric-cqrs/src/queryHandler/createNotificationCenter.ts. A notification is a flag under
-- a key: "1" unread, "0" read.
use fabric_es.Prelude.{
  ℕ, String, ◌&&◌, Option, none, some, List, [], ◌∷◌, map, Result, ok, throw, Error, new_error,
  truthy, text_of, any, is_some, length, eqb, if◌then◌else◌,
}
use fabric_es.Redis.{Client}
use fabric_es.Redis.Selectors.{◌+++◌}
use fabric_es.Redis.Repository.{pipeline_keys, delete_all}

pub record Response (A : Type 0) : Type 0 where
  pub status : String
  pub message : Option String
  pub result : Option A
  pub errors : Option (List (Option Error))

module _ {A : Type 0} where
  abbrev pub ok_with : A → Response A
  ok_with a = record { status = "OK"; message = none; result = some a; errors = none }

  abbrev pub failed : List (Option Error) → Response A
  failed es = record { status = "ERROR"; message = none; result = none; errors = some es }

pub record Fields : Type 0 where
  pub creator : Option String
  pub entity_name : Option String
  pub id : Option String
  pub commit_id : Option String

abbrev prefix : Option String → Option String → String
prefix creator entity_name = "n:" +++ text_of creator +++ ":" +++ text_of entity_name +++ ":"

-- `none` where the code has a value that counts as false.
unfoldable pub get_pattern_or_single_key : Fields → Option String
get_pattern_or_single_key f =
    if truthy f.commit_id
    then (if truthy f.creator && (truthy f.entity_name && truthy f.id)
        then some (prefix f.creator f.entity_name +++ text_of f.id +++ ":" +++ text_of f.commit_id)
        else none)
    else if truthy f.id
    then (if truthy f.creator && truthy f.entity_name
        then some (prefix f.creator f.entity_name +++ text_of f.id +++ ":*")
        else none)
    else if truthy f.entity_name
    then (if truthy f.creator then some (prefix f.creator f.entity_name +++ "*") else none)
    else some ("n:" +++ text_of f.creator +++ ":*")

abbrev pub without_commit : Fields → Fields
without_commit f = record f { commit_id = none }

abbrev pub invalid_arg : Error
invalid_arg = new_error "invalid input argument"

unfoldable pub notification_key : Fields → String
notification_key f = prefix f.creator f.entity_name +++ text_of f.id +++ ":" +++ text_of f.commit_id

module _ {X : Type 0} (client : Client X) where
  open client use {Db}

  -- Key and value side by side, as the loop over the keys sets them.
  pub pair_up : List String → List (Option Error × Option String) → List (String × Option String)
  pair_up (k ∷ ks) ((e, v) ∷ items) = (k, v) ∷ pair_up ks items
  pair_up (k ∷ ks) [] = []
  pair_up [] items = []

  pub get_all : Db → List String → List (Option Error × Option String)
  get_all db [] = []
  get_all db (k ∷ ks) = client.get db k ∷ get_all db ks

  unfoldable pub clear_notification : Fields → Db → Result (Response (List String)) × Db
  unfolding get_pattern_or_single_key
  clear_notification f db = elim (get_pattern_or_single_key f) [
    | none ↦ (throw invalid_arg, db)
    | some key ↦
        let (r, db') = client.del_key db key in
        elim r [
          | ok _ ↦ (ok (ok_with (key ∷ [])), db')
          | throw e ↦ (ok (failed (some e ∷ [])), db')
        ]
  ]

  -- The keys of the answer come from a scan of their own, before the deletion.
  unfoldable pub clear_notifications : Fields → Db → Result (Response (Option (List String))) × Db
  unfolding get_pattern_or_single_key pipeline_keys delete_all
  clear_notifications f db = elim (get_pattern_or_single_key (without_commit f)) [
    | none ↦ (throw invalid_arg, db)
    | some pattern ↦ elim (client.scan db pattern none) [
      | throw e ↦ (ok (failed (some e ∷ [])), db)
      | ok keys ↦ elim (pipeline_keys client db pattern) [
        | throw e ↦ (ok (failed (some e ∷ [])), db)
        | ok found ↦
            let (es, total, db') = delete_all client db found in
            (ok (if any is_some es then failed es else ok_with keys), db')
      ]
    ]
  ]

  unfoldable pub notify : Fields → ℕ → Db → Response (Unit {0}) × Db
  unfolding notification_key
  notify f expiry db =
      let (r, db') = client.set_ex db (notification_key f) "1" expiry in
      elim r [
        | ok _ ↦ (record { status = "OK"; message = none; result = none; errors = none }, db')
        | throw e ↦ (failed (some e ∷ []), db')
      ]

  -- `GETSET` turns the flag off after reading.
  unfoldable pub get_notification :
      Fields → Db → Result (Response (List (String × Option String))) × Db
  unfolding get_pattern_or_single_key
  get_notification f db = elim (get_pattern_or_single_key f) [
    | none ↦ (throw invalid_arg, db)
    | some key ↦
        let (r, db') = client.getset db key "0" in
        elim r [
          | ok value ↦ (ok (ok_with ((key, value) ∷ [])), db')
          | throw e ↦ (ok (failed (some e ∷ [])), db')
        ]
  ]

  -- The answer for the keys of the first scan, with those of the pipeline's own scan.
  pub flags_of : Db → List String → List String → Response (List (String × Option String))
  unfolding get_all pair_up
  flags_of db keys found =
      let items = get_all db found in
      if eqb (length items) (length keys)
      then (let es = map (λ (a : Option Error × Option String). a.0) items in
          if any is_some es then failed es else ok_with (pair_up keys items))
      else failed (some (new_error "unexpected error") ∷ [])

  -- Reads only: the database is not changed.
  unfoldable pub get_notifications_by_fields :
      Fields → Db → Result (Response (List (String × Option String)))
  unfolding get_pattern_or_single_key pipeline_keys flags_of
  get_notifications_by_fields f db = elim (get_pattern_or_single_key (without_commit f)) [
    | none ↦ throw invalid_arg
    | some pattern ↦ elim (client.scan db pattern (some 1000)) [
      | throw e ↦ ok (failed (some e ∷ []))
      | ok none ↦ elim (pipeline_keys client db pattern) [
        | throw e ↦ ok (failed (some e ∷ []))
        | ok found ↦ ok (failed (some (new_error "unexpected error") ∷ []))
      ]
      | ok (some []) ↦ ok (ok_with [])
      | ok (some (k ∷ ks)) ↦ elim (pipeline_keys client db pattern) [
        | throw e ↦ ok (failed (some e ∷ []))
        | ok found ↦ ok (flags_of db (k ∷ ks) found)
      ]
    ]
  ]
