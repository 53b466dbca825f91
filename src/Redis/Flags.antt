-- ===== src/Redis/Flags.antt =====
-- The life of a notification of packages/fabric-cqrs/src/queryHandler/createNotificationCenter.ts: it is
-- set, read once as unread, then as read, and cleared, while its time to live has not passed.
use fabric_es.Prelude.{
  ℕ, String, ◌≡◌, ◌≢◌, ap, Bool, true, Option, none, some, List, [], ◌∷◌, Result, ok, truthy, ◌&&◌,
  ltb, arith,
}
use fabric_es.Redis.{Client}
use fabric_es.Redis.Held.{IsClient, nothing, held_text}
use fabric_es.Redis.Notification.{
  Response, Fields, ok_with, get_pattern_or_single_key, notification_key, notify, get_notification,
  clear_notification,
}

-- GETSET on a key without a hash, and DEL. GETSET on a hash fails.
pub record IsFlagClient {X : Type 0} {client : Client X} (laws : IsClient client) : Type 1 where
  pub swaps :
      (db : client.Db) (k v old : String)
      → laws.Up db
      → laws.value db k ≡ held_text old
      → (db' : client.Db) × (client.getset db k v ≡ (ok (some old), db'))
        × laws.Up db'
        × (laws.value db' k ≡ held_text v)
        × ((j : String) → k ≢ j → laws.value db' j ≡ laws.value db j)
  pub deletes :
      (db : client.Db) (k : String)
      → laws.Up db
      → (n : ℕ) × (db' : client.Db) × (client.del_key db k ≡ (ok n, db'))
        × laws.Up db'
        × (laws.value db' k ≡ nothing)
        × ((j : String) → k ≢ j → laws.value db' j ≡ laws.value db j)

abbrev pub is_complete : Fields → Bool
is_complete f = truthy f.creator && (truthy f.entity_name && (truthy f.id && truthy f.commit_id))

single_key_lem :
    (f : Fields) → is_complete f ≡ true → get_pattern_or_single_key f ≡ some (notification_key f)
unfolding get_pattern_or_single_key notification_key
single_key_lem f h = ground arith

module _ {X : Type 0} {client : Client X} {laws : IsClient client} (flags : IsFlagClient laws)
    (f : Fields) (complete : is_complete f ≡ true) where
  open client use {Db}

  abbrev key : String
  key = notification_key f

  notify-sets :
      (expiry : ℕ) (db : Db)
      → laws.Up db
      → ltb 0 expiry ≡ true
      → (db' : Db) × (notify client f expiry db
          ≡ (record { status = "OK"; message = none; result = none; errors = none }, db'))
        × laws.Up db'
        × (laws.value db' key ≡ held_text "1")
  unfolding notify
  notify-sets expiry db u positive =
      let (db', run, up, own, others) = laws.flags db key "1" expiry u positive in
      let answer : Response (Unit {0}) = record {
        status = "OK";
        message = none;
        result = none;
        errors = none;
      } in
      (db', rw (notify, run) (ap (λ s. (answer, s.1)) run), up, own)

  get_notification-swaps :
      (old : String) (db : Db)
      → laws.Up db
      → laws.value db key ≡ held_text old
      → (db' : Db) × (get_notification client f db ≡ (ok (ok_with ((key, some old) ∷ [])), db'))
        × laws.Up db'
        × (laws.value db' key ≡ held_text "0")
  unfolding get_notification
  get_notification-swaps old db u h =
      let (db', run, up, own, others) = flags.swaps db key "0" old u h in
      let answer : Option String × Db → Result (Response (List (String × Option String))) × Db =
        λ s. (ok (ok_with ((key, s.0) ∷ [])), s.1) in
      (
        db',
        rw (get_notification, single_key_lem f complete, run)
            (ap (λ s. answer (some old, s.1)) run),
        up,
        own,
      )

  clear_notification-deletes :
      (db : Db)
      → laws.Up db
      → (db' : Db) × (clear_notification client f db ≡ (ok (ok_with (key ∷ [])), db'))
        × laws.Up db'
        × (laws.value db' key ≡ nothing)
  unfolding clear_notification
  clear_notification-deletes db u =
      let (n, db', run, up, own, others) = flags.deletes db key u in
      let answer : Result (Response (List String)) = ok (ok_with (key ∷ [])) in
      (
        db',
        rw (clear_notification, single_key_lem f complete, run) (ap (λ s. (answer, s.1)) run),
        up,
        own,
      )

  -- While the server is up and the time to live, which is positive, has not passed, for a
  -- notification with a creator, an entity name, an id and a commit id: after notify,
  -- getNotification answers with the key as unread, a second one as read, and clearNotification
  -- answers with the key, which then holds nothing.
  pub notify-get_notification :
      (expiry : ℕ) (db : Db)
      → laws.Up db
      → ltb 0 expiry ≡ true
      → (db1 : Db) × (db2 : Db) × (db3 : Db) × (db4 : Db) × (notify client f expiry db
          ≡ (record { status = "OK"; message = none; result = none; errors = none }, db1))
        × (get_notification client f db1 ≡ (ok (ok_with ((key, some "1") ∷ [])), db2))
        × (get_notification client f db2 ≡ (ok (ok_with ((key, some "0") ∷ [])), db3))
        × (clear_notification client f db3 ≡ (ok (ok_with (key ∷ [])), db4))
        × (laws.value db4 key ≡ nothing)
  notify-get_notification expiry db u positive =
      let (db1, set, u1, f1) = notify-sets expiry db u positive in
      let (db2, first, u2, f2) = get_notification-swaps "1" db1 u1 f1 in
      let (db3, second, u3, f3) = get_notification-swaps "0" db2 u2 f2 in
      let (db4, cleared, u4, f4) = clear_notification-deletes db3 u3 in
      (db1, db2, db3, db4, set, first, second, cleared, f4)
