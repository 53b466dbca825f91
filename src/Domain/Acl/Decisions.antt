-- ===== src/Domain/Acl/Decisions.antt =====
-- How the last grant or revocation among the events decides on the access.
use fabric_es.Prelude.{
  ℕ, suc, ◌+◌, String, ◌≡◌, refl, ap, sym, ◌∙◌, Option, none, some, List, [], ◌∷◌, ◌++◌, length,
  length-append, arith,
}
use fabric_es.Types.{Event, Commit}
use fabric_es.Reducer.{or_empty}
use fabric_es.Reducer.Compute.{history_of, history_of-append}
use fabric_es.Domain.Acl.{
  Acl, AclPayload, acl_reducer, reduce_events, reduce_commits, status_at, spread_acl, granted,
  revoked,
}

module _ (clock : ℕ → ℕ) where
  reduce_events-append :
      (n : ℕ) (acl : Option Acl) (es fs : List (Event AclPayload))
      → reduce_events clock n acl (es ++ fs)
        ≡ reduce_events clock (n + length es) (reduce_events clock n acl es) fs
  unfolding reduce_events
  reduce_events-append n acl [] fs = ap (λ k. reduce_events clock k acl fs) (omega arith)
  reduce_events-append n acl (e ∷ es) fs =
      reduce_events-append (suc n) (acl_reducer (clock n) acl e) es fs
      ∙ ap (λ k. reduce_events clock k (reduce_events clock n acl (e ∷ es)) fs)
          (omega (arith, length-append {0} es fs))

  -- The commits are reduced as their events are, one after the other.
  reduce_commits-history_of :
      (n : ℕ) (acl : Option Acl) (cs : List (Commit AclPayload))
      → reduce_commits clock n acl cs ≡ reduce_events clock n acl (history_of cs)
  unfolding reduce_commits reduce_events
  reduce_commits-history_of n acl [] = refl
  reduce_commits-history_of n acl (c ∷ cs) =
      reduce_commits-history_of (n + length (or_empty c.events))
        (reduce_events clock n acl (or_empty c.events)) cs
      ∙ sym (reduce_events-append n acl (or_empty c.events) (history_of cs))

  -- A commit with one event at the end of the log is reduced last.
  pub reduce_commits-last :
      (cs : List (Commit AclPayload)) (c : Commit AclPayload) (e : Event AclPayload)
      → c.events ≡ some (e ∷ [])
      → reduce_commits clock 0 none (cs ++ c ∷ [])
        ≡ acl_reducer (clock (length (history_of cs))) (reduce_commits clock 0 none cs) e
  unfolding reduce_events
  reduce_commits-last cs c e h =
      reduce_commits-history_of 0 none (cs ++ c ∷ [])
      ∙ ap (λ es. reduce_events clock 0 none es)
          (history_of-append cs (c ∷ []) ∙ ap (λ x. history_of cs ++ (or_empty x ++ [])) h)
      ∙ reduce_events-append 0 none (history_of cs) (e ∷ [])
      ∙ ap (λ a. reduce_events clock (0 + length (history_of cs)) a (e ∷ []))
          (sym (reduce_commits-history_of 0 none cs))
      ∙ ap (λ k. acl_reducer (clock k) (reduce_commits clock 0 none cs) e) (omega arith)

-- What a grant makes of the access: it is active or expired, and no longer revoked.
pub record IsGranted (now t : ℕ) (a : Acl) : Type 0 where
  pub status : a.status ≡ some (status_at now (some t))
  pub expire_at : a.expire_at ≡ some t
  pub revoke_at : a.revoke_at ≡ none

-- What a revocation makes of it: only the status and the time of the revocation change.
pub record IsRevoked (t : ℕ) (before : Option Acl) (a : Acl) : Type 0 where
  pub status : a.status ≡ some "R"
  pub revoke_at : a.revoke_at ≡ some t
  pub create_at : a.create_at ≡ (spread_acl before).create_at
  pub expire_at : a.expire_at ≡ (spread_acl before).expire_at

pub acl_reducer-IsGranted :
    (now : ℕ) (before : Option Acl) (entity id accessor : String) (grant_at expire_at : ℕ)
    → (a : Acl) × (acl_reducer now before (granted entity id accessor grant_at expire_at) ≡ some a)
      × IsGranted now expire_at a
unfolding acl_reducer
acl_reducer-IsGranted now none entity id accessor grant_at expire_at =
    (_, refl, record { status = refl; expire_at = refl; revoke_at = refl })
acl_reducer-IsGranted now (some b) entity id accessor grant_at expire_at =
    (_, refl, record { status = refl; expire_at = refl; revoke_at = refl })

pub acl_reducer-IsRevoked :
    (now : ℕ) (before : Option Acl) (entity id accessor : String) (revoke_at : ℕ)
    → (a : Acl) × (acl_reducer now before (revoked entity id accessor revoke_at) ≡ some a)
      × IsRevoked revoke_at before a
unfolding acl_reducer
acl_reducer-IsRevoked now before entity id accessor revoke_at =
    (_, refl, record { status = refl; revoke_at = refl; create_at = refl; expire_at = refl })
