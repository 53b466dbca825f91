-- ===== src/Types/Guards.antt =====
-- packages/fabric-cqrs/src/utils/typeGuard.ts, over values that have the fields of `Commit`.
use fabric_es.Prelude.{Bool, ◌&&◌, is_some, values, Dict, all}
use fabric_es.Types.{Commit}

module _ {P : Type 0} where
  unfoldable pub is_commit : Commit P → Bool
  is_commit c =
      is_some c.commit_id
      && (is_some c.id && (is_some c.entity_id && (is_some c.version && is_some c.entity_name)))

  has_commit_fields : Commit P → Bool
  has_commit_fields c =
      is_some c.commit_id
      && (is_some c.id
          && (is_some c.entity_id
              && (is_some c.version && (is_some c.entity_name && is_some c.msp_id))))

  unfoldable pub is_commit_record : Dict (Commit P) → Bool
  unfolding has_commit_fields
  is_commit_record input = all has_commit_fields (values input)
