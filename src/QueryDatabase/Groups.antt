-- ===== src/QueryDatabase/Groups.antt =====
-- The grouping by entity id in `mergeEntityBatch` of
-- packages/fabric-cqrs/src/queryHandler/createQueryDatabase.ts.
use mathlib.Core.List.{append_assoc, append-nil}
use fabric_es.Prelude.{
  String, ◌≡◌, refl, sym, ap, ◌∙◌, Bool, ◌==◌, eq_iff, Option, List, [], ◌∷◌, ◌++◌, foldl, Dict,
  lookup, lookup-assign, text_of, select, select-append, same, Bool-cases, inl, inr,
}
use fabric_es.Types.{Commit}
use fabric_es.Reducer.{or_empty}
use fabric_es.QueryDatabase.Entities.{add_to_group, group_by_id}

module _ {P : Type 0} where
  abbrev pub has_id_text : String → Commit P → Bool
  has_id_text k c = text_of c.id == k

  or_empty-add_to_group :
      (k : String) (g : Dict (List (Commit P))) (c : Commit P)
      → or_empty (lookup k (add_to_group g c))
        ≡ or_empty (lookup k g) ++ select (has_id_text k) (c ∷ [])
  unfolding add_to_group
  or_empty-add_to_group k g c = rw lookup-assign (elim (Bool-cases (text_of c.id == k)) [
    | inl e ↦ rw (e, (eq_iff (text_of c.id) k).0 e) refl
    | inr e ↦ rw e (sym (append-nil _))
  ])

  or_empty-groups :
      (k : String) (g : Dict (List (Commit P))) (cs : List (Commit P))
      → or_empty (lookup k (foldl add_to_group g cs))
        ≡ or_empty (lookup k g) ++ select (has_id_text k) cs
  or_empty-groups k g [] = sym (append-nil _)
  or_empty-groups k g (c ∷ cs) =
      or_empty-groups k (add_to_group g c) cs
      ∙ ap (λ l. l ++ select (has_id_text k) cs) (or_empty-add_to_group k g c)
      ∙ append_assoc (or_empty (lookup k g)) (select (has_id_text k) (c ∷ [])) _
      ∙ ap (λ l. or_empty (lookup k g) ++ l) (sym (select-append (has_id_text k) (c ∷ []) cs))

  -- The group of an id in mergeEntityBatch, empty if there is none, holds the commits of the batch
  -- that have the entity name and that id, in the order of the batch.
  pub group_by_id-select :
      (k : String) (name : Option String) (commits : List (Commit P))
      → or_empty (lookup k (group_by_id name commits))
        ≡ select (has_id_text k) (select (λ c. same c.entity_name name) commits)
  unfolding group_by_id lookup
  group_by_id-select k name commits =
      or_empty-groups k [] (select (λ c. same c.entity_name name) commits)
