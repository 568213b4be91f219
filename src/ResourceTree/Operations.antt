-- ===== src/ResourceTree/Operations.antt =====
-- src/resourcetree.c: `oper_to_all`, an operation on every entity of a branch.
pub mod Emptying
use vlbi_streamer.Base.{List, [], ◌∷◌, Bool, true, false, if◌then◌else◌, Outcome, ok, ◌>>=◌}
use vlbi_streamer.ResourceTree.{
  Listed, Branch, Place, free, busy, loaded, list_at, update, remove_from_branch,
}

-- An operation: its callback on an entity and on `param`; whether the entity is removed after it, as
-- for BRANCHOP_CLOSERBUF and BRANCHOP_CLOSEWRITER; and the `close` of the removal.
pub record Operation (E P : Type 0) : Type 0 where
  pub act : E → P → E × P
  pub removes : Bool
  pub close : E → P → P

module _ {E P : Type 0} where
  -- One element of the list `p`; a pointer into the list is the list from there on.
  pub oper_to_entity : Operation E P → Place → Branch E → P → Listed E → Outcome (Branch E × P)
  oper_to_entity op p br param le =
      let (entity, param') = op.act le.entity param in
      let br' = update br p (record le { entity = entity }) in
      if op.removes
      then (do br'' ← remove_from_branch br' le.self; ok (br'', op.close entity param'))
      else ok (br', param')

  -- `oper_to_list`
  pub oper_to_list : Operation E P → Place → Branch E → P → List (Listed E) → Outcome (Branch E × P)
  oper_to_list op p br param [] = ok (br, param)
  oper_to_list op p br param (le ∷ l) = do
    (br', param') ← oper_to_entity op p br param le
    oper_to_list op p br' param' l

  -- `oper_to_all`
  pub oper_to_all : Operation E P → Branch E → P → Outcome (Branch E × P)
  oper_to_all op br param = do
    (br1, p1) ← oper_to_list op free br param br.freelist
    (br2, p2) ← oper_to_list op busy br1 p1 br1.busylist
    oper_to_list op loaded br2 p2 br2.loadedlist
