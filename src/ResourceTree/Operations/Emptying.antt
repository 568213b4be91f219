-- ===== src/ResourceTree/Operations/Emptying.antt =====
-- src/resourcetree.c: what the closing operations of `oper_to_all` leave.
use vlbi_streamer.Base.{◌≡◌, refl, sym, ◌∙◌, ap, List, [], ◌∷◌, some, true, ok, or_fault, arith}
use vlbi_streamer.ResourceTree.{
  Listed, Branch, Place, free, busy, loaded, list_at, with_list, find, unlink, assign, locate,
  update, remove_from_branch,
}
use vlbi_streamer.ResourceTree.Operations.{Operation, oper_to_entity, oper_to_list, oper_to_all}

module _ {E : Type 0} where
  -- The lists in front of a place are empty.
  abbrev IsReached : Place → Branch E → Type 0
  IsReached free br = Unit {0}
  IsReached busy br = br.freelist ≡ []
  IsReached loaded br = (br.freelist ≡ []) × (br.busylist ≡ [])

  find-head : (l : List (Listed E)) (le : Listed E) → find (le ∷ l) le.self ≡ some le
  unfolding find
  find-head l le = ground arith

  unlink-head : (l : List (Listed E)) (le : Listed E) → unlink (le ∷ l) le.self ≡ l
  unfolding unlink
  unlink-head l le = ground arith

  assign-head :
      (l : List (Listed E)) (le le' : Listed E) → le'.self ≡ le.self → assign (le ∷ l) le' ≡ le' ∷ l
  unfolding assign
  assign-head l le le' h = ground arith

  located-head :
      (br : Branch E) (p : Place) (le : Listed E) (l : List (Listed E))
      → IsReached p br
      → locate (with_list p (le ∷ l) br) le.self ≡ some (p, le)
  unfolding locate
  located-head br free le l r = rw (find-head l le, locate) refl
  located-head br busy le l r = rw (r, find-head l le, locate) refl
  located-head br loaded le l (r, r') = rw (r, r', find-head l le, locate) refl

  cut-head :
      (br : Branch E) (p : Place) (le : Listed E) (l : List (Listed E))
      → IsReached p br
      → remove_from_branch (with_list p (le ∷ l) br) le.self ≡ ok (with_list p l br)
  unfolding remove_from_branch
  cut-head br free le l r = rw (located-head br free le l r, or_fault, unlink-head l le) refl
  cut-head br busy le l r = rw (located-head br busy le l r, or_fault, unlink-head l le) refl
  cut-head br loaded le l r = rw (located-head br loaded le l r, or_fault, unlink-head l le) refl

  update-head :
      (br : Branch E) (p : Place) (le le' : Listed E) (l : List (Listed E))
      → list_at p br ≡ le ∷ l
      → le'.self ≡ le.self
      → update br p le' ≡ with_list p (le' ∷ l) br
  unfolding update
  update-head br free le le' l e h = rw (e, assign-head l le le' h) refl
  update-head br busy le le' l e h = rw (e, assign-head l le le' h) refl
  update-head br loaded le le' l e h = rw (e, assign-head l le le' h) refl

  reached :
      (br : Branch E) (p : Place) (l : List (Listed E))
      → IsReached p br
      → IsReached p (with_list p l br)
  reached br free l r = tt
  reached br busy l r = r
  reached br loaded l r = r

  there : (br : Branch E) (p : Place) (l : List (Listed E)) → list_at p (with_list p l br) ≡ l
  there br free l = refl
  there br busy l = refl
  there br loaded l = refl

  twice :
      (br : Branch E) (p : Place) (l l' : List (Listed E))
      → with_list p l (with_list p l' br) ≡ with_list p l br
  twice br free l l' = refl
  twice br busy l l' = refl
  twice br loaded l l' = refl

module _ {E P : Type 0} where
  -- The parameter behind the callback and the close of each entity, in order.
  abbrev pub close_each : Operation E P → List (Listed E) → P → P
  close_each op [] param = param
  close_each op (le ∷ l) param =
      let (entity, param') = op.act le.entity param in close_each op l (op.close entity param')

  oper_to_entity-head :
      (op : Operation E P) (p : Place) (br : Branch E) (param : P) (le : Listed E)
      (l : List (Listed E))
      → op.removes ≡ true
      → IsReached p br
      → list_at p br ≡ le ∷ l
      → oper_to_entity op p br param le
        ≡ ok (with_list p l br, op.close (op.act le.entity param).0 (op.act le.entity param).1)
  unfolding oper_to_entity
  oper_to_entity-head op p br param le l c r e =
      let le' = record le { entity = (op.act le.entity param).0 } in
      simp (c, update-head br p le le' l e refl, cut-head br p le' l r)

  oper_to_list-emptied :
      (op : Operation E P) (p : Place) (l : List (Listed E)) (br : Branch E) (param : P)
      → op.removes ≡ true
      → IsReached p br
      → list_at p br ≡ l
      → oper_to_list op p br param l ≡ ok (with_list p [] br, close_each op l param)
  unfolding oper_to_list
  oper_to_list-emptied op free [] br param c r e = rw (sym e) refl
  oper_to_list-emptied op busy [] br param c r e = rw (sym e) refl
  oper_to_list-emptied op loaded [] br param c r e = rw (sym e) refl
  oper_to_list-emptied op p (le ∷ l) br param c r e =
      let next = op.close (op.act le.entity param).0 (op.act le.entity param).1 in
      rw (oper_to_entity-head op p br param le l c r e) (
        oper_to_list-emptied op p l (with_list p l br) next c (reached br p l r) (there br p l)
        ∙ ap (λ b. ok (b, close_each op l next)) (twice br p [] l))

  -- A closing operation empties the branch: oper_to_all returns, no entity is left in any of the
  -- three lists, and each entity was handed to the callback and then to the close of its removal
  -- once, first the free ones, then the busy and the loaded ones, each in the order of their list.
  pub oper_to_all_empties :
      (op : Operation E P) (br : Branch E) (param : P)
      → op.removes ≡ true
      → oper_to_all op br param
        ≡ ok (
          record { freelist = []; busylist = []; loadedlist = [] },
          close_each op br.loadedlist (close_each op br.busylist (close_each op br.freelist param)),
        )
  unfolding oper_to_all
  oper_to_all_empties op br param c =
      let br1 = with_list free [] br in
      let br2 = with_list busy [] br1 in
      let p1 = close_each op br.freelist param in
      let p2 = close_each op br.busylist p1 in
      rw (oper_to_list-emptied op free br.freelist br param c tt refl) (
        rw (oper_to_list-emptied op busy br.busylist br1 p1 c refl refl)
          (oper_to_list-emptied op loaded br.loadedlist br2 p2 c (refl, refl) refl))
