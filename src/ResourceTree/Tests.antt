-- ===== src/ResourceTree/Tests.antt =====
-- A branch of two busy entities, and what the theorems on branches say of it.
use vlbi_streamer.Base.{ℕ, ◌+◌, ◌≡◌, refl, [], ◌∷◌, none, some, true, false, ok, arith}
use vlbi_streamer.ResourceTree.{Branch, Callbacks, Listed, find, get_from_all, loop_and_check}
use vlbi_streamer.ResourceTree.Acquiring.{get_free, get_specific, is_turn, queued}
use vlbi_streamer.ResourceTree.GetFree.{Attempted, Seen, get_free-Attempted}
use vlbi_streamer.ResourceTree.Tickets.{InRange, serves, turn_in_order, waiting}
use vlbi_streamer.ResourceTree.Operations.{Operation, oper_to_all}
use vlbi_streamer.ResourceTree.Operations.Emptying.{close_each, oper_to_all_empties}

abbrev busy_entity : Listed Unit
busy_entity = record { self = 7; waiters_head = 3; waiters_bottom = 3; entity = tt }

abbrev awaited_entity : Listed Unit
awaited_entity = record { self = 8; waiters_head = 1; waiters_bottom = 32767; entity = tt }

abbrev branch : Branch Unit
branch = record { freelist = []; busylist = awaited_entity ∷ busy_entity ∷ []; loadedlist = [] }

abbrev callbacks : Callbacks Unit
callbacks = record { acquire = none; fits = none; release = none }

-- An operation that counts the calls, and twice the closes.
abbrev closing : Operation Unit ℕ
closing = record { act = λ e n. (e, n + 1); removes = true; close = λ e n. n + 2 }

awaited-InRange : InRange awaited_entity
awaited-InRange = record { head_in = omega arith; bottom_in = omega arith }

turn_in_order_example :
    (br' : Branch Unit) × (e' : Listed Unit) × (ticket : ℕ) × (get_specific (λ _. true) branch
      ≡ queued br' e' ticket)
    × (find br'.busylist awaited_entity.self ≡ some e')
    × (is_turn ticket (serves 2 e') ≡ false)
    × (is_turn ticket (serves (waiting awaited_entity + 1) e') ≡ true)
unfolding get_from_all loop_and_check find
turn_in_order_example =
    turn_in_order (λ _. true) branch awaited_entity 2 refl refl awaited-InRange (omega arith)
      (omega arith)

get_free-Attempted_example :
    (st : Branch Unit) × Seen st branch []
    × Attempted callbacks st (get_free callbacks false branch [])
get_free-Attempted_example = get_free-Attempted callbacks branch []

oper_to_all_empties_example :
    oper_to_all closing branch 0
    ≡ ok (
      record { freelist = []; busylist = []; loadedlist = [] },
      close_each closing branch.loadedlist
          (close_each closing branch.busylist (close_each closing branch.freelist 0)),
    )
oper_to_all_empties_example = oper_to_all_empties closing branch 0 refl
