-- ===== src/Scheduler/Checking/Zeroing.antt =====
-- src/server.c: what `zerofound` keeps of the schedule.
use Prim.Native.String.{String}
use vlbi_streamer.Base.{ℕ, ◌≡◌, refl, List, [], ◌∷◌, Bool, false, All, length, arith}
use vlbi_streamer.ResourceTree.{Listed}
use vlbi_streamer.ResourceTree.Placement.{occurs}
use vlbi_streamer.Scheduler.{Event, Schedule}
use vlbi_streamer.Scheduler.Standing.{AllUnstarted}
use vlbi_streamer.Scheduler.Checking.{mark_all, zerofound}
use vlbi_streamer.Scheduler.Checking.Names.{named, IsNamed}
use vlbi_streamer.Scheduler.Checking.Taking.{scheduled, IsListed}

-- What `zerofound` leaves alone.
named-mark_all :
    (j : String) (b : Bool) (l : List (Listed Event)) → named j (mark_all b l) ≡ named j l
named-mark_all j b [] = refl
named-mark_all j b (le ∷ l) = omega (arith, named-mark_all j b l)

occurs-mark_all :
    (a : ℕ) (b : Bool) (l : List (Listed Event)) → occurs a (mark_all b l) ≡ occurs a l
occurs-mark_all a b [] = refl
occurs-mark_all a b (le ∷ l) = omega (arith, occurs-mark_all a b l)

length-mark_all : (b : Bool) (l : List (Listed Event)) → length (mark_all b l) ≡ length l
length-mark_all b [] = refl
length-mark_all b (le ∷ l) = omega (arith, length-mark_all b l)

AllUnstarted-mark_all :
    (b : Bool) (l : List (Listed Event)) → AllUnstarted l → AllUnstarted (mark_all b l)
AllUnstarted-mark_all b [] h = tt
AllUnstarted-mark_all b (le ∷ l) (h, hs) = (
  record {
    id = h.id;
    named = h.named;
    remote = h.remote;
    idle = h.idle;
    unindexed = h.unindexed;
    threadless = h.threadless;
  },
  AllUnstarted-mark_all b l hs,
)

AllNamed-mark_all :
    (b : Bool) (l : List (Listed Event)) → All IsNamed l → All IsNamed (mark_all b l)
AllNamed-mark_all b [] h = tt
AllNamed-mark_all b (le ∷ l) (h, hs) = (h, AllNamed-mark_all b l hs)

pub scheduled-zerofound : (j : String) (d : Schedule) → scheduled j (zerofound d) ≡ scheduled j d
unfolding zerofound
scheduled-zerofound j d =
    omega (arith, named-mark_all j false d.br.freelist, named-mark_all j false d.br.busylist)

pub IsListed-zerofound : (d : Schedule) → IsListed d → IsListed (zerofound d)
unfolding zerofound
IsListed-zerofound d h = record {
  in_order = record {
    unique = λ a. omega (
      arith,
      h.in_order.unique a,
      occurs-mark_all a false d.br.freelist,
      occurs-mark_all a false d.br.busylist,
    );
    scheduled = omega (arith, h.in_order.scheduled, length-mark_all false d.br.freelist);
    counted = omega (arith, h.in_order.counted, length-mark_all false d.br.busylist);
    unstarted = AllUnstarted-mark_all false d.br.freelist h.in_order.unstarted;
    unloaded = h.in_order.unloaded;
  };
  busy_named = AllNamed-mark_all false d.br.busylist h.busy_named;
  distinct = λ j. omega (
    arith,
    h.distinct j,
    named-mark_all j false d.br.freelist,
    named-mark_all j false d.br.busylist,
  );
}
