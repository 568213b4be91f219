-- ===== src/Scheduler/Checking/TakingAll.antt =====
-- src/server.c: what all settings of the state file make of the schedule.
use Prim.Native.String.{String}
use text.Mathlib.Text.{◌==◌ as str_eq}
use mathlib.Core.List.{append-nil, append_assoc}
use vlbi_streamer.Base.{
  ◌≡◌, refl, sym, ◌∙◌, ap, List, [], ◌∷◌, ◌++◌, Bool, true, false, ◌||◌, if◌then◌else◌, ok, map,
  All, All-append, arith,
}
use vlbi_streamer.ResourceTree.{Listed}
use vlbi_streamer.Scheduler.{Event, Setting, Schedule, Host}
use vlbi_streamer.Scheduler.Checking.{take_settings}
use vlbi_streamer.Scheduler.Checking.Names.{mark_one, mark, in_file, mark-found}
use vlbi_streamer.Scheduler.Checking.Taking.{scheduled, IsListed, IsRequest, GivesFresh}
use vlbi_streamer.Scheduler.Checking.Keeping.{Took, take_setting-Took}

-- The state file has the name.
abbrev pub lists : String → List Setting → Bool
lists name [] = false
lists name (s ∷ settings) = str_eq name s.name || lists name settings

abbrev pub AllFound : List (Listed Event) → Type 0
AllFound l = All (λ le. le.entity.found ≡ true) l

-- What all settings make of the schedule.
pub record TookAll (d : Schedule) (settings : List Setting) (d' : Schedule) : Type 0 where
  pub new : List (Listed Event)
  pub waiting : d'.br.freelist ≡ map (mark settings) d.br.freelist ++ new
  pub running : d'.br.busylist ≡ map (mark settings) d.br.busylist
  pub found : AllFound new
  pub list_kept : IsListed d'
  pub counted : (j : String) → scheduled j d' ≡ (if lists j settings then 1 else scheduled j d)

pub map-append :
    (f : Listed Event → Listed Event) (l r : List (Listed Event))
    → map f (l ++ r) ≡ map f l ++ map f r
map-append f [] r = refl
map-append f (le ∷ l) r = ap (λ t. f le ∷ t) (map-append f l r)

pub map_twice :
    (s : Setting) (settings : List Setting) (l : List (Listed Event))
    → map (mark settings) (map (mark_one s.name) l) ≡ map (mark (s ∷ settings)) l
map_twice s settings [] = refl
map_twice s settings (le ∷ l) = ap (λ t. mark (s ∷ settings) le ∷ t) (map_twice s settings l)

pub map_nothing : (l : List (Listed Event)) → map (mark []) l ≡ l
map_nothing [] = refl
map_nothing (le ∷ l) = ap (λ t. le ∷ t) (map_nothing l)

pub or-true : (b c : Bool) → c ≡ true → (b || c) ≡ true
or-true true c h = refl
or-true false c h = h

AllFound-mark :
    (settings : List Setting) (l : List (Listed Event))
    → AllFound l
    → AllFound (map (mark settings) l)
AllFound-mark settings [] h = tt
AllFound-mark settings (le ∷ l) (h, hs) = (
  mark-found settings le ∙ or-true (in_file settings le) le.entity.found h,
  AllFound-mark settings l hs,
)

TookAll-step :
    (d d' d'' : Schedule) (s : Setting) (settings : List Setting)
    → Took d s d'
    → TookAll d' settings d''
    → TookAll d (s ∷ settings) d''
TookAll-step d d' d'' s settings t u = record {
  new = map (mark settings) t.new ++ u.new;
  waiting =
      u.waiting
      ∙ ap (λ l. map (mark settings) l ++ u.new) t.waiting
      ∙ ap (λ l. l ++ u.new)
          (map-append (mark settings) (map (mark_one s.name) d.br.freelist) t.new)
      ∙ append_assoc (map (mark settings) (map (mark_one s.name) d.br.freelist))
          (map (mark settings) t.new) u.new
      ∙ ap (λ l. l ++ (map (mark settings) t.new ++ u.new)) (map_twice s settings d.br.freelist);
  running = u.running ∙ ap (map (mark settings)) t.running ∙ map_twice s settings d.br.busylist;
  found =
      All-append (λ le. le.entity.found ≡ true) (map (mark settings) t.new) u.new
        (AllFound-mark settings t.new t.found) u.found;
  list_kept = u.list_kept;
  counted = λ j. ground (arith, u.counted j, t.counted j);
}

-- The first loop of check_schedule, on requests that are fine.
pub take_settings-TookAll :
    (host : Host) (settings : List Setting) (d : Schedule)
    → GivesFresh host
    → All (IsRequest host) settings
    → IsListed d
    → (d' : Schedule) × (take_settings host d settings ≡ ok d') × TookAll d settings d'
unfolding take_settings
take_settings-TookAll host [] d fresh q h = (
  d,
  refl,
  record {
    new = [];
    waiting = sym (map_nothing d.br.freelist) ∙ sym (append-nil (map (mark []) d.br.freelist));
    running = sym (map_nothing d.br.busylist);
    found = tt;
    list_kept = h;
    counted = λ j. refl;
  },
)
take_settings-TookAll host (s ∷ settings) d fresh (q, qs) h =
    let (d', taken, t) = take_setting-Took host d s fresh q h in
    let (d'', rest, u) = take_settings-TookAll host settings d' fresh qs t.list_kept in
    (d'', rw taken rest, TookAll-step d d' d'' s settings t u)
