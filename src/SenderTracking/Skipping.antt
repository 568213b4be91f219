-- ===== src/SenderTracking/Skipping.antt =====
-- Which file a sender goes on with, and what becomes of loading it.
use native.Mathlib.Decide.{ℕ_discrete, dec_le}
use mathlib.Core.Path.{subst}
use vlbi_streamer.Base.{
  ℕ, zero, suc, ◌+◌, ◌≤◌, ◌<◌, ◌≡◌, refl, sym, ap, ◌∙◌, ◌⊎◌, inl, inr, List, Bool, true, false, ltb,
  ◌==◌, Bool-cases, get_elem?_in, ok, aborted, arith,
}
use vlbi_streamer.FileIndex.{FileIndex, afi_is_missing}
use vlbi_streamer.FileIndex.Validity.{IsValid}
use vlbi_streamer.FileIndex.Marking.{afi_is_missing_at}
use vlbi_streamer.FileIndex.Waiting.{afi_start_loading_aborts}
use vlbi_streamer.SenderTracking.{
  SenderTracking, Lors, skip_loaded, skip_sent, target, skip_one, skip_missing, start_loading,
}

skip_one-target :
    (n : ℕ) (fi : FileIndex) (lors : Lors) (st : SenderTracking)
    → (target lors (skip_one n fi lors st) ≡ target lors st + 1)
      × ((skip_one n fi lors st).n_files_probed ≡ st.n_files_probed)
unfolding skip_one
skip_one-target n fi skip_loaded st = (refl, refl)
skip_one-target n fi skip_sent st = (refl, refl)

-- What a run of `skip_missing` comes to.
record Skipped (fi : FileIndex) (lors : Lors) (st st' : SenderTracking) : Type 0 where
  forward : target lors st ≤ target lors st'
  same_probe : st'.n_files_probed ≡ st.n_files_probed
  all_missing : (k : ℕ) → target lors st ≤ k → k < target lors st' → afi_is_missing fi k ≡ ok true
  stops : (st.n_files_probed < target lors st') ⊎ (afi_is_missing fi (target lors st') ≡ ok false)

known :
    (fi : FileIndex) (k : ℕ)
    → IsValid fi
    → k ≤ fi.n_files
    → fi.n_files < fi.allocated_files
    → (b : Bool) × (afi_is_missing fi k ≡ ok b)
known fi k v le room =
    let (fh, at) = get_elem?_in fi.files k (omega (arith, v.room)) in
    (fh.status.missing, afi_is_missing_at fi k fh le at)

stay :
    (fi : FileIndex) (lors : Lors) (st : SenderTracking)
    → (st.n_files_probed < target lors st) ⊎ (afi_is_missing fi (target lors st) ≡ ok false)
    → Skipped fi lors st st
stay fi lors st h = record {
  forward = omega arith;
  same_probe = refl;
  all_missing = λ k le lt. absurd (omega arith);
  stops = h;
}

step :
    (fi : FileIndex) (lors : Lors) (st st1 st' : SenderTracking)
    → target lors st1 ≡ target lors st + 1
    → st1.n_files_probed ≡ st.n_files_probed
    → afi_is_missing fi (target lors st) ≡ ok true
    → Skipped fi lors st1 st'
    → Skipped fi lors st st'
step fi lors st st1 st' next same here s = record {
  forward = omega (arith, s.forward);
  same_probe = s.same_probe ∙ same;
  all_missing = λ k le lt. elim (ℕ_discrete (target lors st) k) [
    | yes e ↦ subst (λ j. afi_is_missing fi j ≡ ok true) e here
    | no ne ↦ s.all_missing k (omega arith) lt
  ];
  stops =
      subst (λ j. (j < target lors st') ⊎ (afi_is_missing fi (target lors st') ≡ ok false)) same
        s.stops;
}

skip_missing-Skipped :
    (fuel n : ℕ) (fi : FileIndex) (lors : Lors) (st : SenderTracking)
    → IsValid fi
    → st.n_files_probed ≤ fi.n_files
    → fi.n_files < fi.allocated_files
    → st.n_files_probed < target lors st + fuel
    → (st' : SenderTracking) × (skip_missing (suc fuel) n fi lors st ≡ ok st')
      × Skipped fi lors st st'
unfolding skip_missing
skip_missing-Skipped zero n fi lors st v probe room enough =
    let past : ltb st.n_files_probed (target lors st) ≡ true = ground arith in
    (st, rw past, stay fi lors st (inl (omega arith)))
skip_missing-Skipped (suc fuel) n fi lors st v probe room enough =
    elim (Bool-cases (ltb st.n_files_probed (target lors st))) [
      | inl past ↦ (st, rw past, stay fi lors st (inl (ground (arith, past))))
      | inr below ↦
          let within : target lors st ≤ st.n_files_probed = ground (arith, below) in
          let (b, e) = known fi (target lors st) v (omega arith) room in
          elim (Bool-cases b) [
            | inr found ↦ (st, rw (below, e, found), stay fi lors st (inr (e ∙ ap ok found)))
            | inl missing ↦
                let st1 = skip_one n fi lors st in
                let (next, same) = skip_one-target n fi lors st in
                let (st', e', s) =
                  skip_missing-Skipped fuel n fi lors st1 v (omega (arith, same)) room
                    (omega (arith, next, same)) in
                (
                  st',
                  rw (below, e, missing, e'),
                  step fi lors st st1 st' next same (e ∙ ap ok missing) s,
                )
          ]
    ]

-- With enough fuel skip_missing returns, and never moves the target back. Every file k from the old
-- target on is behind the new target or is missing; the new target is past the probed number of
-- files or is not missing. The index is valid with room behind its files, and has the files that
-- were probed.
pub skip_missing_lem :
    (fuel n k : ℕ) (fi : FileIndex) (lors : Lors) (st : SenderTracking)
    → IsValid fi
    → st.n_files_probed ≤ fi.n_files
    → fi.n_files < fi.allocated_files
    → st.n_files_probed < target lors st + fuel
    → target lors st ≤ k
    → (st' : SenderTracking) × (skip_missing (suc fuel) n fi lors st ≡ ok st')
      × (target lors st ≤ target lors st')
      × ((target lors st' ≤ k) ⊎ (afi_is_missing fi k ≡ ok true))
      × ((st.n_files_probed < target lors st') ⊎ (afi_is_missing fi (target lors st') ≡ ok false))
skip_missing_lem fuel n k fi lors st v probe room enough le =
    let (st', e, s) = skip_missing-Skipped fuel n fi lors st v probe room enough in
    (
      st',
      e,
      s.forward,
      elim (dec_le (target lors st') k) [
        | yes reached ↦ inl reached
        | no passed ↦ inr (s.all_missing k le (omega arith))
      ],
      s.stops,
    )

clash : ok true ≡ ok false → ⊥
clash e = cc

at_or_before :
    (fi : FileIndex) (k : ℕ) (st st' : SenderTracking)
    → Skipped fi skip_loaded st st'
    → st.files_loaded ≤ k
    → afi_is_missing fi k ≡ ok false
    → st'.files_loaded ≤ k
at_or_before fi k st st' s le there = elim (dec_le st'.files_loaded k) [
  | yes reached ↦ reached
  | no passed ↦ absurd (clash (sym (s.all_missing k le (omega arith)) ∙ there))
]

-- A file is never loaded: when some file k that is not loaded yet, and is below the probed number
-- of files, is not missing, start_loading aborts, at the inverted assertion of afi_start_loading.
-- The index is valid with room behind its files and has the files that were probed, and the fuel is
-- enough.
pub start_loading_aborts :
    (fuel n k : ℕ) (has_be is_free : Bool) (fi : FileIndex) (later : List FileIndex)
    (st : SenderTracking)
    → IsValid fi
    → st.n_files_probed ≤ fi.n_files
    → fi.n_files < fi.allocated_files
    → st.n_files_probed < st.files_loaded + fuel
    → st.files_loaded ≤ k
    → k < st.n_files_probed
    → afi_is_missing fi k ≡ ok false
    → start_loading (suc fuel) n has_be is_free fi later st ≡ aborted
unfolding start_loading
start_loading_aborts fuel n k has_be is_free fi later st v probe room enough le lt there =
    let (st', e, s) = skip_missing-Skipped fuel n fi skip_loaded st v probe room enough in
    let near = at_or_before fi k st st' s le there in
    let going : (st'.files_loaded == st'.n_files_probed) ≡ false =
      ground (arith, s.same_probe, near) in
    rw (
      e,
      going,
      afi_start_loading_aborts fi later st'.files_loaded (ltb 0 st'.files_in_loading) (omega arith),
    )
