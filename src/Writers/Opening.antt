-- ===== src/Writers/Opening.antt =====
-- src/common_wrt.c: what `common_open_new_file` leaves alone.
use vlbi_streamer.Base.{
  ℕ, ◌≡◌, refl, Option, none, some, Bool, true, false, not, ◌&&◌, inl, inr, Bool-cases, ℤ,
  if◌then◌else◌,
}
use vlbi_streamer.Writers.{
  Recorder, Session, Answers, FileName, is_zero, lacks_directory, with_fd, common_open_file,
  init_directory, open_or_create, note_size, note_offset, file_name, addressed, settle_open,
  common_open_new_file,
}

-- A recording entity in use for the options, the same disk as before.
pub record IsUsed (r r' : Recorder) : Type 0 where
  pub pointed : r'.has_opt ≡ true
  pub same_id : r'.id ≡ r.id
  pub same_status : r'.status ≡ r.status

with_fd-IsUsed : (r r' : Recorder) (fd : Option ℤ) → IsUsed r r' → IsUsed r (with_fd r' fd)
with_fd-IsUsed r r' none u = u
with_fd-IsUsed r r' (some fd) u = record {
  pointed = u.pointed;
  same_id = u.same_id;
  same_status = u.same_status;
}

open_or_create-IsUsed :
    (a : Answers) (s : Session) (r r' : Recorder) (writes : Bool) (name : FileName)
    → IsUsed r r'
    → IsUsed r (open_or_create a s r' writes name).1
unfolding open_or_create
open_or_create-IsUsed a s r r' writes name u =
    let (err, fd) = common_open_file a.before writes name in
    let r1 = with_fd r' fd in
    let u1 = with_fd-IsUsed r r' fd u in
    elim (Bool-cases (is_zero err)) [
      | inl z ↦ rw z u1
      | inr n ↦ elim (Bool-cases (lacks_directory err && not s.readmode)) [
        | inr m ↦ rw (n, m) u1
        | inl m ↦ elim (Bool-cases (is_zero (init_directory a s r1))) [
          | inr i ↦ rw (n, m, i) u1
          | inl i ↦ rw (n, m, i) (with_fd-IsUsed r r1 _ u1)
        ]
      ]
    ]

settle_open-IsUsed :
    (a : Answers) (s : Session) (r r' : Recorder) (name : FileName) (err : ℤ)
    → s.write_to_single_file ≡ false
    → s.readmode ≡ false
    → IsUsed r r'
    → ((settle_open a s name (err, r')).1 ≡ s) × IsUsed r (settle_open a s name (err, r')).2
unfolding settle_open note_size note_offset
settle_open-IsUsed a s r r' name err single rd u = elim (Bool-cases (is_zero err)) [
  | inr n ↦ rw n (refl, u)
  | inl z ↦
      rw (z, single, rd)
        (refl, record { pointed = u.pointed; same_id = u.same_id; same_status = u.same_status })
]

-- For a recording to numbered files only the recording entity changes.
pub common_open_new_file-IsUsed :
    (a : Answers) (s : Session) (r : Recorder) (seqnum : ℕ)
    → s.write_to_single_file ≡ false
    → s.readmode ≡ false
    → ((common_open_new_file a s r seqnum).1 ≡ s) × IsUsed r (common_open_new_file a s r seqnum).2
unfolding common_open_new_file
common_open_new_file-IsUsed a s r seqnum single rd =
    let u : IsUsed r (addressed s r seqnum) = record {
      pointed = refl;
      same_id = refl;
      same_status = refl;
    } in
    let writes = if s.readmode then r.r_flags_write else r.w_flags_write in
    let name = file_name s r seqnum in
    let (err, r2) = open_or_create a s (addressed s r seqnum) writes name in
    let n : (s.write_to_single_file && not (is_zero s.singlefile_fd)) ≡ false = rw single in
    rw n (
      settle_open-IsUsed a s r r2 name err single rd
        (open_or_create-IsUsed a s r (addressed s r seqnum) writes name u))
