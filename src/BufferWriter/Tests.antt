-- ===== src/BufferWriter/Tests.antt =====
-- A buffer of five bytes, and what the theorems on writing say of it.
use vlbi_streamer.Base.{
  ℕ, Bool-cases, zero, suc, ◌+◌, ◌-◌, ◌≤◌, ◌≡◌, refl, inl, inr, [], none, some, true, false, ltb,
  if◌then◌else◌, ok, diverged, ℤ, pos, arith,
}
use vlbi_streamer.BufferWriter.{
  BufferEntity, CommonIoInfo, Opts, Writing, aligned, def_write, eof, finish_write_buffer, limit,
  sbuf_sync_loop,
}
use vlbi_streamer.BufferWriter.Transfers.{IsDocumented, Wrote, def_write-Wrote}
use vlbi_streamer.BufferWriter.Looping.{Progresses, sbuf_sync_loop_complete}
use vlbi_streamer.BufferWriter.Failures.{failed_write_passes}
use vlbi_streamer.BufferWriter.Async.{Polling, async_loop, sbuf_async_loop}
use vlbi_streamer.BufferWriter.Completing.{Completes, async_loop_ends, sbuf_async_loop_overshoots}

abbrev write_opts : Opts
write_opts = record {
  granuality = true;
  writev = false;
  directio = false;
  do_w_stuff_every = 3;
  packet_size = 1;
  bufsize = 8;
  write_to_single_file = false;
  readmode = false;
  is_running = true;
}

abbrev entity : BufferEntity Unit
entity = record {
  diff = 5;
  asyncdiff = 0;
  bufoffset = 0;
  recer = some tt;
  ready_to_act = true;
  is_free = false;
  handled = none;
}

abbrev disk : CommonIoInfo
disk = record { fd = 3; readmode = false; bytes_exchanged = 0; opt_bytes_exchanged = 0; calls = [] }

abbrev disk_entity : BufferEntity CommonIoInfo
disk_entity = record {
  diff = 5;
  asyncdiff = 0;
  bufoffset = 0;
  recer = some disk;
  ready_to_act = true;
  is_free = false;
  handled = none;
}

-- A recording entity that moves two bytes at most, and one that moves all but one.
abbrev write_two : Writing Unit
write_two r start count = ok (pos (if ltb count 2 then count else 2), tt)

abbrev write_all : Writing Unit
write_all r start count = ok (pos count, tt)

write_two-Progresses : Progresses write_two
unfolding Progresses
write_two-Progresses r start zero h = absurd (omega arith)
write_two-Progresses r start (suc zero) h = (0, tt, refl, omega arith)
write_two-Progresses r start (suc (suc n)) h =
    let more : ltb (suc (suc n)) 2 ≡ false = ground arith in (1, tt, rw more, omega arith)

all_moved-IsDocumented : IsDocumented (λ h s c. pos c)
unfolding IsDocumented
all_moved-IsDocumented h s c k e = ground (arith, e)

-- A recording entity that knows the bytes handed in and not completed, and completes all at once.
abbrev complete_all : Polling ℕ
complete_all r = (pos r, 0)

abbrev hand_in : Writing ℕ
hand_in r start count = ok (pos count, r + count)

-- A recording entity with the bytes that are missing and the number of calls that find nothing
-- complete; then it completes up to 4096 bytes with each call.
abbrev complete_later : Polling (ℕ × ℕ)
complete_later (n, suc i) = (pos 0, (n, i))
complete_later (n, zero) = if ltb n 4096 then (pos n, (0, 0)) else (pos 4096, (n - 4096, 0))

abbrev hand_in_later : Writing (ℕ × ℕ)
hand_in_later r start count = ok (pos count, (r.0 + count, r.1))

abbrev still_missing : ℕ × ℕ → ℕ
still_missing r = r.0

abbrev calls_needed : ℕ × ℕ → ℕ
calls_needed r = r.0 + r.1

complete_later-Completes : Completes complete_later still_missing calls_needed
unfolding Completes
complete_later-Completes (n, suc i) = (0, (n, i), refl, omega arith, omega arith, λ h. omega arith)
complete_later-Completes (n, zero) = elim (Bool-cases (ltb n 4096)) [
  | inl few ↦ (n, (0, 0), rw few refl, ground arith, omega arith, λ h. omega arith)
  | inr many ↦
      let enough : 4096 ≤ n = ground arith in
      (4096, (n - 4096, 0), rw many refl, omega arith, omega arith, λ h. omega arith)
]

abbrev handed_in : BufferEntity ℕ
handed_in = record {
  diff = 0;
  asyncdiff = 5;
  bufoffset = 5;
  recer = some 5;
  ready_to_act = true;
  is_free = false;
  handled = none;
}

abbrev handed_in_slowly : BufferEntity (ℕ × ℕ)
handed_in_slowly = record {
  diff = 0;
  asyncdiff = 5;
  bufoffset = 5;
  recer = some (5, 3);
  ready_to_act = true;
  is_free = false;
  handled = none;
}

abbrev five_bytes : BufferEntity ℕ
five_bytes = record handed_in { diff = 5; asyncdiff = 0; bufoffset = 0; recer = some 0 }

abbrev direct_opts : Opts
direct_opts = record write_opts { directio = true; do_w_stuff_every = 8192 }

async_loop_ends_example :
    (be' : BufferEntity (ℕ × ℕ)) × (r' : (ℕ × ℕ)) × (async_loop complete_later hand_in_later
        write_opts 8 handed_in_slowly
      ≡ ok (pos 0, be'))
    × (be'.recer ≡ some r')
    × (be'.asyncdiff ≡ 0)
    × (be'.diff ≡ 0)
    × (be'.bufoffset ≡ handed_in_slowly.bufoffset)
    × (still_missing r' ≡ 0)
async_loop_ends_example =
    async_loop_ends complete_later hand_in_later write_opts 8 still_missing calls_needed
      handed_in_slowly (5, 3) complete_later-Completes refl refl refl (omega arith) (omega arith)

sbuf_async_loop_overshoots_example :
    sbuf_async_loop complete_all hand_in direct_opts 9 five_bytes ≡ diverged
unfolding aligned limit
sbuf_async_loop_overshoots_example =
    sbuf_async_loop_overshoots complete_all hand_in direct_opts 9 five_bytes 0 4096 0 refl refl refl
      (λ e. cc) (omega arith) (omega arith) refl refl refl

sbuf_sync_loop_complete_example :
    (be' : BufferEntity Unit) × (r' : Unit) × (sbuf_sync_loop write_two write_opts 5 entity
      ≡ ok (pos 0, be'))
    × (be'.recer ≡ some r')
    × (be'.diff ≡ 0)
    × (be'.bufoffset ≡ entity.bufoffset + entity.diff)
unfolding limit
sbuf_sync_loop_complete_example =
    sbuf_sync_loop_complete write_two write_opts 5 entity tt write_two-Progresses refl refl refl
      (omega arith) (omega arith) (omega arith)

failed_write_passes_example :
    (ioi' : CommonIoInfo) × (finish_write_buffer
        (def_write (λ h s c. eof))
        write_opts
        (suc (suc 0))
        disk_entity
      ≡ ok (pos 0, some ioi', record disk_entity { diff = 0; recer = none }))
    × (ioi'.bytes_exchanged ≡ disk.bytes_exchanged)
unfolding limit
failed_write_passes_example =
    failed_write_passes (λ h s c. eof) write_opts 0 disk_entity disk (λ s c. refl) refl refl
      (omega arith) (omega arith)

def_write-Wrote_example :
    (ret : ℤ) × (ioi' : CommonIoInfo) × (def_write (λ h s c. pos c) disk 8 3 ≡ ok (ret, ioi'))
    × Wrote 8 3 3 disk ret ioi'
def_write-Wrote_example =
    def_write-Wrote (λ h s c. pos c) disk 8 3 all_moved-IsDocumented (λ e. omega (arith, e))
      (omega arith) (omega arith)
