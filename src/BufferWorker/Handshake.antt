-- ===== src/BufferWorker/Handshake.antt =====
-- src/simplebuffer.c: the lock `headlock` between the thread of a buffer, sbuf_simple_write_loop, and the
-- threads that take the buffer, fill it and make it ready. A mutex of the default kind: a thread that
-- locks it again waits for itself.
use vlbi_streamer.Base.{◌≡◌, Bool, true, false}

pub data Holder : Type 0 where
  nobody worker caller : Holder

-- Where the thread of the buffer is: before the LOCK of its loop; behind it, at the test of the waiting
-- loop; in pthread_cond_wait; signalled; with the lock back; at the test again, behind the UNLOCK; past
-- the waiting loop; before the LOCK at the end of a request; behind it; behind `set_free`; at the end;
-- or in a pthread_cond_wait without the lock, which is undefined.
pub data WorkerAt : Type 0 where
  top tested asleep signalled woken retested serving finishing locked_again freed ended undefined :
      WorkerAt

-- Where the other side is: without the buffer, with it, or in sbuf_set_ready_and_signal with the lock.
pub data CallerAt : Type 0 where
  away filling readying : CallerAt

pub record Handshake : Type 0 where
  pub holder : Holder
  pub ready_to_act : Bool
  pub is_running : Bool
  pub has_bytes : Bool
  pub is_free : Bool
  pub worker_at : WorkerAt
  pub caller_at : CallerAt

-- One step of one side. `t ≡ …` says what it leaves. A wake-up may come with no signal, and `withdraw` is
-- sbuf_cancel_writebuf with its `set_free`.
pub data Step (s t : Handshake) : Type 0 where
  lock_top :
      s.worker_at ≡ top
      → s.is_running ≡ true
      → s.holder ≡ nobody
      → t ≡ record s { holder = worker; worker_at = tested }
      → Step s t
  exit_loop :
      s.worker_at ≡ top → s.is_running ≡ false → t ≡ record s { worker_at = ended } → Step s t
  sleep :
      s.worker_at ≡ tested
      → s.ready_to_act ≡ false
      → s.is_running ≡ true
      → t ≡ record s { holder = nobody; worker_at = asleep }
      → Step s t
  pass_ready :
      s.worker_at ≡ tested → s.ready_to_act ≡ true → t ≡ record s { worker_at = serving } → Step s t
  pass_stopped :
      s.worker_at ≡ tested → s.is_running ≡ false → t ≡ record s { worker_at = serving } → Step s t
  wake : s.worker_at ≡ asleep → t ≡ record s { worker_at = signalled } → Step s t
  relock :
      s.worker_at ≡ signalled
      → s.holder ≡ nobody
      → t ≡ record s { holder = worker; worker_at = woken }
      → Step s t
  unlock : s.worker_at ≡ woken → t ≡ record s { holder = nobody; worker_at = retested } → Step s t
  wait_unlocked :
      s.worker_at ≡ retested
      → s.ready_to_act ≡ false
      → s.is_running ≡ true
      → t ≡ record s { worker_at = undefined }
      → Step s t
  go_ready :
      s.worker_at ≡ retested
      → s.ready_to_act ≡ true
      → t ≡ record s { worker_at = serving }
      → Step s t
  go_stopped :
      s.worker_at ≡ retested
      → s.is_running ≡ false
      → t ≡ record s { worker_at = serving }
      → Step s t
  nothing_to_do :
      s.worker_at ≡ serving → s.has_bytes ≡ false → t ≡ record s { worker_at = top } → Step s t
  abandon :
      s.worker_at ≡ serving
      → s.has_bytes ≡ true
      → s.is_running ≡ false
      → t ≡ record s { worker_at = top }
      → Step s t
  written :
      s.worker_at ≡ serving → s.has_bytes ≡ true → t ≡ record s { worker_at = finishing } → Step s t
  lock_again :
      s.worker_at ≡ finishing
      → s.holder ≡ nobody
      → t ≡ record s { holder = worker; worker_at = locked_again }
      → Step s t
  give_back :
      s.worker_at ≡ locked_again
      → t ≡ record s { is_free = true; has_bytes = false; worker_at = freed }
      → Step s t
  finish :
      s.worker_at ≡ freed
      → t ≡ record s { holder = nobody; ready_to_act = false; worker_at = top }
      → Step s t
  take :
      s.caller_at ≡ away
      → s.is_free ≡ true
      → t ≡ record s { is_free = false; has_bytes = false; caller_at = filling }
      → Step s t
  put_bytes : s.caller_at ≡ filling → t ≡ record s { has_bytes = true } → Step s t
  lock_ready :
      s.caller_at ≡ filling
      → s.holder ≡ nobody
      → t ≡ record s { holder = caller; caller_at = readying }
      → Step s t
  make_ready :
      s.caller_at ≡ readying
      → t ≡ record s { holder = nobody; ready_to_act = true; caller_at = away }
      → Step s t
  withdraw :
      s.caller_at ≡ filling
      → s.holder ≡ nobody
      → t ≡ record s { ready_to_act = false; is_free = true; has_bytes = false; caller_at = away }
      → Step s t
  stop : t ≡ record s { is_running = false } → Step s t

pub data Reach (s : Handshake) : Handshake → Type 0 where
  here : Reach s s
  next : {t u : Handshake} → Reach s t → Step t u → Reach s u

-- Both sides are outside, and the buffer is free.
abbrev pub handshake_start : Handshake
handshake_start = record {
  holder = nobody;
  ready_to_act = false;
  is_running = true;
  has_bytes = false;
  is_free = true;
  worker_at = top;
  caller_at = away;
}
