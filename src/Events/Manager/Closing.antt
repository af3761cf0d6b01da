-- ===== src/Events/Manager/Closing.antt =====
-- src/grpc_helper/events/events_manager.py: `_shutdown` and the thread of `__keep_alive`, which share
-- the lock and the stop flag. The other threads take the lock for a while and give it back.
use grpc_helper.Base.{Bool, true, false, ◌⊎◌, inl, inr, ◌≡◌, ◌≢◌, refl}

-- Where the thread of `__keep_alive` stands: at the test of the flag, before the lock of
-- `__internal_send`, in it, in the sleep, or after its loop.
pub data KeepAlive : Type 0 where
  testing sending holding sleeping ended : KeepAlive

-- Where `_shutdown` stands: before the lock, in it, waiting in `join` for the thread, putting the
-- shutdown status in the queues, or after it.
pub data Closing : Type 0 where
  outside locked joining pushing closed : Closing

pub record Threads : Type 0 where
  pub keep_alive : KeepAlive
  pub closing : Closing
  pub stop : Bool

-- `_shutdown` is inside its `with self.lock`.
abbrev pub keeps_lock : Closing → Bool
keeps_lock outside = false
keeps_lock closed = false
keeps_lock _ = true

abbrev pub at : KeepAlive → Closing → Bool → Threads
at k c stop = record { keep_alive = k; closing = c; stop = stop }

-- The moves of the two threads: the first seven of `__keep_alive`, the others of `_shutdown`.
pub data Move : Threads → Threads → Type 0 where
  test_on : {c : Closing} → Move (at testing c false) (at sending c false)
  test_off : {c : Closing} → Move (at testing c true) (at ended c true)
  take_lock :
      {c : Closing} {b : Bool} → keeps_lock c ≡ false → Move (at sending c b) (at holding c b)
  give_lock : {c : Closing} {b : Bool} → Move (at holding c b) (at sleeping c b)
  wake : {c : Closing} {b : Bool} → Move (at sleeping c b) (at testing c b)
  close_lock : {k : KeepAlive} {b : Bool} → k ≢ holding → Move (at k outside b) (at k locked b)
  close_stop : {k : KeepAlive} {b : Bool} → Move (at k locked b) (at k joining true)
  close_join : {b : Bool} → Move (at ended joining b) (at ended pushing b)
  close_push : {k : KeepAlive} {b : Bool} → Move (at k pushing b) (at k closed b)

pub data Moves : Threads → Threads → Type 0 where
  no_move : {s : Threads} → Moves s s
  and_move : {s t u : Threads} → Moves s t → Move t u → Moves s u

abbrev pub begin : Threads
begin = at testing outside false

-- The thread waits for the lock that `_shutdown` keeps while it waits for the thread.
abbrev pub deadlock : Threads
deadlock = at sending joining true

no-Move_on : (t : Threads) → ¬ Move deadlock t
no-Move_on t (take_lock h) = cc

Move-stop :
    (s t : Threads)
    → Move s t
    → (s.closing ≡ joining → s.stop ≡ true)
    → t.closing ≡ joining
    → t.stop ≡ true
Move-stop _ _ test_on h j = h j
Move-stop _ _ test_off h j = refl
Move-stop _ _ (take_lock free) h j = h j
Move-stop _ _ give_lock h j = h j
Move-stop _ _ wake h j = h j
Move-stop _ _ (close_lock free) h j = cc
Move-stop _ _ close_stop h j = refl
Move-stop _ _ close_join h j = cc
Move-stop _ _ close_push h j = cc

-- `_shutdown` joins after it has set the flag.
Moves-stop : (s : Threads) → Moves begin s → s.closing ≡ joining → s.stop ≡ true
Moves-stop _ no_move j = cc
Moves-stop s (and_move {t = t} before move) j = Move-stop t s move (Moves-stop t before) j

progress :
    (k : KeepAlive) (c : Closing) (b : Bool)
    → (c ≡ joining → b ≡ true)
    → (at k c b ≡ deadlock) ⊎ ((k ≡ ended) × (c ≡ closed)) ⊎ ((t : Threads) × Move (at k c b) t)
progress testing c false h = inr (inr (_, test_on))
progress testing c true h = inr (inr (_, test_off))
progress holding c b h = inr (inr (_, give_lock))
progress sleeping c b h = inr (inr (_, wake))
progress sending outside b h = inr (inr (_, take_lock refl))
progress sending closed b h = inr (inr (_, take_lock refl))
progress sending locked b h = inr (inr (_, close_stop))
progress sending joining b h = inl (cc (h refl))
progress sending pushing b h = inr (inr (_, close_push))
progress ended outside b h = inr (inr (_, close_lock (λ same. cc)))
progress ended locked b h = inr (inr (_, close_stop))
progress ended joining b h = inr (inr (_, close_join))
progress ended pushing b h = inr (inr (_, close_push))
progress ended closed b h = inr (inl (refl, refl))

-- The two threads can come to a deadlock: the thread that has tested the flag waits for the lock,
-- which `_shutdown` has taken and keeps until the thread has ended. No move leads on from there.
-- In every other state that can be reached, a move leads on, or both threads have ended.
pub shutdown-deadlock :
    Moves begin deadlock
    × ((t : Threads) → ¬ Move deadlock t)
    × ((s : Threads)
        → Moves begin s
        → (s ≡ deadlock)
          ⊎ ((s.keep_alive ≡ ended) × (s.closing ≡ closed))
          ⊎ ((t : Threads) × Move s t))
shutdown-deadlock = (
  and_move (and_move (and_move no_move test_on) (close_lock (λ same. cc))) close_stop,
  no-Move_on,
  λ s reached. progress s.keep_alive s.closing s.stop (Moves-stop s reached),
)
