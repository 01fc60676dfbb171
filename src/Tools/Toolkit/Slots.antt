-- ===== src/Tools/Toolkit/Slots.antt =====
-- internal/tools/toolkit.go, `InitSemaphore` and the channel `sem`: how many handlers run at once. A
-- call takes a slot, or waits until its time is over; the deferred receive frees the slot when the
-- handler ends, by a return or a panic.
pub mod Progress
use go_kubernetes_mcp_server.Base.{
  ℕ, zero, suc, ◌≤◌, ℤ, pos, negsuc, ◌≡◌, refl, Bool, true, false, Option, none, some, List, [],
  ◌∷◌, ◌++◌, length, length-append, ltb, arith, ap,
}

-- The capacity of the channel, `none` for a nil channel, and the handlers that run.
pub record Semaphore : Type 0 where
  pub capacity : Option ℕ
  pub buffered : ℕ
  pub running : List ℕ

-- `InitSemaphore(n)`
unfoldable pub init_semaphore : ℤ → Semaphore
init_semaphore (pos zero) = record { capacity = none; buffered = 0; running = [] }
init_semaphore (pos (suc n)) = record { capacity = some (suc n); buffered = 0; running = [] }
init_semaphore (negsuc n) = record { capacity = none; buffered = 0; running = [] }

-- Whether a send to the channel can go on at once.
abbrev pub has_room : Option ℕ → ℕ → Bool
has_room none buffered = true
has_room (some n) buffered = ltb buffered n

-- A call that starts its handler: with a channel it sends first.
unfoldable pub enter : ℕ → Semaphore → Semaphore
enter id s = record s {
  buffered = elim s.capacity [ none ↦ s.buffered | some n ↦ suc s.buffered ];
  running = id ∷ s.running;
}

-- The deferred receive.
abbrev received : ℕ → ℕ
received zero = zero
received (suc n) = n

unfoldable pub leave : List ℕ → Semaphore → Semaphore
leave others s = record s {
  buffered = elim s.capacity [ none ↦ s.buffered | some n ↦ received s.buffered ];
  running = others;
}

pub data Step : Semaphore → Semaphore → Type 0 where
  started : {s : Semaphore} (id : ℕ) → has_room s.capacity s.buffered ≡ true → Step s (enter id s)
  busy : {s : Semaphore} → has_room s.capacity s.buffered ≡ false → Step s s
  ended :
      {s : Semaphore} (id : ℕ) (before behind : List ℕ)
      → s.running ≡ before ++ (id ∷ behind)
      → Step s (leave (before ++ behind) s)

pub data Reach (s : Semaphore) : Semaphore → Type 0 where
  here : Reach s s
  next : {t u : Semaphore} → Reach s t → Step t u → Reach s u

-- With a channel, its buffer holds one item for each handler that runs, and no more than fit.
abbrev pub IsCounted : Semaphore → Option ℕ → Type 0
IsCounted s none = Unit
IsCounted s (some n) = (s.buffered ≡ length s.running) × (s.buffered ≤ n)

pub init_semaphore-IsCounted : (n : ℤ) → IsCounted (init_semaphore n) (init_semaphore n).capacity
unfolding init_semaphore
init_semaphore-IsCounted (pos zero) = tt
init_semaphore-IsCounted (pos (suc n)) = (refl, omega arith)
init_semaphore-IsCounted (negsuc n) = tt

enter-IsCounted :
    (id : ℕ) (s : Semaphore) (c : Option ℕ)
    → s.capacity ≡ c
    → has_room s.capacity s.buffered ≡ true
    → IsCounted s c
    → IsCounted (enter id s) c
unfolding enter
enter-IsCounted id s none e h k = tt
enter-IsCounted id s (some n) e h k = ground arith

leave-IsCounted :
    (id : ℕ) (before behind : List ℕ) (s : Semaphore) (c : Option ℕ)
    → s.capacity ≡ c
    → s.running ≡ before ++ (id ∷ behind)
    → IsCounted s c
    → IsCounted (leave (before ++ behind) s) c
unfolding leave
leave-IsCounted id before behind s none e r k = tt
leave-IsCounted id before behind s (some n) e r k = ground (
  arith,
  length-append {A = ℕ} before behind,
  length-append {A = ℕ} before (id ∷ behind),
  ap (length {A = ℕ}) r,
)

abbrev pub Keeps : Option ℕ → Semaphore → Type 0
Keeps c s = (s.capacity ≡ c) × IsCounted s c

pub Step-Keeps : (c : Option ℕ) {s t : Semaphore} → Step s t → Keeps c s → Keeps c t
Step-Keeps c (started {s} id room) (e, k) = (unfold enter in e, enter-IsCounted id s c e room k)
Step-Keeps c (busy full) k = k
Step-Keeps c (ended {s} id before behind r) (e, k) =
    (unfold leave in e, leave-IsCounted id before behind s c e r k)

pub Reach-Keeps : (c : Option ℕ) {s t : Semaphore} → Keeps c s → Reach s t → Keeps c t
Reach-Keeps c k here = k
Reach-Keeps c k (next r st) = Step-Keeps c st (Reach-Keeps c k r)
