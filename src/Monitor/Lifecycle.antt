-- ===== src/Monitor/Lifecycle.antt =====
-- `start` and `stop` of the agent's background workers, which USBMonitor, BTMonitor, EBPFUSBMonitor,
-- AnchorScheduler and EventTransport write alike. Threads run between the calls, so the states are
-- those that a step relation reaches.
use insider_threat_detection.Common.{
  ℕ, suc, ◌≤◌, ◌≡◌, refl, sym, ap, ◌∙◌, ◌⊎◌, inl, inr, Bool, true, false, not, Option, none, some,
  List, [], ◌∷◌, ◌++◌, arith, nat_eq, if◌then◌else◌, Bool-cases, length, select, any,
}

-- A worker's stop event, the number of the thread in its `_thread`, the threads that are alive, and
-- the number that the next thread gets.
pub record Worker : Type 0 where
  pub stop_set : Bool
  pub thread : Option ℕ
  pub alive : List ℕ
  pub next_thread : ℕ

-- `__init__`
abbrev pub new_worker : Worker
new_worker = record { stop_set = false; thread = none; alive = []; next_thread = 0 }

abbrev pub is_live : List ℕ → Option ℕ → Bool
is_live alive none = false
is_live alive (some t) = any (λ u. nat_eq u t) alive

unfoldable pub start : Worker → Worker
start w = if is_live w.alive w.thread then w else record {
  stop_set = false;
  thread = some w.next_thread;
  alive = w.alive ++ w.next_thread ∷ [];
  next_thread = suc w.next_thread;
}

-- `stop` sets the event; the wait in `join`, which has a time limit, is any number of other steps.
abbrev pub stop : Worker → Worker
stop w = record w { stop_set = true }

abbrev pub ended : ℕ → Worker → Worker
ended t w = record w { alive = select (λ u. not (nat_eq u t)) w.alive }

infix 40 ◌⟶◌
pub data ◌⟶◌ : Worker → Worker → Type 0 where
  starts : {w : Worker} → w ⟶ start w
  stops : {w : Worker} → w ⟶ stop w
  -- A thread ends, be it that it found the stop event set or that an exception got out of its loop.
  ends : {w : Worker} (t : ℕ) → w ⟶ ended t w

pub data IsReached : Worker → Type 0 where
  begin : IsReached new_worker
  after : {v w : Worker} → IsReached v → v ⟶ w → IsReached w

-- No thread is alive but the one in `_thread`.
pub data IsSingle : Worker → Type 0 where
  idle : {w : Worker} → w.alive ≡ [] → IsSingle w
  busy : {w : Worker} (t : ℕ) → w.alive ≡ t ∷ [] → w.thread ≡ some t → IsSingle w

nat_eq_refl : (t : ℕ) → nat_eq t t ≡ true
nat_eq_refl t = ground arith

is_live-busy :
    (alive : List ℕ) (thread : Option ℕ) (t : ℕ)
    → alive ≡ t ∷ []
    → thread ≡ some t
    → is_live alive thread ≡ true
is_live-busy alive thread t a e = rw (a, e, nat_eq_refl t) refl

start-live : (w : Worker) → is_live w.alive w.thread ≡ true → start w ≡ w
unfolding start
start-live w live = rw live refl

start-IsSingle : (w : Worker) → IsSingle w → IsSingle (start w)
unfolding start
start-IsSingle w (busy t a e) = rw (is_live-busy w.alive w.thread t a e) (busy t a e)
start-IsSingle w (idle a) = elim (Bool-cases (is_live w.alive w.thread)) [
  | inl live ↦ rw live (idle a)
  | inr dead ↦ rw dead (busy w.next_thread (ap (λ ts. ts ++ w.next_thread ∷ []) a) refl)
]

ended-alive :
    (u t : ℕ)
    → (select (λ v. not (nat_eq v u)) (t ∷ []) ≡ [])
      ⊎ (select (λ v. not (nat_eq v u)) (t ∷ []) ≡ t ∷ [])
ended-alive u t = elim (Bool-cases (nat_eq t u)) [
  | inl same ↦ inl (rw same refl)
  | inr other ↦ inr (rw other refl)
]

ended-IsSingle : (u : ℕ) (w : Worker) → IsSingle w → IsSingle (ended u w)
ended-IsSingle u w (idle a) = idle (ap (select (λ v. not (nat_eq v u))) a)
ended-IsSingle u w (busy t a e) = elim (ended-alive u t) [
  | inl gone ↦ idle (ap (select (λ v. not (nat_eq v u))) a ∙ gone)
  | inr kept ↦ busy t (ap (select (λ v. not (nat_eq v u))) a ∙ kept) e
]

step-IsSingle : {v w : Worker} → v ⟶ w → IsSingle v → IsSingle w
step-IsSingle {v} starts single = start-IsSingle v single
step-IsSingle stops (idle a) = idle a
step-IsSingle stops (busy t a e) = busy t a e
step-IsSingle {v} (ends t) single = ended-IsSingle t v single

IsReached-IsSingle : {w : Worker} → IsReached w → IsSingle w
IsReached-IsSingle begin = idle refl
IsReached-IsSingle (after reached s) = step-IsSingle s (IsReached-IsSingle reached)

-- Whatever order the calls of start and stop come in, and whenever threads end, at most one thread
-- of a worker is alive.
pub alive-at_most_one : (w : Worker) → IsReached w → length w.alive ≤ 1
alive-at_most_one w reached = elim (IsReached-IsSingle reached) [
  | idle a ↦ rw a (omega arith)
  | busy t a e ↦ rw a (omega arith)
]

single-live : (w : Worker) (t : ℕ) → IsSingle w → w.alive ≡ t ∷ [] → is_live w.alive w.thread ≡ true
single-live w t (idle none_alive) a = let clash = sym none_alive ∙ a in cc
single-live w t (busy u b e) a = is_live-busy w.alive w.thread u b e

-- If a call of stop gives up waiting for the thread, a call of start that follows changes nothing:
-- the stop event stays set, so that no thread is alive once the old one has found it.
pub start_after_timeout :
    (w : Worker) (t : ℕ)
    → IsReached w
    → w.alive ≡ t ∷ []
    → (start (stop w) ≡ stop w)
      × ((start (stop w)).stop_set ≡ true)
      × ((ended t (start (stop w))).alive ≡ [])
start_after_timeout w t reached a =
    let same = start-live (stop w) (single-live w t (IsReached-IsSingle reached) a) in
    (same, ap (λ v. v.stop_set) same, rw (same, a, nat_eq_refl t) refl)
