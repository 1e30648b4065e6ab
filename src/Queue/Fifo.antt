-- ===== src/Queue/Fifo.antt =====
-- The table is a first-in, first-out list of events.
use mathlib.Core.List.{map-append}
use insider_threat_detection.Common.{
  ℕ, zero, suc, ◌<◌, ◌≡◌, refl, sym, ap, ◌∙◌, Bool, not, List, [], ◌∷◌, ◌++◌, map, arith, length,
  take, drop, select, All, map-take, map-drop, length-map, All-append, All-select, sort_asc,
  insert_asc,
}
use insider_threat_detection.Json.{Dict}
use insider_threat_detection.Queue.{
  Codec, QueueRow, PersistentQueue, put, peek, is_one_of, commit, size, empty_queue,
}

module _ (c : Codec) where
  abbrev IsGrowing : List (QueueRow c) → Type 0
  IsGrowing [] = Unit {0}
  IsGrowing (r ∷ rs) = All (λ s. r.id < s.id) rs × IsGrowing rs

  -- Rows stand in the order of their keys, which are below the counter.
  pub record IsQueue (q : PersistentQueue c) : Type 0 where
    pub growing : IsGrowing q.rows
    pub below : All (λ r. r.id < q.next_id) q.rows

  -- The events that the table holds, oldest first.
  abbrev pub pending : PersistentQueue c → List Dict
  pending q = map (λ r. c.loads r.payload) q.rows

  insert_asc-least :
      (r : QueueRow c) (rs : List (QueueRow c))
      → All (λ s. r.id < s.id) rs
      → insert_asc (λ s. s.id) r rs ≡ r ∷ rs
  insert_asc-least r [] a = refl
  insert_asc-least r (s ∷ rs) a = ground (arith, a.0)

  sort_asc-growing : (rs : List (QueueRow c)) → IsGrowing rs → sort_asc (λ s. s.id) rs ≡ rs
  sort_asc-growing [] g = refl
  sort_asc-growing (r ∷ rs) g = rw (sort_asc-growing rs g.1) (insert_asc-least r rs g.0)

  select-above :
      (t : QueueRow c) (taken rs : List (QueueRow c))
      → All (λ s. t.id < s.id) rs
      → select (λ r. not (is_one_of c (t ∷ taken) r)) rs
        ≡ select (λ r. not (is_one_of c taken r)) rs
  select-above t taken [] a = refl
  select-above t taken (r ∷ rs) a = ground (arith, a.0, select-above t taken rs a.1)

  select-all : (rs : List (QueueRow c)) → select (λ r. not (is_one_of c [] r)) rs ≡ rs
  select-all [] = refl
  select-all (r ∷ rs) = ap (λ xs. r ∷ xs) (select-all rs)

  select-taken :
      (n : ℕ) (rs : List (QueueRow c))
      → IsGrowing rs
      → select (λ r. not (is_one_of c (take n rs) r)) rs ≡ drop n rs
  select-taken zero rs g = select-all rs
  select-taken (suc n) [] g = refl
  select-taken (suc n) (r ∷ rs) g =
      ground (arith, select-above r (take n rs) rs g.0, select-taken n rs g.1)

  commit-rows : (n : ℕ) (q : PersistentQueue c) → IsQueue q → (commit c n q).rows ≡ drop n q.rows
  unfolding commit
  commit-rows n q h = rw (sort_asc-growing q.rows h.growing) (select-taken n q.rows h.growing)

  pub pending-put :
      (event : Dict) (q : PersistentQueue c) → pending (put c event q) ≡ pending q ++ event ∷ []
  unfolding put
  pending-put event q = map-append _ q.rows _ ∙ ap (λ e. pending q ++ e ∷ []) (c.loads-dumps event)

  pub peek-pending : (n : ℕ) (q : PersistentQueue c) → IsQueue q → peek c n q ≡ take n (pending q)
  unfolding peek
  peek-pending n q h = rw (sort_asc-growing q.rows h.growing) (map-take _ n q.rows)

  pub pending-commit :
      (n : ℕ) (q : PersistentQueue c) → IsQueue q → pending (commit c n q) ≡ drop n (pending q)
  pending-commit n q h = rw (commit-rows n q h) (map-drop _ n q.rows)

  pub size-pending : (q : PersistentQueue c) → size c q ≡ length (pending q)
  unfolding size
  size-pending q = sym (length-map _ q.rows)

  IsGrowing-append :
      (rs : List (QueueRow c)) (r : QueueRow c)
      → IsGrowing rs
      → All (λ s. s.id < r.id) rs
      → IsGrowing (rs ++ r ∷ [])
  IsGrowing-append [] r g a = (tt, tt)
  IsGrowing-append (s ∷ rs) r g a =
      (All-append (λ x. s.id < x.id) rs (r ∷ []) g.0 (a.0, tt), IsGrowing-append rs r g.1 a.1)

  below-suc : (n : ℕ) (rs : List (QueueRow c)) → All (λ r. r.id < n) rs → All (λ r. r.id < suc n) rs
  below-suc n [] a = tt
  below-suc n (r ∷ rs) a = (omega (arith, a.0), below-suc n rs a.1)

  pub put-IsQueue : (event : Dict) (q : PersistentQueue c) → IsQueue q → IsQueue (put c event q)
  unfolding put
  put-IsQueue event q h = record {
    growing = IsGrowing-append q.rows _ h.growing h.below;
    below =
        All-append (λ r. r.id < suc q.next_id) q.rows _ (below-suc q.next_id q.rows h.below)
          (omega arith, tt);
  }

  IsGrowing-select :
      (p : QueueRow c → Bool) (rs : List (QueueRow c)) → IsGrowing rs → IsGrowing (select p rs)
  IsGrowing-select p [] g = tt
  IsGrowing-select p (r ∷ rs) g =
      ground (arith, All-select (λ s. r.id < s.id) p rs g.0, IsGrowing-select p rs g.1)

  pub commit-IsQueue : (n : ℕ) (q : PersistentQueue c) → IsQueue q → IsQueue (commit c n q)
  unfolding commit
  commit-IsQueue n q h = record {
    growing = IsGrowing-select _ q.rows h.growing;
    below = All-select (λ r. r.id < q.next_id) _ q.rows h.below;
  }

  pub empty_queue-IsQueue : IsQueue (empty_queue c)
  empty_queue-IsQueue = record { growing = tt; below = tt }

-- The writes of the queue's users.
pub data Write : Type 0 where
  putting : Dict → Write
  committing : ℕ → Write

module _ (c : Codec) where
  abbrev pub writes : List Write → PersistentQueue c → PersistentQueue c
  writes [] q = q
  writes (putting event ∷ ops) q = writes ops (put c event q)
  writes (committing n ∷ ops) q = writes ops (commit c n q)

-- What the queue promises, on a plain list.
abbrev pub fifo : List Write → List Dict → List Dict
fifo [] es = es
fifo (putting event ∷ ops) es = fifo ops (es ++ event ∷ [])
fifo (committing n ∷ ops) es = fifo ops (drop n es)

module _ (c : Codec) where
  pub writes-IsQueue :
      (ops : List Write) (q : PersistentQueue c) → IsQueue c q → IsQueue c (writes c ops q)
  writes-IsQueue [] q h = h
  writes-IsQueue (putting event ∷ ops) q h = writes-IsQueue ops _ (put-IsQueue c event q h)
  writes-IsQueue (committing n ∷ ops) q h = writes-IsQueue ops _ (commit-IsQueue c n q h)

  pending-writes :
      (ops : List Write) (q : PersistentQueue c)
      → IsQueue c q
      → pending c (writes c ops q) ≡ fifo ops (pending c q)
  pending-writes [] q h = refl
  pending-writes (putting event ∷ ops) q h =
      pending-writes ops _ (put-IsQueue c event q h) ∙ ap (fifo ops) (pending-put c event q)
  pending-writes (committing n ∷ ops) q h =
      pending-writes ops _ (commit-IsQueue c n q h) ∙ ap (fifo ops) (pending-commit c n q h)

  -- After any sequence of puts and commits on a well-formed table, reading up to n events gives the
  -- first n of a list to whose end each put adds and from whose front each commit takes.
  pub peek-writes :
      (n : ℕ) (ops : List Write) (q : PersistentQueue c)
      → IsQueue c q
      → peek c n (writes c ops q) ≡ take n (fifo ops (pending c q))
  peek-writes n ops q h =
      peek-pending c n _ (writes-IsQueue ops q h) ∙ ap (take n) (pending-writes ops q h)
