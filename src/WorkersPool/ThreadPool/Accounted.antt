-- ===== src/WorkersPool/ThreadPool/Accounted.antt =====
-- The account of a thread pool: each ventilated item that is not reported waits somewhere
-- (dataset_toolkit/workers_pool/thread_pool.py).
use code_assist_analyzer.Prelude.{
  ℕ, zero, suc, ◌+◌, ◌≤◌, Bool, true, false, ◌&&◌, some, List, [], ◌∷◌, ◌++◌, map, length,
  get_elem?, if◌then◌else◌, All, ◌≡◌, refl, ap, subst, arith,
}
use code_assist_analyzer.WorkersPool.ThreadPool.{
  Message, result, item_processed, exception, Worker, idle, publishing, ended, ThreadPool, replace,
  has_room, messages, after_put, stop_aware, worker_step,
}

-- the items that a worker has taken and not reported
abbrev pub pending : {R : Type 0} → Worker R → ℕ
pending idle = 0
pending ended = 0
pending (publishing ms) = 1

abbrev pub pending_all : {R : Type 0} → List (Worker R) → ℕ
pending_all [] = 0
pending_all (w ∷ ws) = pending w + pending_all ws

-- the reports in the results queue
abbrev pub reports : {R : Type 0} → List (Message R) → ℕ
reports [] = 0
reports (item_processed ∷ ms) = suc (reports ms)
reports (_ ∷ ms) = reports ms

-- the report of an item comes after all its results
abbrev pub ReportLast : {R : Type 0} → List (Message R) → Type 0
ReportLast [] = Unit
ReportLast (m ∷ []) = Unit
ReportLast (item_processed ∷ m ∷ ms) = ⊥
ReportLast (_ ∷ m ∷ ms) = ReportLast (m ∷ ms)

abbrev pub WorkerOk : {R : Type 0} → Worker R → Type 0
WorkerOk (publishing ms) = ReportLast ms
WorkerOk _ = Unit

reports-append :
    {R : Type 0} (xs ys : List (Message R)) → reports (xs ++ ys) ≡ reports xs + reports ys
reports-append [] ys = omega arith
reports-append (item_processed ∷ xs) ys = omega (arith, reports-append xs ys)
reports-append (result r ∷ xs) ys = reports-append xs ys
reports-append (exception ∷ xs) ys = reports-append xs ys

pending_all-replace :
    {R : Type 0} (ws : List (Worker R)) (i : ℕ) (w : Worker R) {old : Worker R}
    → get_elem? ws i ≡ some old
    → pending_all (replace ws i w) + pending old ≡ pending_all ws + pending w
unfolding replace
pending_all-replace [] i w h = cc
pending_all-replace (x ∷ ws) zero w {old} h =
    let same : x ≡ old = ground arith in omega (arith, ap pending same)
pending_all-replace (x ∷ ws) (suc i) w {old} h =
    omega (arith, pending_all-replace ws i w {old = old} h)

All-replace :
    {A : Type 0} (P : A → Type 0) (xs : List A) (i : ℕ) (x : A)
    → P x
    → All P xs
    → All P (replace xs i x)
unfolding replace
All-replace P [] i x h all_hold = tt
All-replace P (y ∷ xs) zero x h all_hold = (h, all_hold.1)
All-replace P (y ∷ xs) (suc i) x h all_hold = (all_hold.0, All-replace P xs i x h all_hold.1)

All-get :
    {A : Type 0} (P : A → Type 0) (xs : List A) (i : ℕ) {x : A}
    → All P xs
    → get_elem? xs i ≡ some x
    → P x
All-get P [] i all_hold h = cc
All-get P (y ∷ xs) zero all_hold h = subst P (ground arith) all_hold.0
All-get P (y ∷ xs) (suc i) all_hold h = All-get P xs i all_hold.1 h

module _ {Item R : Type 0} where
  -- Each ventilated item that is not reported yet is in a queue or with a worker, or was given up.
  pub record Accounted (pool : ThreadPool Item R) : Type 0 where
    pub items :
        pool.ventilated_items_processed
          + length pool.ventilator_queue
          + pending_all pool.workers
          + reports pool.results_queue
        ≤ pool.ventilated_items
    pub last : All WorkerOk pool.workers

  branch-Accounted :
      (b : Bool) {pool1 pool2 : ThreadPool Item R}
      → Accounted pool1
      → Accounted pool2
      → Accounted (if b then pool1 else pool2)
  branch-Accounted true h1 h2 = h1
  branch-Accounted false h1 h2 = h2

  module _ (process : Item → List R × Bool) where
    messages-ReportLast : (item : Item) → ReportLast (messages process item)
    unfolding messages
    messages-ReportLast item =
        results_first (process item).0 (if (process item).1 then exception else item_processed)
      where
        results_first : (rs : List R) (m : Message R) → ReportLast (map result rs ++ m ∷ [])
        results_first [] m = tt
        results_first (r ∷ []) m = tt
        results_first (r ∷ q ∷ rs) m = results_first (q ∷ rs) m

    -- putting a message moves the report from the worker to the queue
    after_put-pending :
        (m : Message R) (ms : List (Message R))
        → ReportLast (m ∷ ms)
        → reports (m ∷ []) + pending (after_put process m ms) ≤ 1
    after_put-pending (result r) [] last = omega arith
    after_put-pending (result r) (m ∷ ms) last = omega arith
    after_put-pending item_processed [] last = omega arith
    after_put-pending item_processed (m ∷ ms) last = absurd last
    after_put-pending exception ms last = omega arith

    after_put-WorkerOk :
        (m : Message R) (ms : List (Message R))
        → ReportLast (m ∷ ms)
        → WorkerOk (after_put process m ms)
    after_put-WorkerOk (result r) [] last = tt
    after_put-WorkerOk (result r) (m ∷ ms) last = last
    after_put-WorkerOk item_processed [] last = tt
    after_put-WorkerOk item_processed (m ∷ ms) last = absurd last
    after_put-WorkerOk exception ms last = tt

    -- a worker that gives up what it has
    gives_up :
        (i : ℕ) (w new : Worker R) (pool : ThreadPool Item R)
        → pending new ≡ 0
        → WorkerOk new
        → get_elem? pool.workers i ≡ some w
        → Accounted pool
        → Accounted (record pool { workers = replace pool.workers i new })
    gives_up i w new pool none_left fine here h = record {
      items =
          omega (arith, h.items, pending_all-replace pool.workers i new {old = w} here, none_left);
      last = All-replace WorkerOk pool.workers i new fine h.last;
    }

    takes_item :
        (i : ℕ) (pool : ThreadPool Item R) (item : Item) (items : List Item)
        → pool.ventilator_queue ≡ item ∷ items
        → get_elem? pool.workers i ≡ some idle
        → Accounted pool
        → Accounted (record pool {
          ventilator_queue = items;
          workers = replace pool.workers i (publishing (messages process item));
        })
    takes_item i pool item items queue here h = record {
      items = omega (
        arith,
        h.items,
        pending_all-replace pool.workers i (publishing (messages process item)) {old = idle} here,
        ap length queue,
      );
      last =
          All-replace WorkerOk pool.workers i (publishing (messages process item))
            (messages-ReportLast item) h.last;
    }

    puts_message :
        (i : ℕ) (pool : ThreadPool Item R) (m : Message R) (ms : List (Message R))
        → get_elem? pool.workers i ≡ some (publishing (m ∷ ms))
        → Accounted pool
        → Accounted (record pool {
          results_queue = pool.results_queue ++ m ∷ [];
          workers = replace pool.workers i (after_put process m ms);
        })
    puts_message i pool m ms here h =
        let last = All-get WorkerOk pool.workers i h.last here in
        record {
          items = omega (
            arith,
            h.items,
            pending_all-replace pool.workers i (after_put process m ms) {old = publishing (m ∷ ms)}
                here,
            reports-append pool.results_queue (m ∷ []),
            after_put-pending m ms last,
          );
          last =
              All-replace WorkerOk pool.workers i (after_put process m ms)
                (after_put-WorkerOk m ms last) h.last;
        }

    takes-Accounted :
        (i : ℕ) (pool : ThreadPool Item R) (queue : List Item)
        → pool.ventilator_queue ≡ queue
        → get_elem? pool.workers i ≡ some idle
        → Accounted pool
        → Accounted (elim queue as (λ _. ThreadPool Item R) [
          | [] ↦ pool
          | item ∷ items ↦ record pool {
            ventilator_queue = items;
            workers = replace pool.workers i (publishing (messages process item));
          }
        ])
    takes-Accounted i pool [] queue here h = h
    takes-Accounted i pool (item ∷ items) queue here h = takes_item i pool item items queue here h

    pub worker_step-Accounted :
        (i : ℕ) (w : Worker R) (pool : ThreadPool Item R)
        → get_elem? pool.workers i ≡ some w
        → Accounted pool
        → Accounted (worker_step process i w pool)
    unfolding worker_step
    worker_step-Accounted i idle pool here h =
        branch-Accounted pool.stop_event (gives_up i idle ended pool refl tt here h)
          (takes-Accounted i pool pool.ventilator_queue refl here h)
    worker_step-Accounted i (publishing []) pool here h =
        gives_up i (publishing []) idle pool refl tt here h
    worker_step-Accounted i (publishing (m ∷ ms)) pool here h =
        branch-Accounted (has_room pool) (puts_message i pool m ms here h) (
          branch-Accounted (pool.stop_event && stop_aware process m)
            (gives_up i (publishing (m ∷ ms)) idle pool refl tt here h) h)
    worker_step-Accounted i ended pool here h = h
