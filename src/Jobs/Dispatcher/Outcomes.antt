-- ===== src/Jobs/Dispatcher/Outcomes.antt =====
-- What `Dispatch` of internal/jobs/dispatcher.go leaves behind on each of its branches.
use nova_nas.Base.{
  ◌≡◌, refl, inl, inr, Bool, true, false, not, ◌&&◌, ◌||◌, none, some, List, [], ◌∷◌, ◌++◌, Text,
  text_eq, text_beq_iff, ◌=?◌, lookup, lookup-insert, =?_refl, Result, ok, err, length, ◌==◌,
  if◌then◌else◌, arith, Option-cases, Result-cases, ℕ, suc, ◌+◌, ◌≤◌,
}
use nova_nas.Jobs.Dispatcher.{
  DispatchInput, JobRow, Task, DispatchError, State, Backend, task_id, in_flight, conflicts,
  enqueue_and_commit, dispatch, row_of, task_of,
}

-- Whether the queue has the task of a job.
unfoldable pub has_task : List Task → Text → Bool
has_task [] id = false
has_task (t ∷ ts) id = t.job_id =? id || has_task ts id

has_task-append :
    (ts : List Task) (t : Task) (id : Text)
    → has_task (ts ++ t ∷ []) id ≡ (has_task ts id || t.job_id =? id)
unfolding has_task
has_task-append [] t id = ground arith
has_task-append (u ∷ ts) t id = ground (arith, has_task-append ts t id)

-- How many tasks of the queue have an id.
unfoldable pub count_id : List Task → Text → ℕ
count_id [] key = 0
count_id (t ∷ ts) key =
    let rest = count_id ts key in
    if (elim t.id as (λ _. Bool) [ none ↦ false | some id ↦ id =? key ]) then suc rest else rest

count_id-append :
    (ts : List Task) (t : Task) (key : Text)
    → count_id (ts ++ t ∷ []) key ≡ count_id ts key + count_id (t ∷ []) key
unfolding count_id
count_id-append [] t key = ground arith
count_id-append (u ∷ ts) t key = ground (arith, count_id-append ts t key)

count_id-in_flight : (ts : List Task) (key : Text) → in_flight ts key ≡ false → count_id ts key ≡ 0
unfolding count_id in_flight
count_id-in_flight [] key h = refl
count_id-in_flight (t ∷ ts) key h = ground (arith, h, count_id-in_flight ts key)

abbrev pub has_job : State → Text → Bool
has_job st id = elim (lookup st.rows id) as (λ _. Bool) [ none ↦ false | some _ ↦ true ]

module _ (backend : Backend) where
  -- A dispatch that fails leaves the rows as they were.
  pub dispatch_err-rows :
      (st st' : State) (id : Text) (input : DispatchInput) (e : DispatchError)
      → dispatch backend st id input ≡ (st', err e)
      → st'.rows ≡ st.rows
  unfolding dispatch enqueue_and_commit
  dispatch_err-rows st st' id input e h = ground (arith, h)

  enqueue_and_commit_ok :
      (st st' : State) (id made : Text) (row : JobRow) (task : Task)
      → enqueue_and_commit backend st id row task ≡ (st', ok made)
      → task.job_id ≡ id
      → (made ≡ id) × (has_job st' id ≡ true) × (has_task st'.queue id ≡ true)
  unfolding enqueue_and_commit
  enqueue_and_commit_ok st st' id made row task h own = ground (
    arith,
    h,
    own,
    lookup-insert st.rows id id row,
    has_task-append st.queue task id,
    text_beq_iff task.job_id id,
    =?_refl id,
  )

  -- A dispatch that succeeds commits the row of the job and puts its task in the queue.
  pub dispatch_ok-has_task :
      (st st' : State) (id made : Text) (input : DispatchInput)
      → dispatch backend st id input ≡ (st', ok made)
      → (made ≡ id) × (has_job st' id ≡ true) × (has_task st'.queue id ≡ true)
  unfolding dispatch
  dispatch_ok-has_task st st' id made input h =
      elim (Result-cases (backend.marshal input.payload)) [
        | inl (msg, bad) ↦ absurd (ground (arith, h, bad))
        | inr (payload, good) ↦ ground (
          arith,
          h,
          good,
          enqueue_and_commit_ok st st' id made (row_of input) (task_of id payload input),
        )
      ]

  enqueue_and_commit-no_orphan :
      (st : State) (id q : Text) (row : JobRow) (task : Task)
      → task.job_id ≡ id
      → (has_job st q && not (has_task st.queue q)) ≡ false
      → (has_job (enqueue_and_commit backend st id row task).0 q
          && not (has_task (enqueue_and_commit backend st id row task).0.queue q))
        ≡ false
  unfolding enqueue_and_commit
  enqueue_and_commit-no_orphan st id q row task own h = ground (
    arith,
    h,
    own,
    lookup-insert st.rows id q row,
    has_task-append st.queue task q,
    text_beq_iff task.job_id q,
    text_beq_iff id q,
  )

  -- Where the row of a job has its task in the queue, or there is no such row, it is so after a dispatch,
  -- however that ends: no row is left without a task.
  pub dispatch-no_orphan :
      (st : State) (id q : Text) (input : DispatchInput)
      → (has_job st q && not (has_task st.queue q)) ≡ false
      → (has_job (dispatch backend st id input).0 q
          && not (has_task (dispatch backend st id input).0.queue q))
        ≡ false
  unfolding dispatch
  dispatch-no_orphan st id q input h = elim (Result-cases (backend.marshal input.payload)) [
    | inl (msg, bad) ↦ ground (arith, h, bad)
    | inr (payload, good) ↦ ground (
      arith,
      h,
      good,
      enqueue_and_commit-no_orphan st id q (row_of input) (task_of id payload input) refl,
    )
  ]

  enqueue_and_commit-count :
      (st : State) (id key : Text) (row : JobRow) (task : Task)
      → count_id st.queue key ≤ 1
      → count_id (enqueue_and_commit backend st id row task).0.queue key ≤ 1
  unfolding enqueue_and_commit conflicts count_id
  enqueue_and_commit-count st id key row task h = elim (Option-cases task.id) [
    | inl free ↦ ground (arith, h, free, count_id-append st.queue task key)
    | inr (own, keyed) ↦ ground (
      arith,
      h,
      keyed,
      count_id-append st.queue task key,
      text_beq_iff own key,
      count_id-in_flight st.queue key,
    )
  ]

  -- A key that at most one task of the queue has is had by at most one after a dispatch.
  pub dispatch-count_id :
      (st : State) (id key : Text) (input : DispatchInput)
      → count_id st.queue key ≤ 1
      → count_id (dispatch backend st id input).0.queue key ≤ 1
  unfolding dispatch
  dispatch-count_id st id key input h = elim (Result-cases (backend.marshal input.payload)) [
    | inl (msg, bad) ↦ ground (arith, h, bad)
    | inr (payload, good) ↦ ground (
      arith,
      h,
      good,
      enqueue_and_commit-count st id key (row_of input) (task_of id payload input) h,
    )
  ]

-- The promise of a dispatcher: a set of keys in flight, and a dispatch that adds its key, where it has one that
-- is not in the set, and is refused where it is.
unfoldable pub spec_dispatch : (Text → Bool) → Text → (Text → Bool) × Bool
spec_dispatch keys key =
    if length key == 0
    then (keys, true)
    else if keys key
    then (keys, false)
    else (λ k. keys k || key =? k, true)

abbrev pub is_ok : Result DispatchError Text → Bool
is_ok (ok _) = true
is_ok (err _) = false

-- No call of the store, the encoder or the queue fails by itself.
pub record Reliable (backend : Backend) : Type 0 where
  pub marshals : (p : Text) → (b : Text) × (backend.marshal p ≡ ok b)
  pub begins : backend.begin ≡ none
  pub inserts : (id : Text) (input : DispatchInput) → backend.insert_job id input ≡ none
  pub encodes : (id b : Text) → backend.encode_body id b ≡ none
  pub enqueues : (t : Task) → backend.enqueue t ≡ none
  pub commits : (id : Text) → backend.commit id ≡ none

in_flight-append :
    (ts : List Task) (t : Task) (key : Text)
    → in_flight (ts ++ t ∷ []) key
      ≡ (in_flight ts key || (elim t.id as (λ _. Bool) [ none ↦ false | some id ↦ id =? key ]))
unfolding in_flight
in_flight-append [] t key = ground arith
in_flight-append (u ∷ ts) t key = ground (arith, in_flight-append ts t key)

-- Where no call fails by itself, a dispatch takes the set of the keys in flight to the one that is promised,
-- and succeeds exactly when the promise says so.
pub dispatch-spec_dispatch :
    (backend : Backend) (st : State) (id k : Text) (input : DispatchInput)
    → Reliable backend
    → (in_flight (dispatch backend st id input).0.queue k
        ≡ (spec_dispatch (in_flight st.queue) input.unique_key).0 k)
      × (is_ok (dispatch backend st id input).1
          ≡ (spec_dispatch (in_flight st.queue) input.unique_key).1)
unfolding dispatch enqueue_and_commit spec_dispatch task_id conflicts
dispatch-spec_dispatch backend st id k input reliable =
    let (payload, good) = reliable.marshals input.payload in
    let task = task_of id payload input in
    ground (
      arith,
      good,
      reliable.begins,
      reliable.inserts id input,
      reliable.encodes id payload,
      reliable.enqueues task,
      reliable.commits id,
      in_flight-append st.queue task k,
    )
