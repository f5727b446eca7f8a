-- ===== src/Jobs/Dispatcher.antt =====
-- internal/jobs/dispatcher.go: `Dispatch` puts a row in the table of jobs and a task in the queue. The row is
-- written in a transaction that is committed after the task is enqueued.
pub mod Outcomes
use nova_nas.Base.{
  Bool, true, false, not, ◌&&◌, ◌||◌, Option, none, some, List, [], ◌∷◌, ◌++◌, Text, text_eq, ◌=?◌,
  insert, lookup, Result, ok, err, length, ◌==◌, if◌then◌else◌,
}

pub record DispatchInput : Type 0 where
  pub kind : Text
  pub target : Text
  pub payload : Text
  pub command : Text
  pub request_id : Text
  pub unique_key : Text

pub record JobRow : Type 0 where
  pub kind : Text
  pub target : Text
  pub command : Text
  pub request_id : Text

-- `TaskBody`, with the kind of the task and its id where it has one.
pub record Task : Type 0 where
  pub id : Option Text
  pub kind : Text
  pub job_id : Text
  pub payload : Text

pub data DispatchError : Type 0 where
  duplicate : DispatchError
  bad_payload begin_failed insert_failed bad_body enqueue_failed commit_failed :
      Text → DispatchError

-- The rows that are committed, by the id of the job, and the tasks in the queue.
pub record State : Type 0 where
  pub rows : List (Text × JobRow)
  pub queue : List Task

-- The store, the encoder and the queue. Each tells how a call fails, if it does.
pub record Backend : Type 0 where
  pub marshal : Text → Result Text Text
  pub begin : Option Text
  pub insert_job : Text → DispatchInput → Option Text
  pub encode_body : Text → Text → Option Text
  pub enqueue : Task → Option Text
  pub commit : Text → Option Text

-- The id that `asynq.TaskID` gives a task; without a key the queue makes one up.
unfoldable pub task_id : Text → Option Text
task_id key = if length key == 0 then none else some key

abbrev pub row_of : DispatchInput → JobRow
row_of input = record {
  kind = input.kind;
  target = input.target;
  command = input.command;
  request_id = input.request_id;
}

abbrev pub task_of : Text → Text → DispatchInput → Task
task_of job_id payload input = record {
  id = task_id input.unique_key;
  kind = input.kind;
  job_id = job_id;
  payload = payload;
}

-- Whether the queue has a task of an id, which the queue answers with a conflict.
unfoldable pub in_flight : List Task → Text → Bool
in_flight [] key = false
in_flight (t ∷ ts) key =
    (elim t.id as (λ _. Bool) [ none ↦ false | some id ↦ id =? key ]) || in_flight ts key

unfoldable pub conflicts : List Task → Option Text → Bool
conflicts queue none = false
conflicts queue (some key) = in_flight queue key

module _ (backend : Backend) where
  -- From the task to the end of the transaction. The row is kept only by the commit.
  unfoldable pub enqueue_and_commit :
      State → Text → JobRow → Task → State × Result DispatchError Text
  enqueue_and_commit st id row task =
      let enqueued : State = record st { queue = st.queue ++ task ∷ [] } in
      let fresh = elim (backend.enqueue task) as (λ _. State × Result DispatchError Text) [
        | some msg ↦ (st, err (enqueue_failed msg))
        | none ↦ elim (backend.commit id) as (λ _. State × Result DispatchError Text) [
          | some msg ↦ (enqueued, err (commit_failed msg))
          | none ↦ (record enqueued { rows = insert st.rows id row }, ok id)
        ]
      ] in
      if conflicts st.queue task.id then (st, err duplicate) else fresh

  unfoldable pub dispatch : State → Text → DispatchInput → State × Result DispatchError Text
  dispatch st id input =
      elim (backend.marshal input.payload) as (λ _. State × Result DispatchError Text) [
        | err msg ↦ (st, err (bad_payload msg))
        | ok payload ↦ elim backend.begin as (λ _. State × Result DispatchError Text) [
          | some msg ↦ (st, err (begin_failed msg))
          | none ↦ elim (backend.insert_job id input) as (λ _. State × Result DispatchError Text) [
            | some msg ↦ (st, err (insert_failed msg))
            | none ↦
                elim (backend.encode_body id payload) as (λ _. State × Result DispatchError Text) [
                  | some msg ↦ (st, err (bad_body msg))
                  | none ↦ enqueue_and_commit st id (row_of input) (task_of id payload input)
                ]
          ]
        ]
      ]
