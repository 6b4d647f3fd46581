-- ===== src/Engine/Submit/Asks.antt =====
-- What a submission publishes.
use z4j_celery.Prelude.{
  arith, String, Bool, true, false, Option, none, some, List, [], ◌∷◌, ◌++◌, ◌≡◌, refl, sym, subst,
  if◌then◌else◌,
}
use z4j_celery.Prelude.Int.{ℤ}
use z4j_celery.Prelude.Text.{is_empty}
use z4j_celery.Python.{
  Exception, Value, int, str, time, tuple, dict, values, fields, truthy, is_none, Dict, get,
  Outcome, returned, raised, Io, pure, lift, ◌>>=◌, Holds, Runtime, getattr, Returns, Any,
  Holds-Any, Sends, Sends-then, Sends-before, once,
}
use z4j_celery.Command.{failed}
use z4j_celery.Offload.{offload, indeterminate_timeout_result}
use z4j_celery.Offload.Publishing.{Settled, offload-Sends, Sends-Settled}
use z4j_celery.Engine.Submit.{
  Submission, submit, submit_task, submit_timeout, submit_failed, eta_option, timestamp_of,
  registered, send, send_kwargs, queue_option, priority_option,
}
use z4j_celery.Engine.Submit.Reads.{
  Observed, eta_option-Quiet, tasks-Quiet, registered-Quiet, lookup-Quiet, new_id-Quiet,
}
use mathlib.Core.Option

-- A publish: the task's name, and the options.
abbrev pub Publication : Type 0
Publication = String × Dict Value

abbrev pub asked_queue : Option String → Option Value
asked_queue none = none
asked_queue (some q) = if is_empty q then none else some (str q)

module _ (rt : Runtime) (celery_app : Value) where
  open rt use {World, call}

  abbrev pub time_of : Outcome ℤ → Option Value
  time_of (returned t) = some (time t)
  time_of (raised e) = none

  abbrev pub asked_eta : Value → Option Value
  asked_eta eta = if is_none eta then none else time_of (timestamp_of rt celery_app eta)

  -- The publish of a submission: its name, its arguments, and each option that it has.
  pub record AsksFor (s : Submission) (p : Publication) : Type 0 where
    pub name : p.0 ≡ s.name
    pub args : get "args" p.1 ≡ some (tuple (values s.args))
    pub kwargs : get "kwargs" p.1 ≡ some (dict (fields s.kwargs))
    pub queue : get "queue" p.1 ≡ asked_queue s.queue
    pub eta : get "eta" p.1 ≡ asked_eta s.eta
    pub priority : get "priority" p.1 ≡ Option.map int s.priority

  -- `log` shows the publishes so far, `task_name` a task's name; `the_tasks` is the application's
  -- registry, which has each task under its name.
  pub record Logged (log : World → List Publication) (task_name : Value → String)
      (the_tasks : Value) : Type 0 where
    pub observed : Observed rt celery_app log
    pub sends :
        (name : String) (kwargs : Dict Value) (w : World)
        → log (call celery_app "send_task" (str name ∷ []) kwargs w).1
          ≡ log w ++ (name, kwargs) ∷ []
    pub applies :
        (task : Value) (kwargs : Dict Value) (w : World)
        → log (call task "apply_async" [] kwargs w).1 ≡ log w ++ (task_name task, kwargs) ∷ []
    pub registry : Returns (λ v. v ≡ the_tasks) (getattr rt celery_app "tasks")
    pub lookups :
        (name : String)
        → Returns (λ task. task_name task ≡ name) (call the_tasks "__getitem__" (str name ∷ []) [])

  abbrev entry : String → Option Value → Dict Value
  entry name none = []
  entry name (some v) = (name, v) ∷ []

  entry_if :
      (b : Bool) (name : String) (v : Value)
      → (if b then [] else (name, v) ∷ []) ≡ entry name (if b then none else some v)
  entry_if true name v = refl
  entry_if false name v = refl

  queue_option-entry : (q : Option String) → queue_option q ≡ entry "queue" (asked_queue q)
  queue_option-entry none = refl
  queue_option-entry (some q) = entry_if (is_empty q) "queue" (str q)

  priority_option-entry : (n : Option ℤ) → priority_option n ≡ entry "priority" (Option.map int n)
  priority_option-entry none = refl
  priority_option-entry (some n) = refl

  abbrev entries : Option Value → Option Value → Option Value → Dict Value
  entries q e n = entry "queue" q ++ entry "eta" e ++ entry "priority" n

  get-entries :
      (q e n : Option Value)
      → (get "args" (entries q e n) ≡ none)
        × (get "queue" (entries q e n) ≡ q)
        × (get "eta" (entries q e n) ≡ e)
        × (get "priority" (entries q e n) ≡ n)
  unfolding get
  get-entries none none none = (refl, refl, refl, refl)
  get-entries none none (some n) = (refl, refl, refl, refl)
  get-entries none (some e) none = (refl, refl, refl, refl)
  get-entries none (some e) (some n) = (refl, refl, refl, refl)
  get-entries (some q) none none = (refl, refl, refl, refl)
  get-entries (some q) none (some n) = (refl, refl, refl, refl)
  get-entries (some q) (some e) none = (refl, refl, refl, refl)
  get-entries (some q) (some e) (some n) = (refl, refl, refl, refl)

  send_kwargs-AsksFor :
      (s : Submission) (eta : Dict Value) (name : String)
      → eta ≡ entry "eta" (asked_eta s.eta)
      → name ≡ s.name
      → AsksFor s (name, send_kwargs rt celery_app s eta)
  unfolding get
  send_kwargs-AsksFor s eta name h k =
      let (a, q, e, n) =
        get-entries (asked_queue s.queue) (asked_eta s.eta) (Option.map int s.priority) in
      record {
        name = k;
        args = refl;
        kwargs = refl;
        queue = rw (queue_option-entry s.queue, h, priority_option-entry s.priority) q;
        eta = rw (queue_option-entry s.queue, h, priority_option-entry s.priority) e;
        priority = rw (queue_option-entry s.queue, h, priority_option-entry s.priority) n;
      }

  eta_option-entry :
      (eta : Value) → Returns (λ d. d ≡ entry "eta" (asked_eta eta)) (eta_option rt celery_app eta)
  eta_option-entry eta w = chosen (is_none eta) (timestamp_of rt celery_app eta)
    where
      chosen :
          (b : Bool) (o : Outcome ℤ)
          → Holds
              (λ d. d ≡ entry "eta" (if b then none else time_of o))
              ((if b then pure [] else (lift o >>= λ t. pure (("eta", time t) ∷ []))) w).0
      chosen true o = refl
      chosen false (returned t) = refl
      chosen false (raised e) = tt

  module _ (log : World → List Publication) (task_name : Value → String) (the_tasks : Value)
      (logged : Logged log task_name the_tasks) (s : Submission) where
    publish-Sends :
        (eta : Dict Value) (m : Io World Value) (name : String)
        → eta ≡ entry "eta" (asked_eta s.eta)
        → name ≡ s.name
        → ((w : World) → log (m w).1 ≡ log w ++ (name, send_kwargs rt celery_app s eta) ∷ [])
        → Sends log (AsksFor s) m
    publish-Sends eta m name h k e w = once log (AsksFor s) (m w).0 (log w) (log (m w).1) (record {
      published = (name, send_kwargs rt celery_app s eta);
      is_asked = send_kwargs-AsksFor s eta name h k;
      order = e w;
    })

    send-Sends :
        (eta : Dict Value) (tasks : Value) (known : Bool)
        → eta ≡ entry "eta" (asked_eta s.eta)
        → tasks ≡ the_tasks
        → Sends log (AsksFor s) (send rt celery_app s eta tasks known)
    send-Sends eta tasks true h i =
        Sends-then log (AsksFor s) (λ task. task_name task ≡ s.name)
          (call tasks "__getitem__" (str s.name ∷ []) []) _
          (lookup-Quiet rt celery_app log logged.observed tasks s.name)
          (subst
            (λ v.
              Returns (λ task. task_name task ≡ s.name) (call v "__getitem__" (str s.name ∷ []) []))
            (sym i) (logged.lookups s.name))
          (λ task k.
            publish-Sends eta (call task "apply_async" [] (send_kwargs rt celery_app s eta))
              (task_name task) h k (logged.applies task (send_kwargs rt celery_app s eta)))
    send-Sends eta tasks false h i =
        publish-Sends eta
          (call celery_app "send_task" (str s.name ∷ []) (send_kwargs rt celery_app s eta)) s.name h
          refl (logged.sends s.name (send_kwargs rt celery_app s eta))

    submit-Sends : Sends log (AsksFor s) (submit rt celery_app s)
    unfolding submit
    submit-Sends =
        Sends-then log (AsksFor s) (λ eta. eta ≡ entry "eta" (asked_eta s.eta))
          (eta_option rt celery_app s.eta) _
          (eta_option-Quiet rt celery_app log logged.observed s.eta) (eta_option-entry s.eta)
          (λ eta h.
            Sends-then log (AsksFor s) (λ tasks. tasks ≡ the_tasks) (getattr rt celery_app "tasks")
              _ (tasks-Quiet rt celery_app log logged.observed) logged.registry
              (λ tasks i.
                Sends-then log (AsksFor s) Any (registered rt celery_app tasks s.name) _
                  (registered-Quiet rt celery_app log logged.observed tasks s.name)
                  (λ w. Holds-Any (registered rt celery_app tasks s.name w).0)
                  (λ known _.
                    Sends-before log (AsksFor s) (send rt celery_app s eta tasks (truthy known)) _
                      (send-Sends eta tasks (truthy known) h i)
                      (new_id-Quiet rt celery_app log logged.observed))))

    submit_failed-IsFailed : (e : Exception) → (submit_failed rt celery_app e).status ≡ failed
    unfolding indeterminate_timeout_result
    submit_failed-IsFailed e = ground arith

    -- Where the log shows each call of send_task and of apply_async with the task's name and the
    -- options, an answer of a submission comes with one publish, of the name and the arguments that
    -- were given and with exactly the queue, the delay and the priority that were given; or it is a
    -- failure and comes with none. An exception comes with none.
    pub submit_asks :
        (w : World)
        → let r = submit_task rt celery_app s w in Settled rt log (AsksFor s) r.0 (log w) (log r.1)
    unfolding submit_task
    submit_asks =
        Sends-Settled rt log (AsksFor s) (offload rt submit_timeout (submit rt celery_app s)) _
          (submit_failed rt celery_app)
          (offload-Sends rt log (AsksFor s) submit_timeout (submit rt celery_app s) submit-Sends)
          submit_failed-IsFailed
