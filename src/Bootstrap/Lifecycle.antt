-- ===== src/Bootstrap/Lifecycle.antt =====
-- The worker's signals in src/z4j_celery/worker_bootstrap.py: the agent that a worker process owns,
-- from `worker_ready` to `worker_shutdown`. Agents are numbers; starting one is z4j_bare's.
use z4j_celery.Prelude.{
  ℕ, ◌+◌, ◌≡◌, refl, String, Bool, true, false, Option, none, some, List, [], ◌∷◌, ◌++◌,
  if◌then◌else◌, ap, ◌∙◌, sym,
}
use z4j_celery.Python.{Outcome, returned, raised}
use z4j_celery.Bootstrap.Argv.{env_flag, is_celery_worker_invocation}

-- The module's globals, and what has been done to the agents so far.
pub record Process : Type 0 where
  pub runtime : Option ℕ
  pub signal_connected : Bool
  -- how often the two handlers are connected to their signals
  pub connections : ℕ
  pub started : List ℕ
  pub stopped : List ℕ

-- What the handler of `worker_ready` reads: the flag Z4J_DISABLED, the command line, the Celery
-- application and the result of `install_agent`.
pub record Ready : Type 0 where
  pub disabled : Option String
  pub argv : List String
  pub celery_app : Outcome ℕ
  pub install_agent : Outcome ℕ

abbrev pub installed : Outcome ℕ → Outcome ℕ → Process → Process
installed (raised e) install p = p
installed (returned app) (raised e) p = p
installed (returned app) (returned agent) p = record p {
  runtime = some agent;
  started = p.started ++ agent ∷ [];
}

abbrev pub ready_from : Option ℕ → Ready → Process → Process
ready_from (some agent) r p = p
ready_from none r p =
    if env_flag r.disabled
    then p
    else if is_celery_worker_invocation r.argv
    then installed r.celery_app r.install_agent p
    else p

unfoldable pub on_worker_ready : Ready → Process → Process
on_worker_ready r p = ready_from p.runtime r p

abbrev pub shutdown_from : Option ℕ → Process → Process
shutdown_from none p = p
shutdown_from (some agent) p = record p { runtime = none; stopped = p.stopped ++ agent ∷ [] }

-- The agent is stopped, and forgotten also when stopping it raises.
unfoldable pub on_worker_shutdown : Process → Process
on_worker_shutdown p = shutdown_from p.runtime p

-- `has_celery` is whether `celery.signals` can be imported.
unfoldable pub register_worker_bootstrap : Bool → Process → Process
register_worker_bootstrap has_celery p =
    if p.signal_connected
    then p
    else if has_celery
    then record p { signal_connected = true; connections = p.connections + 1 }
    else p

-- What may happen to a process, in any order and any number of times.
pub data Step : Process → Process → Type 0 where
  registers : (has_celery : Bool) (p : Process) → Step p (register_worker_bootstrap has_celery p)
  ready : (r : Ready) (p : Process) → Step p (on_worker_ready r p)
  shuts_down : (p : Process) → Step p (on_worker_shutdown p)

pub data Reachable : Process → Type 0 where
  initial : Reachable record {
    runtime = none;
    signal_connected = false;
    connections = 0;
    started = [];
    stopped = [];
  }
  next : {p q : Process} → Reachable p → Step p q → Reachable q

-- The agent that runs, if one does.
abbrev pub running : Option ℕ → List ℕ
running none = []
running (some agent) = agent ∷ []

abbrev pub connected_once : Bool → ℕ
connected_once false = 0
connected_once true = 1

-- Every agent that was started has been stopped once, in the order of the starts, but for the one
-- that runs; and the handlers are connected once or not at all.
pub record IsBalanced (p : Process) : Type 0 where
  pub agents : p.started ≡ p.stopped ++ running p.runtime
  pub connected : p.connections ≡ connected_once p.signal_connected

append-nil : (ys : List ℕ) → ys ++ [] ≡ ys
append-nil [] = refl
append-nil (y ∷ ys) = ap (λ zs. y ∷ zs) (append-nil ys)

IsBalanced-if :
    (b : Bool) (p q : Process) → IsBalanced p → IsBalanced q → IsBalanced (if b then p else q)
IsBalanced-if true p q h k = h
IsBalanced-if false p q h k = k

installed-IsBalanced :
    (app install : Outcome ℕ) (p : Process)
    → p.runtime ≡ none
    → IsBalanced p
    → IsBalanced (installed app install p)
installed-IsBalanced (raised e) install p h b = b
installed-IsBalanced (returned app) (raised e) p h b = b
installed-IsBalanced (returned app) (returned agent) p h b = record {
  agents =
      ap (λ xs. xs ++ agent ∷ [])
        (b.agents ∙ ap (λ o. p.stopped ++ running o) h ∙ append-nil p.stopped);
  connected = b.connected;
}

ready-IsBalanced :
    (o : Option ℕ) (r : Ready) (p : Process)
    → p.runtime ≡ o
    → IsBalanced p
    → IsBalanced (ready_from o r p)
ready-IsBalanced (some agent) r p h b = b
ready-IsBalanced none r p h b = IsBalanced-if (env_flag r.disabled) p _ b (
    IsBalanced-if (is_celery_worker_invocation r.argv) (installed r.celery_app r.install_agent p) p
      (installed-IsBalanced r.celery_app r.install_agent p h b) b)

shutdown-IsBalanced :
    (o : Option ℕ) (p : Process) → p.runtime ≡ o → IsBalanced p → IsBalanced (shutdown_from o p)
shutdown-IsBalanced none p h b = b
shutdown-IsBalanced (some agent) p h b = record {
  agents =
      b.agents ∙ ap (λ o. p.stopped ++ running o) h ∙ sym (append-nil (p.stopped ++ agent ∷ []));
  connected = b.connected;
}

register-IsBalanced :
    (c has_celery : Bool) (p : Process)
    → p.signal_connected ≡ c
    → IsBalanced p
    → IsBalanced (
        if c
        then p
        else if has_celery
        then record p { signal_connected = true; connections = p.connections + 1 }
        else p)
register-IsBalanced true has_celery p h b = b
register-IsBalanced false false p h b = b
register-IsBalanced false true p h b = record {
  agents = b.agents;
  connected = ap (λ n. n + 1) (b.connected ∙ ap connected_once h);
}

Step-IsBalanced : {p q : Process} → Step p q → IsBalanced p → IsBalanced q
unfolding register_worker_bootstrap on_worker_ready on_worker_shutdown
Step-IsBalanced (registers has_celery p) b =
    register-IsBalanced p.signal_connected has_celery p refl b
Step-IsBalanced (ready r p) b = ready-IsBalanced p.runtime r p refl b
Step-IsBalanced (shuts_down p) b = shutdown-IsBalanced p.runtime p refl b

-- In every state that the signals can bring a process to, each agent that was started has been
-- stopped once, in the order of the starts, but for the one that runs, and the handlers are connected
-- at most once.
pub reachable-IsBalanced : {p : Process} → Reachable p → IsBalanced p
reachable-IsBalanced initial = record { agents = refl; connected = refl }
reachable-IsBalanced (next h s) = Step-IsBalanced s (reachable-IsBalanced h)
