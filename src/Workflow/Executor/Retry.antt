-- ===== src/Workflow/Executor/Retry.antt =====
-- How often a step's handler is tried, and which result counts.
use aixgo.Common.{
  ℕ, zero, suc, ◌+◌, ◌-◌, ◌≤◌, ◌<◌, ◌≡◌, Option, none, some, arith, refl, subst, sym,
}
use aixgo.Common.Maps.{Map}
use aixgo.Workflow.Types.{StepError, handler_error, wait_ended, Result, ok, err}
use aixgo.Workflow.Store.{Store}
use aixgo.Workflow.Executor.{Environment, Handler, Step, attempts, execute_step, retries_left}

module _ (V E W : Type 0) (env : Environment V E W) (store : Store V E) where
  -- From attempt `a` on, `k` attempts failed, and after each the wait was sat out.
  pub data Tried (h : Handler V E W) (timeout : ℕ) : ℕ → Map V → W → ℕ → Map V → W → Type 0 where
    first : {a : ℕ} {c : Map V} {w : W} → Tried h timeout a c w 0 c w
    again :
        {a k : ℕ} {c c' c'' : Map V} {w w' w'' w''' : W} (e : E)
        → h timeout c w ≡ (w', c', err e)
        → env.wait_retry (a + 1) timeout w' ≡ (w'', none)
        → Tried h timeout (a + 1) c' w'' k c'' w'''
        → Tried h timeout a c w (suc k) c'' w'''

  -- What a sequence of attempts comes to, in terms of the handler's answers.
  pub data Comes (h : Handler V E W) (timeout a left : ℕ) (c : Map V) (w : W)
      : W × Map V × Result (StepError E) (Map V) → Type 0 where
    succeeds :
        {k : ℕ} {c' c'' : Map V} {w' w'' : W} (output : Map V)
        → k ≤ left
        → Tried h timeout a c w k c' w'
        → h timeout c' w' ≡ (w'', c'', ok output)
        → Comes h timeout a left c w (w'', c'', ok output)
    exhausted :
        {c' c'' : Map V} {w' w'' : W} (e : E)
        → Tried h timeout a c w left c' w'
        → h timeout c' w' ≡ (w'', c'', err e)
        → Comes h timeout a left c w (w'', c'', err (handler_error e))
    interrupted :
        {k b : ℕ} {c' c'' : Map V} {w' w'' w''' : W} (e x : E)
        → k < left
        → b ≡ a + k
        → Tried h timeout a c w k c' w'
        → h timeout c' w' ≡ (w'', c'', err e)
        → env.wait_retry (b + 1) timeout w'' ≡ (w''', some x)
        → Comes h timeout a left c w (w''', c'', err (wait_ended x))

  later :
      (h : Handler V E W) (timeout a left : ℕ) (c c' : Map V) (w w' w'' : W) (e : E)
      (r : W × Map V × Result (StepError E) (Map V))
      → h timeout c w ≡ (w', c', err e)
      → env.wait_retry (a + 1) timeout w' ≡ (w'', none)
      → Comes h timeout (a + 1) left c' w'' r
      → Comes h timeout a (suc left) c w r
  later h timeout a left c c' w w' w'' e r q p (succeeds {k} output le t s) =
      succeeds output (omega arith) (again e q p t) s
  later h timeout a left c c' w w' w'' e r q p (exhausted x t s) = exhausted x (again e q p t) s
  later h timeout a left c c' w w' w'' e r q p (interrupted y x lt b t s z) =
      interrupted y x (omega arith) (omega arith) (again e q p t) s z

  abbrev go : Handler V E W → ℕ → ℕ → ℕ → Map V → W → W × Map V × Result (StepError E) (Map V)
  go = attempts V E W env store

  module _ (h : Handler V E W) (timeout a : ℕ) (c c' : Map V) (w w' : W) where
    attempts-ok :
        (left : ℕ) (output : Map V)
        → h timeout c w ≡ (w', c', ok output)
        → go h timeout a left c w ≡ (w', c', ok output)
    unfolding attempts
    attempts-ok zero output q = ground arith
    attempts-ok (suc left) output q = ground arith

    attempts_last-err :
        (e : E)
        → h timeout c w ≡ (w', c', err e)
        → go h timeout a 0 c w ≡ (w', c', err (handler_error e))
    unfolding attempts
    attempts_last-err e q = ground arith

    attempts-ended :
        (left : ℕ) (w'' : W) (e x : E)
        → h timeout c w ≡ (w', c', err e)
        → env.wait_retry (a + 1) timeout w' ≡ (w'', some x)
        → go h timeout a (suc left) c w ≡ (w'', c', err (wait_ended x))
    unfolding attempts
    attempts-ended left w'' e x q p = ground arith

    attempts-again :
        (left : ℕ) (w'' : W) (e : E)
        → h timeout c w ≡ (w', c', err e)
        → env.wait_retry (a + 1) timeout w' ≡ (w'', none)
        → go h timeout a (suc left) c w ≡ go h timeout (a + 1) left c' w''
    unfolding attempts
    attempts-again left w'' e q p = rw (step, p0, q1)
      where
        q0 : (h timeout c w).0 ≡ w'
        q0 = ground arith

        q1 : (h timeout c w).1 ≡ c'
        q1 = ground arith

        p0 : (env.wait_retry (a + 1) timeout (h timeout c w).0).0 ≡ w''
        p0 = rw q0 (ground arith)

        step :
            go h timeout a (suc left) c w
            ≡ go h timeout
                (a + 1)
                left
                (h timeout c w).1
                (env.wait_retry (a + 1) timeout (h timeout c w).0).0
        step = ground arith

  module _ (h : Handler V E W) (timeout a left : ℕ) (c : Map V) (w : W)
      (ih : (c' : Map V) (w' : W)
        → Comes h timeout (a + 1) left c' w' (go h timeout (a + 1) left c' w')) where
    after_wait :
        (c' : Map V) (w' : W) (e : E) (y : W × Option E)
        → h timeout c w ≡ (w', c', err e)
        → env.wait_retry (a + 1) timeout w' ≡ y
        → Comes h timeout a (suc left) c w (go h timeout a (suc left) c w)
    after_wait c' w' e (w'', some x) q p =
        subst (Comes h timeout a (suc left) c w)
          (sym (attempts-ended h timeout a c c' w w' left w'' e x q p))
          (interrupted e x (omega arith) (omega arith) first q p)
    after_wait c' w' e (w'', none) q p =
        subst (Comes h timeout a (suc left) c w)
          (sym (attempts-again h timeout a c c' w w' left w'' e q p))
          (later h timeout a left c c' w w' w'' e _ q p (ih c' w''))

    first_attempt :
        (x : W × Map V × Result E (Map V))
        → h timeout c w ≡ x
        → Comes h timeout a (suc left) c w (go h timeout a (suc left) c w)
    first_attempt (w', c', ok output) q =
        subst (Comes h timeout a (suc left) c w)
          (sym (attempts-ok h timeout a c c' w w' (suc left) output q))
          (succeeds output (omega arith) first q)
    first_attempt (w', c', err e) q = after_wait c' w' e (env.wait_retry (a + 1) timeout w') q refl

  last_attempt :
      (h : Handler V E W) (timeout a : ℕ) (c : Map V) (w : W) (x : W × Map V × Result E (Map V))
      → h timeout c w ≡ x
      → Comes h timeout a 0 c w (go h timeout a 0 c w)
  last_attempt h timeout a c w (w', c', ok output) q =
      subst (Comes h timeout a 0 c w) (sym (attempts-ok h timeout a c c' w w' 0 output q))
        (succeeds output (omega arith) first q)
  last_attempt h timeout a c w (w', c', err e) q =
      subst (Comes h timeout a 0 c w) (sym (attempts_last-err h timeout a c c' w w' e q))
        (exhausted e first q)

  attempts-Comes :
      (h : Handler V E W) (timeout a left : ℕ) (c : Map V) (w : W)
      → Comes h timeout a left c w (go h timeout a left c w)
  attempts-Comes h timeout a zero c w = last_attempt h timeout a c w (h timeout c w) refl
  attempts-Comes h timeout a (suc left) c w =
      first_attempt h timeout a left c w (attempts-Comes h timeout (a + 1) left) (h timeout c w)
        refl

  -- A step with a handler is tried at most as often as its retries say, and at least once: the first
  -- success gives the output; else the last error is the step's, or the context ended in a wait.
  pub execute_step-Comes :
      (step : Step V E W) (h : Handler V E W) (c : Map V) (w : W)
      → step.handler ≡ some h
      → Comes h step.timeout 0 (step.retries - 1) c w (execute_step V E W env store step c w)
  unfolding execute_step retries_left
  execute_step-Comes step h c w e =
      rw (e, execute_step)
        (subst
          (λ n.
            Comes h step.timeout 0 n c w
              (go h step.timeout 0 (retries_left V E W env store step.retries) c w))
          (retries step.retries)
          (attempts-Comes h step.timeout 0 (retries_left V E W env store step.retries) c w))
    where
      retries : (n : ℕ) → retries_left V E W env store n ≡ n - 1
      retries zero = omega arith
      retries (suc n) = omega arith
