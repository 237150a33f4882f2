-- ===== src/Process/Scheduler/Invariant.antt =====
-- At most one process runs, and the CPU that runs it knows.
use java_script_os.Base.{ℕ, ◌≡◌, ◌≢◌, Option, none, some, ◌==◌, arith, Bool-cases, inl, inr}
use java_script_os.Process.Table.{embryo, runnable, running}
use java_script_os.Process.Scheduler.{
  Switches, Pc, idle, scan, run, System, enter, skip, dispatch, yield, leave, ready, Step, entering,
  skipping, dispatching, yielding, leaving, readying, Reach, here, next, IsInitial,
}

abbrev pub run_of : Pc → Option ℕ
run_of (run i) = some i
run_of _ = none

pub record Inv (sw : Switches) (s : System) : Type 0 where
  pub holder : (c : ℕ) → (s.cpu c).pc ≢ idle → s.lock ≡ some c
  pub current : (c : ℕ) → (s.cpu c).proc ≡ run_of (s.cpu c).pc
  pub loaded : (c i : ℕ) → (s.cpu c).pc ≡ run i → (s.cpu c).space ≡ sw.switchuvm i
  pub runs : (c i : ℕ) → (s.cpu c).pc ≡ run i → s.state i ≡ running
  pub running_on : (i : ℕ) → s.state i ≡ running → (c : ℕ) × ((s.cpu c).pc ≡ run i)

IsInitial-Inv : (sw : Switches) {s : System} → IsInitial s → Inv sw s
IsInitial-Inv sw {s} h = record {
  holder = λ c p. ground (arith, h.cpus c);
  current = λ c. ground (arith, h.cpus c);
  loaded = λ c i p. ground (arith, h.cpus c);
  runs = λ c i p. ground (arith, h.cpus c);
  running_on = λ i p. absurd (h.stopped i p);
}

module _ {sw : Switches} {s : System} (v : Inv sw s) where
  enter-Inv : (c : ℕ) → (s.cpu c).pc ≡ idle → s.lock ≡ none → Inv sw (enter c s)
  unfolding enter
  enter-Inv c p l = record {
    holder = λ d q. ground (arith, v.holder d);
    current = λ d. ground (arith, v.current d, v.current c);
    loaded = λ d j q. ground (arith, v.loaded d j);
    runs = λ d i q. ground (arith, v.runs d i);
    running_on = λ i q. let (d, r) = v.running_on i q in (d, ground arith);
  }

  skip-Inv : (c i : ℕ) → (s.cpu c).pc ≡ scan i → Inv sw (skip c i s)
  unfolding skip
  skip-Inv c i p = record {
    holder = λ d q. ground (arith, v.holder d, v.holder c);
    current = λ d. ground (arith, v.current d, v.current c);
    loaded = λ d j q. ground (arith, v.loaded d j);
    runs = λ d j q. ground (arith, v.runs d j);
    running_on = λ j q. let (d, r) = v.running_on j q in (d, ground arith);
  }

  dispatch-Inv :
      (c i : ℕ) → (s.cpu c).pc ≡ scan i → s.state i ≡ runnable → Inv sw (dispatch sw c i s)
  unfolding dispatch
  dispatch-Inv c i p st = record {
    holder = λ d q. ground (arith, v.holder d, v.holder c);
    current = λ d. ground (arith, v.current d, v.current c);
    loaded = λ d j q. ground (arith, v.loaded d j);
    runs = λ d j q. ground (arith, v.runs d j);
    running_on = λ j q. elim (Bool-cases (j == i)) [
      | inl e ↦ (c, ground arith)
      | inr e ↦ let (d, r) = v.running_on j (ground arith) in (d, ground arith)
    ];
  }

  yield-Inv : (c i : ℕ) → (s.cpu c).pc ≡ run i → Inv sw (yield sw c i s)
  unfolding yield
  yield-Inv c i p = record {
    holder = λ d q. ground (arith, v.holder d, v.holder c);
    current = λ d. ground (arith, v.current d, v.current c);
    loaded = λ d j q. ground (arith, v.loaded d j);
    runs = λ d j q. ground (arith, v.runs d j, v.runs c i, v.holder d, v.holder c);
    running_on = λ j q.
        let (d, r) = v.running_on j (ground arith) in (d, ground (arith, v.holder d, v.holder c));
  }

  leave-Inv : (c i : ℕ) → (s.cpu c).pc ≡ scan i → Inv sw (leave c s)
  unfolding leave
  leave-Inv c i p = record {
    holder = λ d q. ground (arith, v.holder d, v.holder c);
    current = λ d. ground (arith, v.current d, v.current c);
    loaded = λ d j q. ground (arith, v.loaded d j);
    runs = λ d j q. ground (arith, v.runs d j);
    running_on = λ j q. let (d, r) = v.running_on j q in (d, ground arith);
  }

  ready-Inv : (i : ℕ) → s.state i ≡ embryo → Inv sw (ready i s)
  unfolding ready
  ready-Inv i st = record {
    holder = v.holder;
    current = v.current;
    loaded = v.loaded;
    runs = λ d j q. ground (arith, v.runs d j);
    running_on = λ j q. v.running_on j (ground arith);
  }

-- Every step of the scheduler keeps the invariant.
pub Step-Inv : {sw : Switches} {n : ℕ} {s t : System} → Step sw n s t → Inv sw s → Inv sw t
Step-Inv (entering c p l) v = enter-Inv v c p l
Step-Inv (skipping c i p lt st) v = skip-Inv v c i p
Step-Inv (dispatching c i p lt st) v = dispatch-Inv v c i p st
Step-Inv (yielding c i p) v = yield-Inv v c i p
Step-Inv {sw} {n} (leaving c p) v = leave-Inv v c n p
Step-Inv (readying i st) v = ready-Inv v i st

pub Reach-Inv : {sw : Switches} {n : ℕ} {s t : System} → IsInitial s → Reach sw n s t → Inv sw t
Reach-Inv {sw} h here = IsInitial-Inv sw h
Reach-Inv h (next r st) = Step-Inv st (Reach-Inv h r)

-- In every state reached from the start, at most one process is RUNNING: no process releases the
-- table's lock while it runs, whatever the undeclared `switchuvm` and `switchkvm` load.
pub one_running :
    {sw : Switches} {n : ℕ} {s t : System}
    → IsInitial s
    → Reach sw n s t
    → (i j : ℕ) → t.state i ≡ running
    → t.state j ≡ running
    → i ≡ j
one_running h r i j p q =
    let v = Reach-Inv h r in
    let (c, a) = v.running_on i p in
    let (d, b) = v.running_on j q in ground (arith, v.holder c, v.holder d)

-- In every state reached from the start, a RUNNING process is the `proc` of a CPU that holds the
-- table's lock, and the page tables loaded there are those that `switchuvm` of that process loads.
pub running_is_current :
    {sw : Switches} {n : ℕ} {s t : System}
    → IsInitial s
    → Reach sw n s t
    → (i : ℕ) → t.state i ≡ running
    → (c : ℕ) × (t.lock ≡ some c) × ((t.cpu c).proc ≡ some i) × ((t.cpu c).space ≡ sw.switchuvm i)
running_is_current h r i p =
    let v = Reach-Inv h r in
    let (c, a) = v.running_on i p in
    (c, ground (arith, v.holder c), ground (arith, v.current c), v.loaded c i a)
