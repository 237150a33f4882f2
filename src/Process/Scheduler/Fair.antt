-- ===== src/Process/Scheduler/Fair.antt =====
-- A CPU's loop does not pass a RUNNABLE process over.
use java_script_os.Base.{
  ℕ, zero, suc, ◌+◌, ◌≤◌, ◌<◌, ◌≡◌, ◌≢◌, refl, arith, inl, inr, ◌⊎◌, ◌-◌, ℕ_discrete, sym, ap, ◌∙◌,
}
use java_script_os.Process.Table.{ProcState, embryo, sleeping, runnable, running, unused, zombie}
use java_script_os.Process.Scheduler.{
  idle, scan, run, Pc, Cpu, System, Switches, update, enter, skip, dispatch, yield, leave, ready,
  Step, entering, leaving, readying, skipping, dispatching, yielding, Reach, here, next,
}

Reach-trans :
    {sw : Switches} {n : ℕ} {s t u : System} → Reach sw n s t → Reach sw n t u → Reach sw n s u
Reach-trans a here = a
Reach-trans a (next b st) = next (Reach-trans a b) st

runnable-cases : (p : ProcState) → (p ≡ runnable) ⊎ (p ≢ runnable)
runnable-cases runnable = inl refl
runnable-cases unused = inr (λ e. cc)
runnable-cases embryo = inr (λ e. cc)
runnable-cases sleeping = inr (λ e. cc)
runnable-cases running = inr (λ e. cc)
runnable-cases zombie = inr (λ e. cc)

-- CPU `c` gets past slot `i`, and leaves a RUNNABLE slot `j` further on RUNNABLE.
record Passed (sw : Switches) (n c i j : ℕ) (s : System) : Type 0 where
  after : System
  path : Reach sw n s after
  at : (after.cpu c).pc ≡ scan (i + 1)
  kept : after.state j ≡ runnable

pass :
    (sw : Switches) (n c i j : ℕ) (s : System)
    → (s.cpu c).pc ≡ scan i
    → i < j
    → j < n
    → s.state j ≡ runnable
    → Passed sw n c i j s
unfolding skip dispatch yield
pass sw n c i j s p lt lt' st = elim (runnable-cases (s.state i)) [
  | inl r ↦ record {
    after = yield sw c i (dispatch sw c i s);
    path = next (next here (dispatching c i p (omega arith) r)) (yielding c i (ground arith));
    at = ground arith;
    kept = ground arith;
  }
  | inr r ↦ record {
    after = skip c i s;
    path = next here (skipping c i p (omega arith) r);
    at = ground arith;
    kept = st;
  }
]

scan_reaches :
    (sw : Switches) (n c d i j : ℕ) (s : System)
    → (s.cpu c).pc ≡ scan i
    → i + d ≡ j
    → j < n
    → s.state j ≡ runnable
    → (t : System) × Reach sw n s t × ((t.cpu c).pc ≡ run j)
unfolding dispatch
scan_reaches sw n c zero i j s p e lt st =
    let e' : i ≡ j = omega arith in
    (dispatch sw c j s, next here (dispatching c j (rw (← e') p) lt st), ground arith)
scan_reaches sw n c (suc d) i j s p e lt st =
    let past = pass sw n c i j s p (omega arith) lt st in
    let (t, path, at) =
      scan_reaches sw n c d (i + 1) j past.after past.at (omega arith) lt past.kept in
    (t, Reach-trans past.path path, at)

-- A step of any CPU leaves the loop of CPU `c` at its slot, or makes the process there run, or moves
-- the loop on from a slot before `j`.
abbrev pub Moved : (c i j : ℕ) → System → Type 0
Moved c i j u =
    ((u.cpu c).pc ≡ scan i) ⊎ (((u.cpu c).pc ≡ run i) ⊎ (((u.cpu c).pc ≡ scan (i + 1)) × (i < j)))

slot_of : Pc → ℕ
slot_of (scan i) = i
slot_of (run i) = i
slot_of idle = 0

-- the same CPU, by its place
same_place : (s : System) (c d : ℕ) (a b : Pc) → c ≡ d → (s.cpu c).pc ≡ a → (s.cpu d).pc ≡ b → a ≡ b
same_place s c d a b e p q = sym p ∙ ap (λ (x : ℕ). (s.cpu x).pc) e ∙ q

scan_inj : (i k : ℕ) → scan i ≡ scan k → i ≡ k
unfolding slot_of
scan_inj i k e = ap slot_of e

update_self : {A : Type 0} (f : ℕ → A) (c d : ℕ) (x : A) → c ≡ d → update f d x c ≡ x
update_self f c d x e = ground arith

Step-Moved :
    (sw : Switches) (n c i j : ℕ) (s u : System)
    → (s.cpu c).pc ≡ scan i
    → i ≤ j
    → j < n
    → s.state j ≡ runnable
    → Step sw n s u
    → Moved c i j u
unfolding enter skip dispatch yield leave ready
Step-Moved sw n c i j s _ p le lt st (entering d q l) = elim (ℕ_discrete c d) [
  | yes e ↦ absurd (let z = same_place s c d (scan i) (idle) e p q in cc)
  | no ne ↦ inl (ground arith)
]
Step-Moved sw n c i j s _ p le lt st (skipping d k q l ne) = elim (ℕ_discrete c d) [
  | yes e ↦
      let z : i ≡ k = scan_inj i k (same_place s c d (scan i) (scan k) e p q) in
      let before : i < j = elim (ℕ_discrete i j) [
        | yes eq ↦ absurd (ne (ap s.state (sym z ∙ eq) ∙ st))
        | no other ↦ omega arith
      ] in
      inr (
        inr (
          ap (λ (x : Cpu). x.pc) (update_self s.cpu c d _ e) ∙ ap (λ (x : ℕ). scan (x + 1)) (sym z),
          before,
        ))
  | no ne ↦ inl (ground arith)
]
Step-Moved sw n c i j s _ p le lt st (dispatching d k q l r) = elim (ℕ_discrete c d) [
  | yes e ↦
      let z : i ≡ k = scan_inj i k (same_place s c d (scan i) (scan k) e p q) in
      inr (inl (ap (λ (x : Cpu). x.pc) (update_self s.cpu c d _ e) ∙ ap run (sym z)))
  | no ne ↦ inl (ground arith)
]
Step-Moved sw n c i j s _ p le lt st (yielding d k q) = elim (ℕ_discrete c d) [
  | yes e ↦ absurd (let z = same_place s c d (scan i) (run k) e p q in cc)
  | no ne ↦ inl (ground arith)
]
Step-Moved sw n c i j s _ p le lt st (leaving d q) = elim (ℕ_discrete c d) [
  | yes e ↦ absurd (let z = scan_inj i n (same_place s c d (scan i) (scan n) e p q) in omega arith)
  | no ne ↦ inl (ground arith)
]
Step-Moved sw n c i j s _ p le lt st (readying k q) = inl p

-- A RUNNABLE process in a slot that the loop of a CPU has not passed yet can be brought to run on
-- that CPU, whatever is in the slots before it. And no step of any CPU moves the loop past that
-- process: a step leaves the loop at its slot, or makes the process there run, or moves the loop to
-- the next slot when it is still before the one of the process.
pub runnable_is_reached :
    (sw : Switches) (n c i j : ℕ) (s u : System)
    → (s.cpu c).pc ≡ scan i
    → i ≤ j
    → j < n
    → s.state j ≡ runnable
    → Step sw n s u
    → ((t : System) × Reach sw n s t × ((t.cpu c).pc ≡ run j)) × Moved c i j u
runnable_is_reached sw n c i j s u p le lt st step = (
  scan_reaches sw n c (j - i) i j s p (omega arith) lt st,
  Step-Moved sw n c i j s u p le lt st step,
)
