-- ===== src/Process/Syscall/Laws.antt =====
-- Numbers, the table and the dispatcher agree.
use java_script_os.Base.{
  ◌∙◌, ◌+◌, ℕ, zero, suc, ◌-◌, ◌^◌, ◌≤◌, ◌<◌, ◌≡◌, ◌⊎◌, inl, inr, dec_lt, refl, none, some, List,
  [], ◌∷◌, get_elem?, arith, length,
}
use java_script_os.Process.Trap.{TrapFrame}
use java_script_os.Process.Syscall.{Name, number, syscalls, sign_extend, syscall_dispatch}

-- The entry of the table at the number of a call is that call.
pub number-entry : (f : Name) → get_elem? syscalls (number f) ≡ some f
unfolding number
number-entry f = ground arith

get_elem?-length {ℓ} : {A : Type ℓ} (xs : List A) (n : ℕ) → length xs ≤ n → get_elem? xs n ≡ none
get_elem?-length [] n h = refl
get_elem?-length (x ∷ xs) zero h = absurd (omega arith)
get_elem?-length (x ∷ xs) (suc n) h = get_elem?-length xs n (omega arith)

-- The calls of a list have the numbers from `k` on.
abbrev Numbered : ℕ → List Name → Type 0
Numbered k [] = Unit {0}
Numbered k (f ∷ fs) = (k ≡ number f) × Numbered (k + 1) fs

entry_of :
    (k n : ℕ) (fs : List Name) → Numbered k fs → n < length fs → (f : Name) × (k + n ≡ number f)
entry_of k n [] all h = absurd (omega arith)
entry_of k zero (f ∷ fs) (e, all) h = let same : k + zero ≡ k = omega arith in (f, same ∙ e)
entry_of k (suc n) (f ∷ fs) (e, all) h =
    let (g, e') = entry_of (k + 1) n fs all (omega arith) in
    let same : k + suc n ≡ k + 1 + n = omega arith in (g, same ∙ e')

-- the call with a number
call_of : (n : ℕ) → n < 21 → (f : Name) × (n ≡ number f)
unfolding number
call_of n h =
    let (f, e) =
      entry_of 0 n syscalls
        (
          refl,
          (
            refl,
            (
              refl,
              (
                refl,
                (
                  refl,
                  (
                    refl,
                    (
                      refl,
                      (
                        refl,
                        (
                          refl,
                          (
                            refl,
                            (
                              refl,
                              (
                                refl,
                                (
                                  refl,
                                  (
                                    refl,
                                    (refl, (refl, (refl, (refl, (refl, (refl, (refl, tt))))))),
                                  ),
                                ),
                              ),
                            ),
                          ),
                        ),
                      ),
                    ),
                  ),
                ),
              ),
            ),
          ),
        )
        h in
    let same : n ≡ 0 + n = omega arith in (f, same ∙ e)

module _ {S : Type 0} (sys : Name → S → TrapFrame → S × TrapFrame × ℕ) where
  syscall_dispatch-known :
      (s : S) (tf : TrapFrame) (f : Name)
      → tf.rsi ≡ number f
      → let (s', tf', r) = sys f s tf in
        syscall_dispatch sys s tf ≡ (s', record tf' { rax = sign_extend r })
  unfolding syscall_dispatch
  syscall_dispatch-known s tf f h = ground (arith, number-entry f)

  syscall_dispatch-unknown :
      (s : S) (tf : TrapFrame)
      → 21 ≤ tf.rsi
      → syscall_dispatch sys s tf ≡ (s, record tf { rax = 2 ^ 64 - 1 })
  unfolding syscall_dispatch
  syscall_dispatch-unknown s tf h = rw (get_elem?-length syscalls tf.rsi h)

  -- A call is made exactly for the 21 numbers of the enumeration: a frame with the number of a call in
  -- `rsi` runs that call once, on the state and the frame as they were, and then gets its result,
  -- sign-extended, in `rax` of the frame that the call has left; with any number from 21 on, nothing
  -- runs, and the frame gets -1 in `rax`.
  pub syscall_dispatch-number :
      (s : S) (tf : TrapFrame)
      → ((f : Name) × (tf.rsi ≡ number f)
          × (syscall_dispatch sys s tf
              ≡ ((sys f s tf).0, record ((sys f s tf).1) { rax = sign_extend (sys f s tf).2 })))
        ⊎ ((21 ≤ tf.rsi) × (syscall_dispatch sys s tf ≡ (s, record tf { rax = 2 ^ 64 - 1 })))
  syscall_dispatch-number s tf = elim (dec_lt tf.rsi 21) [
    | yes lt ↦ let (f, e) = call_of tf.rsi lt in inl (f, e, syscall_dispatch-known s tf f e)
    | no ge ↦ let past : 21 ≤ tf.rsi = omega arith in inr (past, syscall_dispatch-unknown s tf past)
  ]
