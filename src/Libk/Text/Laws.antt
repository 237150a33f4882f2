-- ===== src/Libk/Text/Laws.antt =====
-- What `strncpy` writes.
use java_script_os.Base.{
  ℕ, zero, suc, ◌+◌, ◌<◌, ◌≤◌, ◌≡◌, ◌⊎◌, some, List, [], ◌∷◌, min, refl, arith, get_elem?, ◌∙◌, ap,
}
use java_script_os.Libk.Text.{put, strlen, strncpy_from, strncpy}

-- The result, the characters, the terminator if there is room for it, and the rest of memory.
pub record Copied (dst i : ℕ) (src : List ℕ) (n : ℕ) (mem : ℕ → ℕ) (out : (ℕ → ℕ) × ℕ)
    : Type 0 where
  pub count : out.1 ≡ i + min (strlen src) n
  pub text : (j c : ℕ) → j < n → get_elem? src j ≡ some c → out.0 (dst + i + j) ≡ c
  pub terminated : strlen src < n → out.0 (dst + i + strlen src) ≡ 0
  pub outside : (q : ℕ) → (q < dst + i) ⊎ (dst + i + n ≤ q) → out.0 q ≡ mem q

-- One character more in front.
text_cons :
    (dst x : ℕ) (s : List ℕ) (n i : ℕ) (mem : ℕ → ℕ) (out : (ℕ → ℕ) × ℕ)
    → Copied dst (i + 1) s n (put mem (dst + i) x) out
    → (j c : ℕ) → j < suc n
    → get_elem? (x ∷ s) j ≡ some c
    → out.0 (dst + i + j) ≡ c
text_cons dst x s n i mem out r zero c lt e = ground (arith, r.outside (dst + i + 0))
text_cons dst x s n i mem out r (suc j) c lt e = ap out.0 (omega arith) ∙ r.text j c (omega arith) e

strncpy_from-Copied :
    (dst : ℕ) (src : List ℕ) (n i : ℕ) (mem : ℕ → ℕ)
    → Copied dst i src n mem (strncpy_from dst src n i mem)
unfolding strncpy_from strlen
strncpy_from-Copied dst src zero i mem = record {
  count = ground arith;
  text = λ j c lt e. absurd (omega arith);
  terminated = λ lt. absurd (omega arith);
  outside = λ q h. refl;
}
strncpy_from-Copied dst [] (suc n) i mem = record {
  count = omega arith;
  text = λ j c lt e. cc;
  terminated = λ lt. ground arith;
  outside = λ q h. ground arith;
}
strncpy_from-Copied dst (x ∷ s) (suc n) i mem =
    let r = strncpy_from-Copied dst s n (i + 1) (put mem (dst + i) x) in
    record {
      count = omega (arith, r.count);
      text = text_cons dst x s n i mem _ r;
      terminated = λ lt.
          ap (strncpy_from dst s n (i + 1) (put mem (dst + i) x)).0 (omega arith)
          ∙ r.terminated (omega arith);
      outside = λ q h. ground (arith, r.outside q);
    }

-- `strncpy` into room for `n` characters copies the string as far as it fits, character by character,
-- ends it with a terminator exactly where it ends if there is room left, writes nothing outside the
-- room, and returns how many characters it copied.
pub strncpy-Copied :
    (dst : ℕ) (src : List ℕ) (n : ℕ) (mem : ℕ → ℕ) → Copied dst 0 src n mem (strncpy dst src n mem)
unfolding strncpy
strncpy-Copied dst src n mem = strncpy_from-Copied dst src n 0 mem
