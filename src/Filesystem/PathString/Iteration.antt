-- ===== src/Filesystem/PathString/Iteration.antt =====
-- The iteration over a path, part by part.
use java_script_os.Base.{
  ℕ, zero, suc, ◌<◌, ◌≡◌, Bool, true, false, Option, none, some, List, [], ◌∷◌, ◌++◌, ◌==◌,
  if◌then◌else◌, length, replicate, get_elem?, refl, arith, subst, sym, ap, ◌∙◌, ◌>>=◌,
}
use java_script_os.Libk.Text.{strchr}
use java_script_os.Filesystem.PathString.{
  slash, drop, skip_slashes, pointer_at, Iterator, extract_part, extract_next, advance, iterator,
  begin,
}
use java_script_os.Filesystem.PathString.Laws.{
  lacks, strchr-lacks, skip_slashes-replicate, skip_slashes-lacks, strchr-append, drop-append,
  AtPart, extract_part-AtPart,
}

-- parts of a path, each with the number of slashes behind its first one
abbrev pub Parts : Type 0
Parts = List (List ℕ × ℕ)

-- the parts with their slashes, and what stands behind the last slash
abbrev pub joined : Parts → List ℕ → List ℕ
joined [] last = last
joined ((w, k) ∷ ps) last = w ++ slash ∷ (replicate k slash ++ joined ps last)

-- Each part has characters, and no slash.
abbrev pub ArePlain : Parts → Type 0
ArePlain [] = Unit {0}
ArePlain ((w, k) ∷ ps) = (lacks slash w ≡ true) × (0 < length w) × ArePlain ps

-- `operator++`, `n` times
abbrev pub advance_times : ℕ → Option Iterator → Option Iterator
advance_times zero it = it
advance_times (suc n) it = advance_times n (it >>= advance)

advance_times-none : (n : ℕ) → advance_times n none ≡ none
advance_times-none zero = refl
advance_times-none (suc n) = advance_times-none n

skip_slashes_again : (s : List ℕ) → skip_slashes (skip_slashes s) ≡ skip_slashes s
unfolding skip_slashes
skip_slashes_again [] = refl
skip_slashes_again (c ∷ s) = ground (arith, skip_slashes_again s)

no_slash : (s : List ℕ) → lacks slash s ≡ true → strchr (skip_slashes s) slash ≡ none
unfolding skip_slashes
no_slash [] h = strchr-lacks [] slash h
no_slash (x ∷ s) h =
    let e : (x == slash) ≡ false = ground arith in
    ap (λ (b : Bool). strchr (if b then skip_slashes s else x ∷ s) slash) e
    ∙ strchr-lacks (x ∷ s) slash h

-- The iterator stands in front of the parts, perhaps behind slashes, in a path whose end was not
-- found.
abbrev pub Before : Parts → List ℕ → Iterator → Type 0
Before ps last it = (skip_slashes it.pos ≡ skip_slashes (joined ps last)) × (it.pathend ≡ none)

advance-part :
    (it : Iterator) (w : List ℕ) (k : ℕ) (ps : Parts) (last : List ℕ)
    → Before ((w, k) ∷ ps) last it
    → lacks slash w ≡ true
    → 0 < length w
    → advance it
      ≡ extract_part (w ++ slash ∷ (replicate k slash ++ joined ps last)) (some (length w)) it
unfolding advance extract_next
advance-part it w k ps last (p, e) h lt =
    let rest = replicate k slash ++ joined ps last in
    let start = p ∙ skip_slashes-lacks w (slash ∷ rest) h lt in
    rw (e, start, strchr-append w rest h)

-- Behind a part the iterator stands in front of those that follow.
extract_part-Before :
    (it : Iterator) (w : List ℕ) (k : ℕ) (ps : Parts) (last : List ℕ)
    → it.pathend ≡ none
    → (it' : Iterator) × (extract_part
          (w ++ slash ∷ (replicate k slash ++ joined ps last))
          (some (length w))
          it
        ≡ some it')
      × Before ps last it'
unfolding extract_part
extract_part-Before it w k ps last e = (
  _,
  refl,
  (
    skip_slashes_again (drop (length w) (w ++ slash ∷ (replicate k slash ++ joined ps last)))
        ∙ ap skip_slashes (drop-append w (slash ∷ (replicate k slash ++ joined ps last)))
        ∙ skip_slashes-replicate (suc k) (joined ps last),
    e,
  ),
)

-- No part is left, and the search for a slash returns null.
advance-end :
    (it : Iterator) (last : List ℕ)
    → Before [] last it
    → lacks slash last ≡ true
    → advance it ≡ none
unfolding advance extract_next extract_part
advance-end it last (p, e) h = rw (e, p, no_slash last h)

advance_times-parts :
    (ps : Parts) (last : List ℕ) (it : Iterator)
    → Before ps last it
    → ArePlain ps
    → lacks slash last ≡ true
    → advance_times (suc (length ps)) (some it) ≡ none
advance_times-parts [] last it b plain out = advance-end it last b out
advance_times-parts ((w, k) ∷ ps) last it b (h, lt, plain) out =
    let (it', e, b') = extract_part-Before it w k ps last b.1 in
    ap (advance_times (suc (length ps))) (advance-part it w k ps last b h lt ∙ e)
    ∙ advance_times-parts ps last it' b' plain out

advance_times-AtPart :
    (ps : Parts) (last : List ℕ) (it : Iterator) (n k : ℕ) (w : List ℕ)
    → Before ps last it
    → ArePlain ps
    → get_elem? ps n ≡ some (w, k)
    → (rest : List ℕ) × AtPart w rest (advance_times (suc n) (some it))
advance_times-AtPart [] last it n k w b plain h = cc
advance_times-AtPart ((x, j) ∷ ps) last it zero k w b (l, lt, plain) h = (
  replicate j slash ++ joined ps last,
  subst (λ (y : List ℕ). AtPart y (replicate j slash ++ joined ps last) (advance it)) (same h)
      (subst (AtPart x (replicate j slash ++ joined ps last))
        (sym (advance-part it x j ps last b l lt))
        (extract_part-AtPart x (replicate j slash ++ joined ps last) it)),
)
  where
    same : {y z : List ℕ × ℕ} → some y ≡ some z → y.0 ≡ z.0
    same e = cc
advance_times-AtPart ((x, j) ∷ ps) last it (suc n) k w b (l, lt, plain) h =
    let (it', e, b') = extract_part-Before it x j ps last b.1 in
    let (rest, a) = advance_times-AtPart ps last it' n k w b' plain h in
    (
      rest,
      subst (AtPart w rest)
          (sym (ap (advance_times (suc n)) (advance-part it x j ps last b l lt ∙ e))) a,
    )

-- In a path of parts that each have slashes behind them, with any number of slashes in front and
-- perhaps a last part with no slash behind it, the iterator after `begin` and `n` times `++` holds
-- part `n`, all of it or its first 127 characters. But the step past those parts reads through the
-- null pointer: a last part with no slash is never held, and the end is never found.
pub begin-parts :
    (front : ℕ) (ps : Parts) (last : List ℕ) (part : ℕ → ℕ) (n k : ℕ) (w : List ℕ)
    → lacks 0 (replicate front slash ++ joined ps last) ≡ true
    → ArePlain ps
    → lacks slash last ≡ true
    → get_elem? ps n ≡ some (w, k)
    → ((rest : List ℕ) × AtPart w rest
          (advance_times n (begin (replicate front slash ++ joined ps last) part)))
      × (advance_times (length ps) (begin (replicate front slash ++ joined ps last) part) ≡ none)
unfolding begin iterator
begin-parts front ps last part n k w text plain out h =
    let path = replicate front slash ++ joined ps last in
    let it : Iterator = record {
      pos = path;
      pathend = pointer_at path (strchr path 0);
      part = part;
    } in
    let b : Before ps last it = (
      skip_slashes-replicate front (joined ps last),
      ap (pointer_at path) (strchr-lacks path 0 text),
    ) in
    (advance_times-AtPart ps last it n k w b plain h, advance_times-parts ps last it b plain out)
