-- ===== src/Filesystem/PathString/Laws.antt =====
-- The parts that the iterator over a path finds, and the paths that it does not stop on.
use java_script_os.Base.{
  ℕ, zero, suc, ◌-◌, ◌<◌, ◌≡◌, Bool, true, ◌&&◌, not, Option, none, some, List, [], ◌∷◌, ◌++◌, ◌==◌,
  leb, if◌then◌else◌, length, replicate, get_elem?, get_elem?-lt, min, refl, arith, ap, ◌∙◌,
}
use java_script_os.Libk.Text.{put, strncpy, strchr}
use java_script_os.Libk.Text.Laws.{strncpy-Copied}
use java_script_os.Filesystem.PathString.{
  slash, drop, skip_slashes, Iterator, extract_part, end, part_size,
}

-- no character of the list is `c`
abbrev pub lacks : ℕ → List ℕ → Bool
lacks c [] = true
lacks c (x ∷ s) = not (x == c) && lacks c s

pub strchr-lacks : (s : List ℕ) (c : ℕ) → lacks c s ≡ true → strchr s c ≡ none
unfolding strchr
strchr-lacks [] c h = refl
strchr-lacks (x ∷ s) c h = ground (arith, strchr-lacks s c)

-- A string holds no terminator, so the search for one returns null.
-- `end()` of a path reads through the null pointer, whatever the path.
pub end-undefined : (str : List ℕ) (part : ℕ → ℕ) → lacks 0 str ≡ true → end str part ≡ none
unfolding end
end-undefined str part h = rw (strchr-lacks str 0 h)

pub skip_slashes-replicate :
    (k : ℕ) (s : List ℕ) → skip_slashes (replicate k slash ++ s) ≡ skip_slashes s
unfolding skip_slashes
skip_slashes-replicate zero s = refl
skip_slashes-replicate (suc k) s = skip_slashes-replicate k s

pub skip_slashes-lacks :
    (s t : List ℕ) → lacks slash s ≡ true → 0 < length s → skip_slashes (s ++ t) ≡ s ++ t
unfolding skip_slashes
skip_slashes-lacks [] t h lt = absurd (omega arith)
skip_slashes-lacks (x ∷ s) t h lt = ground arith

pub strchr-append :
    (s t : List ℕ) → lacks slash s ≡ true → strchr (s ++ slash ∷ t) slash ≡ some (length s)
unfolding strchr
strchr-append [] t h = refl
strchr-append (x ∷ s) t h = ground (arith, strchr-append s t)

pub drop-append : (s t : List ℕ) → drop (length s) (s ++ t) ≡ t
drop-append [] t = refl
drop-append (x ∷ s) t = drop-append s t

-- what an iterator holds behind a part `w` of a path: at most 127 of its characters, ended by a
-- terminator, and the position of the next part
pub record AtPart (w rest : List ℕ) (result : Option Iterator) : Type 0 where
  pub it : Iterator
  pub returns : result ≡ some it
  pub text : (j c : ℕ) → j < 127 → get_elem? w j ≡ some c → it.part j ≡ c
  pub terminated : it.part (min (length w) 127) ≡ 0
  pub next_pos : it.pos ≡ skip_slashes rest

get_elem?-append : (s t : List ℕ) (j c : ℕ) → get_elem? s j ≡ some c → get_elem? (s ++ t) j ≡ some c
get_elem?-append [] t j c h = cc
get_elem?-append (x ∷ s) t zero c h = h
get_elem?-append (x ∷ s) t (suc j) c h = get_elem?-append s t j c h

part_text :
    (w t : List ℕ) (len j c : ℕ) (part : ℕ → ℕ)
    → len ≡ min (length w) 127
    → j < 127
    → get_elem? w j ≡ some c
    → put (strncpy 0 (w ++ t) len part).0 len 0 j ≡ c
part_text w t len j c part e lt h =
    let inside : j < len = omega (arith, get_elem?-lt w j c h) in
    let copied =
      (strncpy-Copied 0 (w ++ t) len part).text j c inside (get_elem?-append w t j c h) in
    ground (arith, copied)

length_cut : (n : ℕ) → (if leb part_size n then part_size - 1 else n) ≡ min n 127
length_cut n = ground arith

part_end : (f : ℕ → ℕ) (len m : ℕ) → len ≡ m → put f len 0 m ≡ 0
part_end f len m e = ground arith

pub extract_part-AtPart :
    (w rest : List ℕ) (it : Iterator)
    → AtPart w rest (extract_part (w ++ slash ∷ rest) (some (length w)) it)
unfolding extract_part
extract_part-AtPart w rest it = record {
  it = _;
  returns = refl;
  text = λ j c. part_text w (slash ∷ rest) _ j c it.part (length_cut (length w));
  terminated =
      part_end
        (strncpy 0 (w ++ slash ∷ rest)
          (if leb part_size (length w) then part_size - 1 else length w) it.part).0
        _ _ (length_cut (length w));
  next_pos = ap skip_slashes (drop-append w (slash ∷ rest)) ∙ skip_slashes-replicate 1 rest;
}
