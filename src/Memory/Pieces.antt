-- ===== src/Memory/Pieces.antt =====
-- Lemmas on texts that are put together and taken apart again.
use Prim.Native.String.append
use Prim.Native.String.compare
use Prim.Native.String.{◌++◌ as concat}
use Prim.Native.Char.{Char, code}
use text.Mathlib.TextLemmas.{append-nil as concat-nil, append_assoc as concat_assoc}
use soul_claw.Base.{
  ℕ, String, Bool, true, false, ◌≡◌, refl, inl, inr, sym, ap, ◌∙◌, subst, ◌&&◌, List, [], ◌∷◌,
  Option, none, some, All, arith, is_empty, ◌==◌, Bool-cases, is_space, rstrip_by, lstrip_by, strip,
  split, cut, behind,
}

same_code : (n : ℕ) → (n == n) ≡ true
same_code n = ground arith

behind-none : (c : Char) (o : Option (String × String)) → behind c o ≡ none → o ≡ none
behind-none c none h = refl
behind-none c (some (x, y)) h = ground arith

-- no `sep` in a text with a character in front: it is not that one, and there is none behind it
cut-none :
    (sep c : Char) (s : String)
    → cut sep (String.◌∷◌ c s) ≡ none
    → (code c == code sep ≡ false) × (cut sep s ≡ none)
unfolding cut
cut-none sep c s h = elim (Bool-cases (code c == code sep)) [
  | inl e ↦ let h' = rw e at h in ground arith
  | inr e ↦ (e, behind-none c (cut sep s) (rw e at h))
]

pub cut-piece :
    (sep : Char) (a b : String)
    → cut sep a ≡ none
    → cut sep (concat a (String.◌∷◌ sep b)) ≡ some (a, b)
unfolding cut
cut-piece sep String.[] b h = rw (append.nil (String.◌∷◌ sep b)) (rw (same_code (code sep)) refl)
cut-piece sep (String.◌∷◌ c a) b h =
    let (ne, h') = cut-none sep c a h in
    rw (append.cons c a (String.◌∷◌ sep b)) (rw ne (rw (cut-piece sep a b h') refl))

pub cut-append :
    (sep : Char) (a b : String) → cut sep a ≡ none → cut sep b ≡ none → cut sep (concat a b) ≡ none
unfolding cut
cut-append sep String.[] b h g = rw (append.nil b) g
cut-append sep (String.◌∷◌ c a) b h g =
    let (ne, h') = cut-none sep c a h in
    rw (append.cons c a b) (rw ne (rw (cut-append sep a b h' g) refl))

pub split-last : (sep : Char) (a : String) → cut sep a ≡ none → split sep a ≡ a ∷ []
unfolding split
split-last sep String.[] h = refl
split-last sep (String.◌∷◌ c a) h =
    let (ne, h') = cut-none sep c a h in rw ne (rw (split-last sep a h') refl)

pub split-piece :
    (sep : Char) (a b : String)
    → cut sep a ≡ none
    → split sep (concat a (String.◌∷◌ sep b)) ≡ a ∷ split sep b
unfolding split
split-piece sep String.[] b h = rw (append.nil (String.◌∷◌ sep b)) (rw (same_code (code sep)) refl)
split-piece sep (String.◌∷◌ c a) b h =
    let (ne, h') = cut-none sep c a h in
    rw (append.cons c a (String.◌∷◌ sep b)) (rw ne (rw (split-piece sep a b h') refl))

-- The parts with commas between them, and what comes behind them
abbrev pub joined : List String → String → String
joined [] end = end
joined (a ∷ []) end = concat a end
joined (a ∷ (b ∷ rest)) end = concat a (String.◌∷◌ "," (joined (b ∷ rest) end))

pub split-joined :
    (a : String) (rest : List String)
    → All (λ p. cut "," p ≡ none) (a ∷ rest)
    → split "," (joined (a ∷ rest) "") ≡ a ∷ rest
split-joined a [] h = rw (concat-nil a) (split-last "," a h.0)
split-joined a (b ∷ rest) h =
    split-piece "," a (joined (b ∷ rest) "") h.0 ∙ ap (λ l. a ∷ l) (split-joined b rest h.1)

joined-free :
    (a : String) (rest : List String)
    → All (λ p. cut ")" p ≡ none) (a ∷ rest)
    → cut ")" (joined (a ∷ rest) "") ≡ none
unfolding cut
joined-free a [] h = rw (concat-nil a) h.0
joined-free a (b ∷ rest) h =
    cut-append ")" a (String.◌∷◌ "," (joined (b ∷ rest) "")) h.0 (rw (joined-free b rest h.1) refl)

joined-append :
    (a : String) (rest : List String) (x : String)
    → concat (joined (a ∷ rest) "") x ≡ joined (a ∷ rest) x
joined-append a [] x = rw (concat-nil a) refl
joined-append a (b ∷ rest) x =
    concat_assoc a (String.◌∷◌ "," (joined (b ∷ rest) "")) x
    ∙ ap (concat a) (
        append.cons "," (joined (b ∷ rest) "") x
        ∙ ap (λ s. String.◌∷◌ "," s) (joined-append b rest x))

pub cut-joined :
    (a : String) (rest : List String) (x : String)
    → All (λ p. cut ")" p ≡ none) (a ∷ rest)
    → cut ")" (joined (a ∷ rest) (String.◌∷◌ ")" x)) ≡ some (joined (a ∷ rest) "", x)
cut-joined a rest x h =
    ap (cut ")") (sym (joined-append a rest (String.◌∷◌ ")" x)))
    ∙ cut-piece ")" (joined (a ∷ rest) "") x (joined-free a rest h)

pub is_empty-append : (a b : String) → is_empty b ≡ false → is_empty (concat a b) ≡ false
is_empty-append String.[] b h = rw (append.nil b) h
is_empty-append (String.◌∷◌ c a) b h =
    rw (append.cons c a b) (rw (compare.cons-nil c (concat a b)) refl)

-- A text that ends with no white space keeps its end behind any other.
pub rstrip-append :
    (p : Char → Bool) (a b : String)
    → rstrip_by p b ≡ b
    → is_empty b ≡ false
    → rstrip_by p (concat a b) ≡ concat a b
unfolding rstrip_by
rstrip-append p String.[] b h e = rw (append.nil b) h
rstrip-append p (String.◌∷◌ c a) b h e =
    rw (append.cons c a b) (rw (rstrip-append p a b h e) (rw (is_empty-append a b e) refl))

-- the parts of a list of pieces that begin with a comma
pub comma-piece :
    (w v x : String)
    → concat (String.◌∷◌ "," w) (concat v x) ≡ String.◌∷◌ "," (concat (concat w v) x)
comma-piece w v x =
    append.cons "," w (concat v x) ∙ ap (λ s. String.◌∷◌ "," s) (sym (concat_assoc w v x))

pub is_empty-cons : (c : Char) (s : String) → is_empty (String.◌∷◌ c s) ≡ false
is_empty-cons c s = rw (compare.cons-nil c s) refl

pub rstrip-cons :
    (p : Char → Bool) (c : Char) (s : String)
    → rstrip_by p s ≡ s
    → is_empty s ≡ false
    → rstrip_by p (String.◌∷◌ c s) ≡ String.◌∷◌ c s
unfolding rstrip_by
rstrip-cons p c s h e = rw h (rw e refl)

pub is_empty-joined :
    (a : String) (rest : List String) (x : String)
    → is_empty x ≡ false
    → is_empty (joined (a ∷ rest) x) ≡ false
is_empty-joined a [] x e = is_empty-append a x e
is_empty-joined a (b ∷ rest) x e = is_empty-append a _ (is_empty-cons "," (joined (b ∷ rest) x))

pub rstrip-joined :
    (p : Char → Bool) (a : String) (rest : List String) (x : String)
    → rstrip_by p x ≡ x
    → is_empty x ≡ false
    → rstrip_by p (joined (a ∷ rest) x) ≡ joined (a ∷ rest) x
rstrip-joined p a [] x h e = rstrip-append p a x h e
rstrip-joined p a (b ∷ rest) x h e =
    rstrip-append p a (String.◌∷◌ "," (joined (b ∷ rest) x))
      (rstrip-cons p "," (joined (b ∷ rest) x) (rstrip-joined p b rest x h e)
        (is_empty-joined b rest x e))
      (is_empty-cons "," (joined (b ∷ rest) x))

lstrip-lstrip : (p : Char → Bool) (s : String) → lstrip_by p (lstrip_by p s) ≡ lstrip_by p s
unfolding lstrip_by
lstrip-lstrip p String.[] = refl
lstrip-lstrip p (String.◌∷◌ c s) = elim (Bool-cases (p c)) [
  | inl e ↦ rw e (lstrip-lstrip p s)
  | inr e ↦ rw e (rw e refl)
]

rstrip-rstrip : (p : Char → Bool) (s : String) → rstrip_by p (rstrip_by p s) ≡ rstrip_by p s
unfolding rstrip_by
rstrip-rstrip p String.[] = refl
rstrip-rstrip p (String.◌∷◌ c s) = elim (Bool-cases (is_empty (rstrip_by p s) && p c)) [
  | inl e ↦ rw e refl
  | inr e ↦ rw e (rw (rstrip-rstrip p s) (rw e refl))
]

abbrev tail : String → String
tail String.[] = ""
tail (String.◌∷◌ c s) = s

-- a text that ends with no white space has an end behind its first character
rstrip-tail :
    (p : Char → Bool) (c : Char) (s : String)
    → rstrip_by p (String.◌∷◌ c s) ≡ String.◌∷◌ c s
    → rstrip_by p s ≡ s
unfolding rstrip_by
rstrip-tail p c s h = elim (Bool-cases (is_empty (rstrip_by p s) && p c)) [
  | inl e ↦ let empty : "" ≡ s = ap tail (rw e at h) in subst (λ t. rstrip_by p t ≡ t) empty refl
  | inr e ↦ ap tail (rw e at h)
]

rstrip-lstrip :
    (p : Char → Bool) (s : String) → rstrip_by p s ≡ s → rstrip_by p (lstrip_by p s) ≡ lstrip_by p s
unfolding lstrip_by
rstrip-lstrip p String.[] h = h
rstrip-lstrip p (String.◌∷◌ c s) h = elim (Bool-cases (p c)) [
  | inl e ↦ rw e (rstrip-lstrip p s (rstrip-tail p c s h))
  | inr e ↦ rw e h
]

pub lstrip-strip : (s : String) → lstrip_by is_space (strip s) ≡ strip s
unfolding strip
lstrip-strip s = lstrip-lstrip is_space (rstrip_by is_space s)

pub rstrip-strip : (s : String) → rstrip_by is_space (strip s) ≡ strip s
unfolding strip
rstrip-strip s = rstrip-lstrip is_space (rstrip_by is_space s) (rstrip-rstrip is_space s)

pub strip-strip : (s : String) → strip (strip s) ≡ strip s
unfolding strip
strip-strip s = rw (rstrip-strip s) (lstrip-strip s)
