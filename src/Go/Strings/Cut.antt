-- ===== src/Go/Strings/Cut.antt =====
-- `strings.IndexByte`: what a cut at a byte finds.
use maga.Base.{
  ℕ, ◌<◌, ◌≡◌, ◌≢◌, refl, ap, arith, [], ◌∷◌, ◌++◌, none, some, Str, length, ◌==◌, All, Bool-cases,
  inl, inr, ◌⊎◌, length-append,
}
use maga.Go.Strings.{cut_at}

-- The code point does not occur.
abbrev pub Lacks : ℕ → Str → Type 0
Lacks c = All (λ d. d ≢ c)

-- What `IndexByte` finds: no such byte, or the text before the first one and the text behind it.
pub cut_at-cases :
    (c : ℕ) (s : Str)
    → ((cut_at c s ≡ none) × Lacks c s)
      ⊎ ((b : Str) × (a : Str) × (cut_at c s ≡ some (b, a)) × (s ≡ b ++ c ∷ a) × Lacks c b)
unfolding cut_at
cut_at-cases c [] = inl (refl, tt)
cut_at-cases c (d ∷ s) = elim (Bool-cases (d == c)) [
  | inl hit ↦ let e : d ≡ c = ground arith in inr ([], s, rw hit, ap (λ x. x ∷ s) e, tt)
  | inr miss ↦
      let ne : d ≢ c = ground arith in
      elim (cut_at-cases c s) [
        | inl (e, l) ↦ inl (rw (miss, e), (ne, l))
        | inr (b, a, e, split, l) ↦ inr (d ∷ b, a, rw (miss, e), ap (λ r. d ∷ r) split, (ne, l))
      ]
]

-- Behind the byte there is less text.
pub behind_lt : (c : ℕ) (s b a : Str) → s ≡ b ++ c ∷ a → length a < length s
behind_lt c s b a e = omega (arith, ap length e, length-append {0} b (c ∷ a))

pub cut_at-append : (c : ℕ) (b a : Str) → Lacks c b → cut_at c (b ++ c ∷ a) ≡ some (b, a)
unfolding cut_at
cut_at-append c [] a h = ground arith
cut_at-append c (d ∷ b) a h = ground (arith, cut_at-append c b a h.1)

pub cut_at-none : (c : ℕ) (s : Str) → Lacks c s → cut_at c s ≡ none
unfolding cut_at
cut_at-none c [] h = refl
cut_at-none c (d ∷ s) h = ground (arith, cut_at-none c s h.1)

-- A prefix that lacks the byte moves the cut.
pub cut_at-prefix :
    (c : ℕ) (t s b a : Str)
    → Lacks c t
    → cut_at c s ≡ some (b, a)
    → cut_at c (t ++ s) ≡ some (t ++ b, a)
unfolding cut_at
cut_at-prefix c [] s b a l h = h
cut_at-prefix c (d ∷ t) s b a l h = ground (arith, cut_at-prefix c t s b a l.1 h)
