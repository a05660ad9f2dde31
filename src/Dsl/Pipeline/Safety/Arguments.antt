-- ===== src/Dsl/Pipeline/Safety/Arguments.antt =====
-- internal/dsl/ops.go: what the readers of arguments do on arguments of the right kinds.
use maga.Base.{
  ℕ, zero, suc, ◌<◌, ◌≤◌, ◌≡◌, refl, arith, ℤ, pos, ltb_ℤ, ◌||◌, Bool, true, false, List, [], ◌∷◌,
  Option, none, some, Str, length, get_elem?, is_some, if◌then◌else◌, Result, ok, err, ◌>>=◌,
}
use maga.Dsl.Types.{Arg, OpError}
use maga.Dsl.Ops.Args.{arg_string, arg_int, rune_range}
use maga.Dsl.Ops.Pad.{nonempty_pad, pad}
use maga.Dsl.Pipeline.Typing.{Kind, text, integer, fits, all_fit, is_value_error}

-- A value, or an error that depends on values.
abbrev pub IsSafe : {A : Type 0} → Result OpError A → Type 0
IsSafe (ok a) = Unit
IsSafe (err e) = is_value_error e ≡ true

pub IsSafe-bind :
    {A B : Type 0} (r : Result OpError A) (f : A → Result OpError B)
    → IsSafe r
    → ((a : A) → IsSafe (f a))
    → IsSafe (r >>= f)
IsSafe-bind (ok a) f h k = k a
IsSafe-bind (err e) f h k = h

pub IsSafe-if :
    {A : Type 0} (b : Bool) (e : OpError) (a : A)
    → is_value_error e ≡ true
    → IsSafe (if b then err e else ok a)
IsSafe-if true e a h = h
IsSafe-if false e a h = tt

fit_at :
    (ks : List Kind) (args : List Arg) (i : ℕ) {k : Kind}
    → all_fit ks args ≡ true
    → get_elem? ks i ≡ some k
    → i < length args
    → (a : Arg) × (get_elem? args i ≡ some a) × (fits k a ≡ true)
unfolding all_fit
fit_at ks [] i h e n = ground arith
fit_at [] (a ∷ as') i h e n = cc
fit_at (c ∷ ks) (a ∷ as') zero h e n = (a, refl, ground arith)
fit_at (c ∷ ks) (a ∷ as') (suc i) h e n = fit_at ks as' i (ground arith) e (omega (arith, n))

pub some_of : {A : Type 0} (o : Option A) → is_some o ≡ true → (a : A) × (o ≡ some a)
some_of none h = cc
some_of (some a) h = (a, refl)

pub arg_string-IsSafe :
    (ks : List Kind) (args : List Arg) (i : ℕ)
    → all_fit ks args ≡ true
    → get_elem? ks i ≡ some text
    → i < length args
    → IsSafe (arg_string args i)
unfolding arg_string fits
arg_string-IsSafe ks args i h k n =
    let (a, found, fit) = fit_at ks args i h k n in let (t, e) = some_of a.s fit in rw (found, e) tt

pub arg_int-IsSafe :
    (ks : List Kind) (args : List Arg) (i : ℕ)
    → all_fit ks args ≡ true
    → get_elem? ks i ≡ some integer
    → i < length args
    → IsSafe (arg_int args i)
unfolding arg_int fits
arg_int-IsSafe ks args i h k n =
    let (a, found, fit) = fit_at ks args i h k n in let (t, e) = some_of a.i fit in rw (found, e) tt

-- the first argument is a text, and the operation goes on with it
pub text_first :
    {B : Type 0} (ks : List Kind) (args : List Arg) (f : Str → Result OpError B)
    → all_fit (text ∷ ks) args ≡ true
    → 1 ≤ length args
    → ((t : Str) → IsSafe (f t))
    → IsSafe (arg_string args 0 >>= f)
text_first ks args f h n k =
    IsSafe-bind (arg_string args 0) f (arg_string-IsSafe _ args 0 h refl n) k

pub text_second :
    {B : Type 0} (k : Kind) (ks : List Kind) (args : List Arg) (f : Str → Result OpError B)
    → all_fit (k ∷ text ∷ ks) args ≡ true
    → 2 ≤ length args
    → ((t : Str) → IsSafe (f t))
    → IsSafe (arg_string args 1 >>= f)
text_second k ks args f h n m =
    IsSafe-bind (arg_string args 1) f (arg_string-IsSafe _ args 1 h refl n) m

pub rune_range-IsSafe :
    (ks : List Kind) (args : List Arg) (s : Str)
    → all_fit (integer ∷ integer ∷ ks) args ≡ true
    → 2 ≤ length args
    → IsSafe (rune_range args s)
unfolding rune_range is_value_error
rune_range-IsSafe ks args s h n =
    IsSafe-bind (arg_int args 0) _ (arg_int-IsSafe _ args 0 h refl (omega arith)) λ start.
      IsSafe-bind (arg_int args 1) _ (arg_int-IsSafe _ args 1 h refl (omega arith)) λ end.
        IsSafe-if (ltb_ℤ start (pos 0) || ltb_ℤ (pos (length s)) end || ltb_ℤ end start) _ _ refl

nonempty_pad-IsSafe : (n : ℤ) (s t : Str) (left : Bool) → IsSafe (nonempty_pad n s t left)
unfolding nonempty_pad is_value_error
nonempty_pad-IsSafe n s [] left = refl
nonempty_pad-IsSafe n s (c ∷ t) left = tt

pub pad-IsSafe :
    (ks : List Kind) (args : List Arg) (s : Str) (left : Bool)
    → all_fit (integer ∷ text ∷ ks) args ≡ true
    → 2 ≤ length args
    → IsSafe (pad s args left)
unfolding pad is_value_error
pad-IsSafe ks args s left h n =
    IsSafe-bind (arg_int args 0) _ (arg_int-IsSafe _ args 0 h refl (omega arith)) λ m.
      IsSafe-bind (arg_string args 1) _ (arg_string-IsSafe _ args 1 h refl (omega arith))
        λ t. nonempty_pad-IsSafe m s t left
