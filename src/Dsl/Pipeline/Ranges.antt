-- ===== src/Dsl/Pipeline/Ranges.antt =====
-- internal/dsl/ops.go: `insertAt`, `slice` and `deleteRange`, run through `Apply`.
use Prim.Native.String.{String}
use maga.Base.{
  ℕ, ◌+◌, ◌-◌, ◌≤◌, ◌≡◌, refl, arith, ap, ◌∙◌, sym, ℤ, pos, ltb_ℤ, List, [], ◌∷◌, ◌++◌, Str, codes,
  length, take, drop, ok, err, lookup, length-append, length-take, take-append-drop,
  take-append_of_length, drop-append_of_length, drop-drop, append_assoc, ◌||◌, true,
}
use maga.Go.Libs.{Libs}
use maga.Dsl.Types.{Arg, Op, str_arg, int_arg, op_failed, range_out_of_bounds}
use maga.Dsl.Ops.Args.{arg_string, arg_int, rune_range}
use maga.Dsl.Ops.Registry.{registry}
use maga.Dsl.Pipeline.{apply_op, apply}

abbrev pub call : String → List Arg → Op
call name args = record { name = codes name; args = args }

abbrev pub insert_at : ℕ → Str → Op
insert_at k t = call "insertAt" (int_arg (pos k) ∷ str_arg t ∷ [])

abbrev pub slice : ℕ → ℕ → Op
slice i j = call "slice" (int_arg (pos i) ∷ int_arg (pos j) ∷ [])

abbrev pub delete_range : ℕ → ℕ → Op
delete_range i j = call "deleteRange" (int_arg (pos i) ∷ int_arg (pos j) ∷ [])

insert_at_lem :
    (l : Libs) (k : ℕ) (t s : Str)
    → k ≤ length s
    → apply_op l (insert_at k t) s ≡ ok (take k s ++ t ++ drop k s)
unfolding apply_op registry lookup arg_int arg_string
insert_at_lem l k t s h = ground arith

slice_lem :
    (l : Libs) (i j : ℕ) (s : Str)
    → i ≤ j
    → j ≤ length s
    → apply_op l (slice i j) s ≡ ok (take (j - i) (drop i s))
unfolding apply_op registry lookup rune_range
slice_lem l i j s h k = ground arith

delete_range_lem :
    (l : Libs) (i j : ℕ) (s : Str)
    → i ≤ j
    → j ≤ length s
    → apply_op l (delete_range i j) s ≡ ok (take i s ++ drop j s)
unfolding apply_op registry lookup rune_range
delete_range_lem l i j s h k = ground arith

split_tail : (i j : ℕ) (s : Str) → i ≤ j → take (j - i) (drop i s) ++ drop j s ≡ drop i s
split_tail i j s h =
    let e : i + (j - i) ≡ j = omega arith in
    ap (λ r. take (j - i) (drop i s) ++ r) (sym (drop-drop i (j - i) s ∙ ap (λ n. drop n s) e))
    ∙ take-append-drop (j - i) (drop i s)

-- What `slice` takes out of a range inside the text and what `deleteRange` leaves make up the text: to
-- insert the one into the other at the start of the range gives the text back.
pub slice_delete_insert :
    (l : Libs) (i j : ℕ) (s : Str)
    → i ≤ j
    → j ≤ length s
    → (m d : Str) × (apply_op l (slice i j) s ≡ ok m)
      × (apply_op l (delete_range i j) s ≡ ok d)
      × (apply_op l (insert_at i m) d ≡ ok s)
slice_delete_insert l i j s h k =
    let a = take i s in
    let m = take (j - i) (drop i s) in
    let b = drop j s in
    let len : length a ≡ i = omega (arith, length-take i s) in
    (
      m,
      a ++ b,
      slice_lem l i j s h k,
      delete_range_lem l i j s h k,
      insert_at_lem l i m (a ++ b) (omega (arith, length-append {0} a b))
          ∙ ap ok (
              rw (take-append_of_length a b len, drop-append_of_length a b len)
                (append_assoc a m b
                  ∙ ap (λ r. a ++ r) (split_tail i j s h)
                  ∙ take-append-drop i s)),
    )

-- To insert a text at a position up to the length and then delete or slice the range that it takes gives
-- the first text back, or the second.
pub insert_then :
    (l : Libs) (k : ℕ) (t s : Str)
    → k ≤ length s
    → (apply l (insert_at k t ∷ delete_range k (k + length t) ∷ []) s ≡ ok s)
      × (apply l (insert_at k t ∷ slice k (k + length t) ∷ []) s ≡ ok t)
unfolding apply
insert_then l k t s h =
    let a = take k s in
    let b = drop k s in
    let len : length a ≡ k = omega (arith, length-take k s) in
    let w = a ++ t ++ b in
    let len_w : k + length t ≤ length w =
      omega (arith, len, length-append {0} (a ++ t) b, length-append {0} a t) in
    let split : w ≡ a ++ (t ++ b) = append_assoc a t b in
    let before : take k w ≡ a = rw split (take-append_of_length a (t ++ b) len) in
    let after : drop (k + length t) w ≡ b =
      drop-append_of_length (a ++ t) b (omega (arith, len, length-append {0} a t)) in
    let inside : take (k + length t - k) (drop k w) ≡ t =
      rw (split, drop-append_of_length a (t ++ b) len) (take-append_of_length t b (omega arith)) in
    let le : k ≤ k + length t = omega arith in
    (
      rw (insert_at_lem l k t s h, delete_range_lem l k (k + length t) w le len_w, before, after)
          (ap ok (take-append-drop k s)),
      rw (insert_at_lem l k t s h, slice_lem l k (k + length t) w le len_w) (ap ok inside),
    )

-- A range that is not inside the text is refused by both, with the same error.
pub range_refused :
    (l : Libs) (start end : ℤ) (s : Str)
    → (ltb_ℤ start (pos 0) || ltb_ℤ (pos (length s)) end || ltb_ℤ end start) ≡ true
    → (apply_op l (call "slice" (int_arg start ∷ int_arg end ∷ [])) s
        ≡ err (op_failed (codes "slice") (range_out_of_bounds start end (length s))))
      × (apply_op l (call "deleteRange" (int_arg start ∷ int_arg end ∷ [])) s
          ≡ err (op_failed (codes "deleteRange") (range_out_of_bounds start end (length s))))
unfolding apply_op registry lookup rune_range
range_refused l start end s h = rw h (refl, refl)
