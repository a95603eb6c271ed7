-- ===== src/PVector/Resize.antt =====
-- What resize, fill and the constructors of pvector (src/pvector.h) leave.
use gapbs_bfs_experiment.Base.{
  ℕ, zero, suc, ◌≤◌, ◌<◌, ◌≡◌, refl, sym, ◌∙◌, arith, true, List, length, take, take-all, get_or,
  replicate, length-set, length-replicate, get_or-set, get_or-take, get_or-replicate, ltb, lt→ltb,
  if◌then◌else◌, inl, inr, Bool-cases, entries_ext, length-take, max,
}
use gapbs_bfs_experiment.PVector.{
  PVector, new_vector, capacity, size, reserve, contents, fill_range, fill, resize, at,
  filled_vector, copied_vector,
}
use gapbs_bfs_experiment.PVector.Growth.{
  Fits, length-copy_range, get_or-copy_range, take-copy_range,
}

module _ {ℓ} {A : Type ℓ} where
  -- What resize leaves of `v` in `w`.
  pub record Resized (junk : A) (v w : PVector A) (n : ℕ) : Type ℓ where
    pub size_is : size w ≡ n
    pub fits : Fits w
    pub capacity_is : capacity w ≡ max (capacity v) n
    pub kept : (i : ℕ) → i < size v → at junk w i ≡ at junk v i

  -- Resizing an array whose elements fit it gives the new size, enlarges the array only if it has
  -- fewer slots than that, and keeps all the elements that it had.
  pub resize-Resized :
      (junk : A) (v : PVector A) (n : ℕ) → Fits v → Resized junk v (resize junk v n) n
  unfolding resize reserve capacity size at
  resize-Resized junk v n fits =
      let fresh = replicate n junk in
      let len = length-copy_range junk v.end_size v.start fresh ∙ length-replicate n junk in
      elim (Bool-cases (ltb (length v.start) n)) [
        | inl more ↦ record {
          size_is = refl;
          fits = rw more (ground (arith, len));
          capacity_is = rw more (ground (arith, len));
          kept = λ i lt.
              let below : ltb i v.end_size ≡ true = lt→ltb i v.end_size lt in
              rw more (
                get_or-copy_range junk v.end_size v.start fresh i junk
                  (ground (arith, length-replicate n junk))
                ∙ rw below refl);
        }
        | inr enough ↦ record {
          size_is = refl;
          fits = rw enough (ground arith);
          capacity_is = rw enough (ground arith);
          kept = λ i lt. rw enough refl;
        }
      ]

  length-fill_range : (n : ℕ) (a : A) (xs : List A) → length (fill_range n a xs) ≡ length xs
  unfolding fill_range
  length-fill_range zero a xs = refl
  length-fill_range (suc n) a xs = rw length-set (length-fill_range n a xs)

  get_or-fill_range :
      (n : ℕ) (a : A) (xs : List A) (i : ℕ) (d : A)
      → n ≤ length xs
      → get_or (fill_range n a xs) i d ≡ (if ltb i n then a else get_or xs i d)
  unfolding fill_range
  get_or-fill_range zero a xs i d h = ground arith
  get_or-fill_range (suc n) a xs i d h =
      get_or-set (fill_range n a xs) n i a d (omega (arith, length-fill_range n a xs))
      ∙ ground (arith, get_or-fill_range n a xs i d (omega arith))

  -- Filling changes all the elements that there are, and no slot past them.
  pub fill-replicate :
      (v : PVector A) (a : A)
      → Fits v
      → (contents (fill v a) ≡ replicate (size v) a)
        × (capacity (fill v a) ≡ capacity v)
        × (size (fill v a) ≡ size v)
  unfolding fill size contents capacity
  fill-replicate v a fits =
      let n = v.end_size in
      let filled = fill_range n a v.start in
      let len_filled = length-fill_range n a v.start in
      let len = length-take n filled (omega (arith, len_filled)) in
      (
        entries_ext (take n filled) (replicate n a) a (omega (arith, len, length-replicate n a))
            λ i lt.
              let below : ltb i n ≡ true = ground (arith, len) in
              let read : get_or (take n filled) i a ≡ get_or filled i a =
                rw (get_or-take n filled i a, below) refl in
              let written : get_or filled i a ≡ a =
                rw (get_or-fill_range n a v.start i a fits, below) refl in
              read ∙ written ∙ sym (get_or-replicate n i a),
        len_filled,
        refl,
      )

  -- A new array that is filled, or copied from a range, holds what it is given.
  pub contents_new :
      (junk : A) (n : ℕ) (a : A) (from : List A)
      → (contents (filled_vector junk n a) ≡ replicate n a)
        × (contents (copied_vector junk from) ≡ from)
  unfolding filled_vector copied_vector new_vector contents size
  contents_new junk n a from = (
    (fill-replicate (new_vector junk n) a (omega (arith, length-replicate n junk))).0,
    take-copy_range junk (length from) from (replicate (length from) junk) (omega arith)
          (omega (arith, length-replicate (length from) junk))
        ∙ take-all from,
  )
