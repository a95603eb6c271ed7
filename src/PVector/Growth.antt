-- ===== src/PVector/Growth.antt =====
-- What the operations of pvector (src/pvector.h) do to its contents, and how the array grows.
use gapbs_bfs_experiment.Base.{
  ℕ, zero, suc, ◌+◌, ◌*◌, ◌≤◌, ◌≡◌, refl, sym, ap, ◌∙◌, arith, true, List, [], ◌∷◌, ◌++◌,
  append_assoc, append-nil, length, take, take-set, get_or-take, max, get_or, replicate, length-set,
  length-replicate, length-take, get_or-set, ltb, ◌==◌, if◌then◌else◌, inl, inr, Bool-cases,
  entries_ext,
}
use gapbs_bfs_experiment.PVector.{
  PVector, capacity, size, copy_range, reserve, make_room, push_back, push_all, contents,
}

-- The array is kept while it has room, and else it is doubled, from 0 to 1 slots.
abbrev pub grown : ℕ → ℕ → ℕ
grown n slots = if n == slots then (if slots == 0 then 1 else slots * 2) else slots

module _ {ℓ} {A : Type ℓ} where
  -- The elements fit the array.
  abbrev pub Fits : PVector A → Type 0
  Fits v = v.end_size ≤ length v.start

  pub length-copy_range :
      (junk : A) (n : ℕ) (from to : List A) → length (copy_range junk n from to) ≡ length to
  unfolding copy_range
  length-copy_range junk zero from to = refl
  length-copy_range junk (suc n) from to = rw length-set (length-copy_range junk n from to)

  pub get_or-copy_range :
      (junk : A) (n : ℕ) (from to : List A) (i : ℕ) (d : A)
      → n ≤ length to
      → get_or (copy_range junk n from to) i d
        ≡ (if ltb i n then get_or from i junk else get_or to i d)
  unfolding copy_range
  get_or-copy_range junk zero from to i d h = ground arith
  get_or-copy_range junk (suc n) from to i d h =
      get_or-set (copy_range junk n from to) n i (get_or from n junk) d
        (omega (arith, length-copy_range junk n from to))
      ∙ ground (arith, get_or-copy_range junk n from to i d (omega arith))

  pub take-copy_range :
      (junk : A) (n : ℕ) (from to : List A)
      → n ≤ length from
      → n ≤ length to
      → take n (copy_range junk n from to) ≡ take n from
  take-copy_range junk n from to hf ht =
      let new = copy_range junk n from to in
      let len = length-take n new (omega (arith, length-copy_range junk n from to)) in
      entries_ext (take n new) (take n from) junk (omega (arith, len, length-take n from hf))
        λ i lt.
          let below : ltb i n ≡ true = ground (arith, len) in
          let read_new : get_or (take n new) i junk ≡ get_or new i junk =
            rw (get_or-take n new i junk, below) refl in
          let read_from : get_or (take n from) i junk ≡ get_or from i junk =
            rw (get_or-take n from i junk, below) refl in
          let copied : get_or new i junk ≡ get_or from i junk =
            rw (get_or-copy_range junk n from to i junk ht, below) refl in
          cc

  record Roomy (v w : PVector A) : Type ℓ where
    same_size : w.end_size ≡ v.end_size
    capacity_is : length w.start ≡ grown v.end_size (length v.start)
    same_contents : take w.end_size w.start ≡ take v.end_size v.start

  make_room-Roomy : (junk : A) (v : PVector A) → Fits v → Roomy v (make_room junk v)
  unfolding make_room reserve capacity size
  make_room-Roomy junk v fits =
      let n = v.end_size in
      let slots = length v.start in
      let more = if slots == 0 then 1 else slots * 2 in
      let fresh = replicate more junk in
      elim (Bool-cases (n == slots)) [
        | inl full ↦
            let grows : ltb slots more ≡ true = ground arith in
            record {
              same_size = rw (full, grows) refl;
              capacity_is = rw (full, grows) (rw length-copy_range (length-replicate more junk));
              same_contents =
                  rw (full, grows)
                    (take-copy_range junk n v.start fresh fits
                      (ground (arith, length-replicate more junk)));
            }
        | inr free ↦ record {
          same_size = rw free refl;
          capacity_is = rw free refl;
          same_contents = rw free refl;
        }
      ]

  -- What push_back leaves.
  pub record Pushed (v w : PVector A) (val : A) : Type ℓ where
    pub appended : contents w ≡ contents v ++ val ∷ []
    pub one_more : w.end_size ≡ suc v.end_size
    pub capacity_is : length w.start ≡ grown v.end_size (length v.start)

  pub push_back-Pushed :
      (junk : A) (v : PVector A) (val : A) → Fits v → Pushed v (push_back junk v val) val
  unfolding push_back contents
  push_back-Pushed junk v val fits =
      let w = make_room junk v in
      let room = make_room-Roomy junk v fits in
      record {
        appended =
            take-set w.start w.end_size val (ground (arith, room.same_size, room.capacity_is))
            ∙ rw room.same_contents refl;
        one_more = ap suc room.same_size;
        capacity_is = rw length-set room.capacity_is;
      }

  push_back-Fits : (junk : A) (v : PVector A) (val : A) → Fits v → Fits (push_back junk v val)
  push_back-Fits junk v val fits =
      let p = push_back-Pushed junk v val fits in ground (arith, p.one_more, p.capacity_is)

  -- The elements that the calls of reserve copy in a loop of push_back.
  unfoldable pub copies : A → PVector A → List A → ℕ
  unfolding size capacity
  copies junk v [] = 0
  copies junk v (val ∷ vals) =
      let rest = copies junk (push_back junk v val) vals in
      (if size v == capacity v then size v else 0) + rest

  -- What a loop of push_back leaves.
  pub record PushedAll (v w : PVector A) (vals : List A) (copied : ℕ) : Type ℓ where
    pub appended : contents w ≡ contents v ++ vals
    pub fits : Fits w
    pub all_counted : w.end_size ≡ v.end_size + length vals
    pub at_most_double : length w.start ≤ max (length v.start) (2 * w.end_size)
    pub cheap : copied + length v.start ≤ length w.start

  -- A loop of push_back on an array whose elements fit it appends the values in order, the elements
  -- fit again, the array has at most twice the slots that the elements need unless it had more
  -- before, and all the calls of reserve together copy no more elements than the array has grown by.
  pub push_all-PushedAll :
      (junk : A) (v : PVector A) (vals : List A)
      → Fits v
      → PushedAll v (push_all junk v vals) vals (copies junk v vals)
  unfolding push_all copies size capacity
  push_all-PushedAll junk v [] fits = record {
    appended = sym (append-nil (contents v));
    fits = fits;
    all_counted = omega arith;
    at_most_double = omega arith;
    cheap = omega arith;
  }
  push_all-PushedAll junk v (val ∷ vals) fits =
      let p = push_back-Pushed junk v val fits in
      let r =
        push_all-PushedAll junk (push_back junk v val) vals (push_back-Fits junk v val fits) in
      record {
        appended = r.appended ∙ rw p.appended (append_assoc (contents v) (val ∷ []) vals);
        fits = r.fits;
        all_counted = omega (arith, p.one_more, r.all_counted);
        at_most_double = ground (arith, p.one_more, p.capacity_is, r.at_most_double, r.all_counted);
        cheap = ground (arith, p.capacity_is, r.cheap);
      }
