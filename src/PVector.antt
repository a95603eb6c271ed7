-- ===== src/PVector.antt =====
-- The class pvector of src/pvector.h. A pointer into the array is its offset from start_, and a new
-- array holds `fresh`, a list of any contents that has an entry for each asked for.
pub mod Growth
pub mod Resize
use gapbs_bfs_experiment.Base.{
  ℕ, zero, suc, ◌+◌, ◌*◌, Bool, List, [], ◌∷◌, length, take, set, get_or, replicate, ltb, ◌==◌,
  if◌then◌else◌, foldl,
}

-- start_ points at `start`, which is empty where the pointer is null, and its length is
-- end_capacity_ - start_.
pub record PVector {ℓ} (A : Type ℓ) : Type ℓ where
  pub start : List A
  pub end_size : ℕ

abbrev pub growth_factor : ℕ
growth_factor = 2

module _ {ℓ} {A : Type ℓ} where
  unfoldable pub null_vector : PVector A
  null_vector = record { start = []; end_size = 0 }

  -- What new T_[num_elements] holds is `junk` in each entry.
  unfoldable pub new_vector : A → ℕ → PVector A
  new_vector junk num_elements = record {
    start = replicate num_elements junk;
    end_size = num_elements;
  }

  unfoldable pub capacity : PVector A → ℕ
  capacity v = length v.start

  unfoldable pub size : PVector A → ℕ
  size v = v.end_size

  unfoldable pub empty : PVector A → Bool
  empty v = v.end_size == 0

  unfoldable pub clear : PVector A → PVector A
  clear v = record v { end_size = 0 }

  -- A read past the capacity is a fault in the source, and `junk` here.
  unfoldable pub at : A → PVector A → ℕ → A
  at junk v n = get_or v.start n junk

  unfoldable pub put : PVector A → ℕ → A → PVector A
  put v n a = record v { start = set v.start n a }

  -- for i < n: to[i] = from[i]
  unfoldable pub copy_range : A → ℕ → List A → List A → List A
  copy_range junk zero from to = to
  copy_range junk (suc n) from to = set (copy_range junk n from to) n (get_or from n junk)

  unfoldable pub copied_vector : A → List A → PVector A
  unfolding new_vector copy_range
  copied_vector junk from =
      let v = new_vector junk (length from) in
      record v { start = copy_range junk (length from) from v.start }

  unfoldable pub reserve : A → PVector A → ℕ → PVector A
  unfolding capacity size copy_range
  reserve junk v num_elements =
      let new_range = replicate num_elements junk in
      if ltb (capacity v) num_elements
      then record v { start = copy_range junk (size v) v.start new_range }
      else v

  unfoldable pub resize : A → PVector A → ℕ → PVector A
  unfolding reserve
  resize junk v num_elements = record (reserve junk v num_elements) { end_size = num_elements }

  unfoldable pub make_room : A → PVector A → PVector A
  unfolding reserve capacity size
  make_room junk v =
      if size v == capacity v
      then reserve junk v (if capacity v == 0 then 1 else capacity v * growth_factor)
      else v

  unfoldable pub push_back : A → PVector A → A → PVector A
  unfolding make_room
  push_back junk v val =
      let w = make_room junk v in
      record { start = set w.start w.end_size val; end_size = suc w.end_size }

  -- for i < n: array[i] = init_val
  unfoldable pub fill_range : ℕ → A → List A → List A
  fill_range zero init_val xs = xs
  fill_range (suc n) init_val xs = set (fill_range n init_val xs) n init_val

  unfoldable pub fill : PVector A → A → PVector A
  unfolding fill_range size
  fill v init_val = record v { start = fill_range (size v) init_val v.start }

  unfoldable pub filled_vector : A → ℕ → A → PVector A
  unfolding fill new_vector
  filled_vector junk num_elements init_val = fill (new_vector junk num_elements) init_val

  unfoldable pub swap : PVector A → PVector A → PVector A × PVector A
  swap v other = (other, v)

  -- What the target and the source of a move hold after it.
  unfoldable pub move_assign : PVector A → PVector A → PVector A × PVector A
  unfolding null_vector
  move_assign v other = (other, null_vector)

  -- What an iteration from begin() to end() reads.
  unfoldable pub contents : PVector A → List A
  contents v = take v.end_size v.start

  -- An array built by a loop of push_back.
  unfoldable pub push_all : A → PVector A → List A → PVector A
  unfolding push_back
  push_all junk v vals = foldl (push_back junk) v vals
