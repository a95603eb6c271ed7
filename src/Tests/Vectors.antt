-- ===== src/Tests/Vectors.antt =====
-- The growing array of src/pvector.h on small inputs.
use gapbs_bfs_experiment.Base.{ℕ, ◌≡◌, refl, arith, List, [], ◌∷◌}
use gapbs_bfs_experiment.PVector.{
  PVector, null_vector, reserve, resize, push_back, push_all, contents, capacity, size, clear,
  make_room, copy_range, fill, fill_range, filled_vector, new_vector,
}
use gapbs_bfs_experiment.PVector.Growth.{PushedAll, push_all-PushedAll, copies}
use gapbs_bfs_experiment.PVector.Resize.{Resized, resize-Resized}

abbrev five : List ℕ
five = 1 ∷ 2 ∷ 3 ∷ 4 ∷ 5 ∷ []

abbrev nothing_yet : PVector ℕ
nothing_yet = null_vector

abbrev five_pushed : PVector ℕ
five_pushed = push_all 9 nothing_yet five

-- Five elements take an array of eight.
five_pushed_is :
    (five_pushed ≡ record { start = 1 ∷ 2 ∷ 3 ∷ 4 ∷ 5 ∷ 9 ∷ 9 ∷ 9 ∷ []; end_size = 5 })
    × (copies 9 nothing_yet five ≡ 7)
    × (contents (clear five_pushed) ≡ [])
    × (contents {A = ℕ} (filled_vector 9 2 4) ≡ 4 ∷ 4 ∷ [])
unfolding push_all push_back make_room reserve capacity size copy_range null_vector copies contents
    clear filled_vector fill fill_range new_vector
five_pushed_is = (refl, refl, refl, refl)

push_all-PushedAll_example :
    PushedAll nothing_yet (push_all 9 nothing_yet five) five (copies 9 nothing_yet five)
push_all-PushedAll_example =
    push_all-PushedAll 9 nothing_yet five (unfold null_vector in omega arith)

resize-Resized_example : Resized 9 five_pushed (resize 9 five_pushed 12) 12
resize-Resized_example =
    resize-Resized 9 five_pushed 12
      (push_all-PushedAll 9 nothing_yet five (unfold null_vector in omega arith)).fits
