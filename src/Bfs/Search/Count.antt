-- ===== src/Bfs/Search/Count.antt =====
-- How many vertices a level has, by the entries of the parent array of src/bfs.cc.
use gapbs_bfs_experiment.Base.{
  ℕ, suc, ◌+◌, ◌≡◌, refl, ap, ◌∙◌, arith, Bool, true, not, ◌&&◌, List, [], ◌∷◌, length, range, ℤ,
  pos, negsuc, is_neg,
}
use mathlib.Core.Bool.{false≢true}
use gapbs_bfs_experiment.Bfs.Parent.{visited, unvisited}
use gapbs_bfs_experiment.Bfs.Convert.{selected}

by_signs :
    (a b : ℤ) (before after : List ℤ) (f : ℕ → Bool) (x : ℕ) (us : List ℕ)
    → f x ≡ (not (is_neg b) && not (not (is_neg a)))
    → (not (is_neg a) ≡ true → not (is_neg b) ≡ true)
    → length (selected f us) + unvisited after ≡ unvisited before
    → length (selected f (x ∷ us)) + unvisited (b ∷ after) ≡ unvisited (a ∷ before)
by_signs (pos a) (pos b) before after f x us h k e = rw h e
by_signs (pos a) (negsuc b) before after f x us h k e = absurd (false≢true (k refl))
by_signs (negsuc a) (pos b) before after f x us h k e = rw h (omega (arith, e))
by_signs (negsuc a) (negsuc b) before after f x us h k e = rw h (omega (arith, e))

-- The vertices that pass `f` are those that became visited: there are as many as entries that stopped
-- being negative.
pub length-selected-news :
    (before after : List ℤ) (f : ℕ → Bool) (first : ℕ)
    → length after ≡ length before
    → ((v : ℕ) → f (first + v) ≡ (visited after v && not (visited before v)))
    → ((v : ℕ) → visited before v ≡ true → visited after v ≡ true)
    → length (selected f (range first (length before))) + unvisited after ≡ unvisited before
length-selected-news [] [] f first e news keep = refl
length-selected-news [] (b ∷ after) f first e news keep = absurd (omega arith)
length-selected-news (a ∷ before) [] f first e news keep = absurd (omega arith)
length-selected-news (a ∷ before) (b ∷ after) f first e news keep =
    let tail : (v : ℕ) → f (suc first + v) ≡ f (first + suc v) = λ v. ap f (omega arith) in
    let head : f first ≡ f (first + 0) = ap f (omega arith) in
    let here = head ∙ news 0 in
    let ih =
      length-selected-news before after f (suc first) (omega arith) (λ v. tail v ∙ news (suc v))
        (λ v. keep (suc v)) in
    by_signs a b before after f first (range (suc first) (length before)) here (keep 0) ih
