-- ===== src/Bfs/Level.antt =====
-- What one step of the search (BUStep or TDStep of src/bfs.cc) owes to the whole.
use gapbs_bfs_experiment.Base.{ℕ, ◌≡◌, Bool, true, false, not, ◌&&◌, List, length, ℤ, pos}
use gapbs_bfs_experiment.Graph.{Graph, Edge}
use gapbs_bfs_experiment.Bfs.Parent.{parent_at, visited}

-- From the vertices of `front` the step goes along every edge and along no other: it takes `before` to
-- `after`, and `next` are the vertices that it visited.
pub record Level (g : Graph) (before after : List ℤ) (front next : ℕ → Bool) : Type 0 where
  pub size : length after ≡ length before
  pub kept : (v : ℕ) → visited before v ≡ true → parent_at after v ≡ parent_at before v
  pub fresh :
      (v : ℕ)
      → visited before v ≡ false
      → visited after v ≡ true
      → (u : ℕ) × (parent_at after v ≡ pos u) × (front u ≡ true) × Edge g u v
  pub full : (u v : ℕ) → front u ≡ true → Edge g u v → visited after v ≡ true
  pub news : (v : ℕ) → next v ≡ (visited after v && not (visited before v))
