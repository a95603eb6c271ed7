-- ===== src/Bfs/Parent.antt =====
-- The parent array of src/bfs.cc: negative for an unvisited vertex, else its parent in the tree.
use Prim.Native.Nat.add
use gapbs_bfs_experiment.Base.{
  ℕ, zero, suc, ◌^◌, ◌≤◌, ◌<◌, ◌≡◌, refl, ap, ◌∙◌, arith, Bool, true, false, not, List, [], ◌∷◌,
  map, length, get_or, set, range, get_or-default, get_or-map-range, get_or-set, length-map,
  length-range, if◌then◌else◌, ◌==◌, dec_lt, ℤ, pos, negsuc, minus_one, is_neg, neg, ltb_ℤ, eq_ℤ,
  eq_ℤ_refl, to_int32,
}
use gapbs_bfs_experiment.Graph.{Graph, out_degree, IsValid}

-- Every read of the source is in bounds; past the end an entry counts as unvisited.
abbrev pub parent_at : List ℤ → ℕ → ℤ
parent_at parent v = get_or parent v minus_one

abbrev pub visited : List ℤ → ℕ → Bool
visited parent v = not (is_neg (parent_at parent v))

-- The entry is a signed 32-bit NodeID, and the degree a signed 64-bit number.
unfoldable pub initial_entry : ℕ → ℤ
initial_entry degree = to_int32 (if degree == 0 then minus_one else neg (pos degree))

unfoldable pub init_parent : Graph → List ℤ
init_parent g = map (λ n. initial_entry (out_degree g n)) (range 0 g.num_nodes)

-- if (parent[n] < -1) parent[n] = -1
unfoldable pub cleaned : ℤ → ℤ
cleaned entry = if ltb_ℤ entry minus_one then minus_one else entry

unfoldable pub cleanup : List ℤ → List ℤ
unfolding cleaned
cleanup parent = map cleaned parent

-- The fallback of src/platform_atomics.h for one thread.
unfoldable pub compare_and_swap : List ℤ → ℕ → ℤ → ℤ → Bool × List ℤ
compare_and_swap parent v old_val new_val =
    if eq_ℤ (parent_at parent v) old_val then (true, set parent v new_val) else (false, parent)

pub compare_and_swap_lem :
    (parent : List ℤ) (v : ℕ) (new_val : ℤ)
    → compare_and_swap parent v (parent_at parent v) new_val ≡ (true, set parent v new_val)
unfolding compare_and_swap
compare_and_swap_lem parent v new_val = rw (eq_ℤ_refl (parent_at parent v))

-- The number of entries that are negative.
abbrev pub unvisited : List ℤ → ℕ
unvisited [] = 0
unvisited (pos n ∷ es) = unvisited es
unvisited (negsuc n ∷ es) = suc (unvisited es)

pub unvisited-le-length : (parent : List ℤ) → unvisited parent ≤ length parent
unvisited-le-length [] = omega arith
unvisited-le-length (pos n ∷ es) = omega (arith, unvisited-le-length es)
unvisited-le-length (negsuc n ∷ es) = omega (arith, unvisited-le-length es)

pub unvisited-set :
    (parent : List ℤ) (v u : ℕ)
    → v < length parent
    → is_neg (parent_at parent v) ≡ true
    → suc (unvisited (set parent v (pos u))) ≡ unvisited parent
unvisited-set [] v u h n = elim h [ ]
unvisited-set (pos a ∷ es) zero u h n = cc
unvisited-set (negsuc a ∷ es) zero u h n = refl
unvisited-set (pos a ∷ es) (suc v) u h n = unvisited-set es v u (omega arith) n
unvisited-set (negsuc a ∷ es) (suc v) u h n = ap suc (unvisited-set es v u (omega arith) n)

pub visited-lt : (parent : List ℤ) (v : ℕ) → visited parent v ≡ true → v < length parent
visited-lt [] v h = cc
visited-lt (e ∷ es) zero h = omega arith
visited-lt (e ∷ es) (suc v) h = omega (arith, visited-lt es v h)

pub visited-set :
    (parent : List ℤ) (v u w : ℕ)
    → v < length parent
    → visited (set parent v (pos u)) w ≡ (if v == w then true else visited parent w)
visited-set parent v u w h = ground (arith, get_or-set parent v w (pos u) minus_one)

pub initial_entry-is_neg : (d : ℕ) → d < 2 ^ 31 → is_neg (initial_entry d) ≡ true
unfolding initial_entry
initial_entry-is_neg zero h = refl
initial_entry-is_neg (suc d) h = ground arith

pub length-init_parent : (g : Graph) → length (init_parent g) ≡ g.num_nodes
unfolding init_parent
length-init_parent g =
    length-map (λ n. initial_entry (out_degree g n)) (range 0 g.num_nodes)
    ∙ length-range 0 g.num_nodes

-- At the start of a search no vertex counts as visited.
pub visited-init_parent : (g : Graph) → IsValid g → (v : ℕ) → visited (init_parent g) v ≡ false
unfolding init_parent
visited-init_parent g valid v = elim (dec_lt v g.num_nodes) [
  | yes h ↦ ground (
    arith,
    get_or-map-range (λ n. initial_entry (out_degree g n)) 0 g.num_nodes v minus_one,
    add.zero v,
    initial_entry-is_neg (out_degree g v),
    valid.degrees v h,
  )
  | no h ↦ ground (arith, get_or-default (init_parent g) v minus_one, length-init_parent g)
]

pub parent_at-cleanup :
    (parent : List ℤ) (v : ℕ) → parent_at (cleanup parent) v ≡ cleaned (parent_at parent v)
unfolding cleanup
parent_at-cleanup [] v = refl
parent_at-cleanup (e ∷ es) zero = refl
parent_at-cleanup (e ∷ es) (suc v) = parent_at-cleanup es v

-- The last sweep keeps the entries of visited vertices, and makes all the others -1.
pub cleanup_lem :
    (parent : List ℤ) (v : ℕ)
    → parent_at (cleanup parent) v ≡ (if visited parent v then parent_at parent v else minus_one)
unfolding cleaned
cleanup_lem parent v = rw (parent_at-cleanup parent v) (by_sign (parent_at parent v))
  where
    by_sign : (e : ℤ) → cleaned e ≡ (if not (is_neg e) then e else minus_one)
    by_sign (pos n) = refl
    by_sign (negsuc zero) = ground arith
    by_sign (negsuc (suc n)) = ground arith

pub length-cleanup : (parent : List ℤ) → length (cleanup parent) ≡ length parent
unfolding cleanup
length-cleanup parent = length-map cleaned parent
