-- ===== src/Triangles/Scan.antt =====
-- The merge of two ascending neighbourhoods in OrderedCount (src/tc.cc).
use gapbs_bfs_experiment.Base.{
  ℕ, suc, ◌+◌, ◌≤◌, ◌<◌, ◌≡◌, refl, sym, ◌∙◌, arith, Bool, true, ◌&&◌, some, List, [], ◌∷◌, elem,
  ltb, leb, ◌==◌, if◌then◌else◌, Bool-cases, inl, inr,
}
use gapbs_bfs_experiment.Triangles.{scan_to, count_with}

-- Each item is at least the one before, and the first at least `low`.
abbrev pub ascending : ℕ → List ℕ → Bool
ascending low [] = true
ascending low (x ∷ xs) = leb low x && ascending x xs

first_least : (low x : ℕ) (xs : List ℕ) → ascending low xs ≡ true → elem x xs ≡ true → low ≤ x
first_least low x [] s h = cc
first_least low x (y ∷ ys) s h = ground (arith, first_least y x ys)

-- How many of `ws`, up to `v`, are in `row`.
abbrev pub common : ℕ → List ℕ → List ℕ → ℕ
common v [] row = 0
common v (w ∷ ws) row =
    let rest = common v ws row in if leb w v && elem w row then suc rest else rest

pub common_none :
    (v low : ℕ) (ws row : List ℕ) → ascending low ws ≡ true → v < low → common v ws row ≡ 0
common_none v low [] row s h = refl
common_none v low (w ∷ ws) row s h = ground (arith, common_none v w ws row)

common_same :
    (v low : ℕ) (ws a b : List ℕ)
    → ascending low ws ≡ true
    → ((z : ℕ) → low ≤ z → elem z a ≡ elem z b)
    → common v ws a ≡ common v ws b
common_same v low [] a b s same = refl
common_same v low (w ∷ ws) a b s same =
    let above : low ≤ w = ground arith in
    let rest = common_same v w ws a b (ground arith) (λ z h. same z (omega arith)) in
    rw (same w above, rest) refl

-- Where a scan for `w` stops: at `x`, and it has passed over nothing from `w` on.
record Stopped (w : ℕ) (it : List ℕ) : Type 0 where
  x : ℕ
  rest : List ℕ
  stops : scan_to w it ≡ some (x ∷ rest)
  reached : w ≤ x
  sorted : ascending x rest ≡ true
  same : (z : ℕ) → w ≤ z → elem z (x ∷ rest) ≡ elem z it

scan_to-Stopped :
    (w top low : ℕ) (it : List ℕ)
    → ascending low it ≡ true
    → elem top it ≡ true
    → w ≤ top
    → Stopped w it
unfolding scan_to
scan_to-Stopped w top low [] s m h = cc
scan_to-Stopped w top low (y ∷ it) s m h = elim (Bool-cases (ltb y w)) [
  | inl passes ↦
      let r = scan_to-Stopped w top y it (ground arith) (ground arith) h in
      record {
        x = r.x;
        rest = r.rest;
        stops = rw passes r.stops;
        reached = r.reached;
        sorted = r.sorted;
        same = λ z hz. ground (arith, r.same z hz);
      }
  | inr stays ↦ record {
    x = y;
    rest = it;
    stops = rw stays refl;
    reached = ground arith;
    sorted = ground arith;
    same = λ z hz. refl;
  }
]

found : (w x : ℕ) (rest : List ℕ) → w ≤ x → ascending x rest ≡ true → elem w (x ∷ rest) ≡ (w == x)
found w x rest h s = elim (Bool-cases (elem w rest)) [
  | inl later ↦ ground (arith, first_least x w rest s later)
  | inr none_left ↦ ground arith
]

-- The merge stays in the neighbourhood if that holds an item from `v` on.
pub count_with_lem :
    (v top low first : ℕ) (ws it : List ℕ) (total : ℕ)
    → ascending low ws ≡ true
    → ascending first it ≡ true
    → elem top it ≡ true
    → v ≤ top
    → count_with v ws it total ≡ some (total + common v ws it)
unfolding count_with
count_with_lem v top low first [] it total s t m h =
    (let same : total + 0 ≡ total = omega arith in rw same refl)
count_with_lem v top low first (w ∷ ws) it total s t m h = elim (Bool-cases (ltb v w)) [
  | inl breaks ↦
      let none_left = common_none v w (w ∷ ws) it (ground arith) (ground arith) in
      rw (breaks, none_left) ((let same : total + 0 ≡ total = omega arith in rw same refl))
  | inr goes_on ↦
      let r = scan_to-Stopped w top first it t m (ground arith) in
      let total' = if w == r.x then suc total else total in
      let rest =
        count_with_lem v top w 0 ws (r.x ∷ r.rest) total' (ground arith) (ground (arith, r.sorted))
          (r.same top (ground arith) ∙ m) h in
      let kept = common_same v w ws (r.x ∷ r.rest) it (ground arith) r.same in
      let here : elem w it ≡ (w == r.x) =
        sym (r.same w (omega arith)) ∙ found w r.x r.rest r.reached r.sorted in
      let sum : total' + common v ws it ≡ total + common v (w ∷ ws) it = ground (arith, here) in
      rw (goes_on, r.stops) (rest ∙ rw (kept, sum) refl)
]
