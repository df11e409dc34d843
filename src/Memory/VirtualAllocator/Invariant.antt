-- ===== src/Memory/VirtualAllocator/Invariant.antt =====
-- What `m_allocated_ranges` keeps: non-empty ranges in ascending order, never touching one another
-- (`merge_and_emplace` joins those that would). Lemmas on the operations of the set.
use ultra_os.Common.{
  ℕ, ◌+◌, ◌≤◌, ◌<◌, ◌≡◌, ◌⊎◌, ◌↔◌, inl, inr, List, [], ◌∷◌, arith, All, Any, Elem, All-map, ==_iff,
  ap, subst,
}
use ultra_os.Memory.Range.{Range}
use ultra_os.Memory.Range.Laws.{In}
use ultra_os.Memory.VirtualAllocator.RangeSet.{remove, emplace}

-- From `lo` on and up to `hi`: each range begins after a gap behind the one before.
abbrev pub Chain : ℕ → ℕ → List Range → Type 0
Chain lo hi [] = Unit {0}
Chain lo hi (r ∷ rs) = (lo ≤ r.begin) × (r.begin < r.end) × (r.end ≤ hi) × Chain (r.end + 1) hi rs

-- The address is allocated.
abbrev pub Covered : ℕ → List Range → Type 0
Covered a = Any (In a)

-- `r` neither overlaps `x` nor touches it.
abbrev pub Apart : Range → Range → Type 0
Apart x r = (x.end < r.begin) ⊎ (r.end < x.begin)

pub Chain-mono : {m n : ℕ} (hi : ℕ) (l : List Range) → m ≤ n → Chain n hi l → Chain m hi l
Chain-mono hi [] h c = tt
Chain-mono hi (r ∷ rs) h c = (omega arith, c.1, c.2, c.3)

pub emplace-Chain :
    (x : Range) (lo hi : ℕ) (l : List Range)
    → Chain lo hi l
    → x.begin < x.end
    → lo ≤ x.begin
    → x.end ≤ hi
    → All (Apart x) l
    → Chain lo hi (emplace x l)
unfolding emplace
emplace-Chain x lo hi [] c n b e f = (b, n, e, tt)
emplace-Chain x lo hi (r ∷ rs) c n b e (inl p, f) = ground arith
emplace-Chain x lo hi (r ∷ rs) c n b e (inr p, f) =
    ground (arith, emplace-Chain x (r.end + 1) hi rs c.3 n (omega arith) e f)

pub emplace-Covered :
    (x : Range) (a : ℕ) (l : List Range)
    → All (Apart x) l
    → x.begin < x.end
    → All (λ r. r.begin < r.end) l
    → Covered a (emplace x l) ↔ (In a x ⊎ Covered a l)
unfolding emplace
emplace-Covered x a [] f n s = (λ h. h, λ h. h)
emplace-Covered x a (r ∷ rs) f n s =
    let ih = emplace-Covered x a rs f.1 n s.1 in (ground (arith, ih), ground (arith, ih))

-- Every range of a chain is apart from a range that ends before the chain begins.
Chain-Apart :
    (x : Range) (lo hi : ℕ) (l : List Range) → Chain lo hi l → x.end < lo → All (Apart x) l
Chain-Apart x lo hi [] c h = tt
Chain-Apart x lo hi (r ∷ rs) c h =
    (inl (omega arith), Chain-Apart x (r.end + 1) hi rs c.3 (omega arith))

pub Elem-above : (x : Range) (lo hi : ℕ) (l : List Range) → Chain lo hi l → Elem x l → lo ≤ x.begin
Elem-above x lo hi [] c m = elim m [ ]
Elem-above x lo hi (r ∷ rs) c (inl e) = ground arith
Elem-above x lo hi (r ∷ rs) c (inr m) = omega (arith, Elem-above x (r.end + 1) hi rs c.3 m)

-- The ranges of a chain are apart from one another.
pub Elem-Apart :
    (x : Range) (lo hi : ℕ) (l : List Range)
    → Chain lo hi l
    → Elem x l
    → All (λ r. (r ≡ x) ⊎ Apart x r) l
Elem-Apart x lo hi [] c m = elim m [ ]
Elem-Apart x lo hi (r ∷ rs) c (inl e) =
    (inl e, All-map rs (λ s h. inr h) (Chain-Apart x (r.end + 1) hi rs c.3 (ground arith)))
Elem-Apart x lo hi (r ∷ rs) c (inr m) = (
  inr (inr (omega (arith, Elem-above x (r.end + 1) hi rs c.3 m))),
  Elem-Apart x (r.end + 1) hi rs c.3 m,
)

pub remove-Chain :
    (x : Range) (lo hi : ℕ) (l : List Range) → Chain lo hi l → Chain lo hi (remove x l)
unfolding remove
remove-Chain x lo hi [] c = tt
remove-Chain x lo hi (r ∷ rs) c =
    ground (arith, remove-Chain x (r.end + 1) hi rs c.3, Chain-mono {m = lo} {n = r.end + 1} hi rs)

module _ {κ} (P : Range → Type κ) (x : Range) where
  -- A range that begins below the chain is none of its elements.
  not_Elem-All :
      (lo hi : ℕ) (l : List Range)
      → Chain lo hi l
      → x.begin < lo
      → All (λ r. (r ≡ x) ⊎ P r) l
      → All P l
  not_Elem-All lo hi [] c h f = tt
  not_Elem-All lo hi (r ∷ rs) c h (inl e, f) = absurd (ground arith)
  not_Elem-All lo hi (r ∷ rs) c h (inr p, f) =
      (p, not_Elem-All (r.end + 1) hi rs c.3 (omega arith) f)

  -- What holds of every range but `x` holds of every range that `remove x` leaves.
  pub remove-All :
      (lo hi : ℕ) (l : List Range)
      → Chain lo hi l
      → Elem x l
      → All (λ r. (r ≡ x) ⊎ P r) l
      → All P (remove x l)
  unfolding remove
  remove-All lo hi [] c m f = elim m [ ]
  remove-All lo hi (r ∷ rs) c (inl e) f =
      let rest : All P rs = not_Elem-All (r.end + 1) hi rs c.3 (ground arith) f.1 in
      rw ((==_iff r.begin x.begin).1 (ap (λ (y : Range). y.begin) e)) rest
  remove-All lo hi (r ∷ rs) c (inr m) (inl e, f) =
      absurd (ground (arith, Elem-above x (r.end + 1) hi rs c.3 m))
  remove-All lo hi (r ∷ rs) c (inr m) (inr p, f) =
      ground (arith, Elem-above x (r.end + 1) hi rs c.3 m, remove-All (r.end + 1) hi rs c.3 m f)

-- Taking an element away takes its addresses away, and no others.
pub remove-Covered :
    (x : Range) (a lo hi : ℕ) (l : List Range)
    → Chain lo hi l
    → Elem x l
    → Covered a l ↔ (In a x ⊎ Covered a (remove x l))
unfolding remove
remove-Covered x a lo hi [] c m = elim m [ ]
remove-Covered x a lo hi (r ∷ rs) c (inl e) =
    rw (((==_iff r.begin x.begin).1 (ap (λ (y : Range). y.begin) e)), e) (λ h. h, λ h. h)
remove-Covered x a lo hi (r ∷ rs) c (inr m) =
    let ih = remove-Covered x a (r.end + 1) hi rs c.3 m in
    let above = Elem-above x (r.end + 1) hi rs c.3 m in
    (ground (arith, ih, above), ground (arith, ih, above))

pub remove-Elem :
    (x y : Range) (l : List Range) → Elem y l → (y.begin ≡ x.begin → ⊥) → Elem y (remove x l)
unfolding remove
remove-Elem x y [] m ne = elim m [ ]
remove-Elem x y (r ∷ rs) (inl e) ne = ground (arith, ap (λ (z : Range). z.begin) e)
remove-Elem x y (r ∷ rs) (inr m) ne = ground (arith, remove-Elem x y rs m ne)

-- A range of a chain is not empty, and lies within the chain's limits.
abbrev pub Within : ℕ → ℕ → Range → Type 0
Within lo hi r = (lo ≤ r.begin) × (r.begin < r.end) × (r.end ≤ hi)

Chain-All_from : (m lo hi : ℕ) (l : List Range) → m ≤ lo → Chain lo hi l → All (Within m hi) l
Chain-All_from m lo hi [] h c = tt
Chain-All_from m lo hi (r ∷ rs) h c =
    ((omega arith, c.1, c.2), Chain-All_from m (r.end + 1) hi rs (omega arith) c.3)

pub Chain-All : (lo hi : ℕ) (l : List Range) → Chain lo hi l → All (Within lo hi) l
Chain-All lo hi l c = Chain-All_from lo lo hi l (omega arith) c

pub All-Elem {κ} : (P : Range → Type κ) (x : Range) (l : List Range) → Elem x l → All P l → P x
All-Elem P x [] m f = elim m [ ]
All-Elem P x (r ∷ rs) (inl e) f = subst P e f.0
All-Elem P x (r ∷ rs) (inr m) f = All-Elem P x rs m f.1
