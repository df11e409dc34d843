-- ===== src/Memory/VirtualAllocator/Merge.antt =====
-- `merge_and_emplace`: a new range joins the neighbours that it touches, and the invariant is kept.
use ultra_os.Common.{
  ℕ, ◌≡◌, refl, ◌⊎◌, ◌↔◌, false, List, Option, none, some, ok, arith, All, All-map, All-map₂, Elem,
}
use native.Mathlib.Decide.{ℕ_discrete}
use ultra_os.Memory.Range.{Range}
use ultra_os.Memory.Range.Laws.{In}
use ultra_os.Memory.VirtualAllocator.{merge_and_emplace, ends_at, begins_at}
use ultra_os.Memory.VirtualAllocator.RangeSet.{remove, emplace}
use ultra_os.Memory.VirtualAllocator.Invariant.{
  Chain, Covered, Apart, Within, Chain-All, All-Elem, emplace-Chain, emplace-Covered, Elem-Apart,
  remove-Chain, remove-All, remove-Elem, remove-Covered,
}

-- `new` is apart from `r`, or touches it as the neighbour on that side.
abbrev pub Beside : Option Range → Option Range → Range → Range → Type 0
Beside prev next new r =
    Apart new r ⊎ ((prev ≡ some r) × (r.end ≡ new.begin)) ⊎ ((next ≡ some r) × (new.end ≡ r.begin))

-- The range, where there is one, is an element.
abbrev pub ElemOf : Option Range → List Range → Type 0
ElemOf none l = Unit
ElemOf (some x) l = Elem x l

-- What `merge_and_emplace` needs of its arguments.
pub record CanMerge (lo hi : ℕ) (l : List Range) (prev next : Option Range) (new : Range)
    : Type 0 where
  pub chain : Chain lo hi l
  pub within : Within lo hi new
  pub prev_in : ElemOf prev l
  pub next_in : ElemOf next l
  pub beside : All (Beside prev next new) l

-- `l'` holds the addresses of `l` and those of `new`.
abbrev pub Adds : ℕ → ℕ → List Range → Range → List Range → Type 0
Adds lo hi l new l' = Chain lo hi l' × ((a : ℕ) → Covered a l' ↔ (In a new ⊎ Covered a l))

pub emplace-Adds :
    (lo hi : ℕ) (l : List Range) (y : Range)
    → Chain lo hi l
    → Within lo hi y
    → All (Apart y) l
    → Adds lo hi l y (emplace y l)
emplace-Adds lo hi l y c w f = (
  emplace-Chain y lo hi l c w.1 w.0 w.2 f,
  λ a. emplace-Covered y a l f w.1 (All-map l (λ r h. h.1) (Chain-All lo hi l c)),
)

-- One neighbour `x` is taken out, and `y` covers it and `new`.
merge_one :
    (lo hi : ℕ) (l : List Range) (x y new : Range)
    → Chain lo hi l
    → Elem x l
    → Within lo hi y
    → All (λ r. (r ≡ x) ⊎ Apart y r) l
    → ((a : ℕ) → In a y ↔ (In a new ⊎ In a x))
    → Adds lo hi l new (emplace y (remove x l))
merge_one lo hi l x y new c m w f e =
    let added =
      emplace-Adds lo hi (remove x l) y (remove-Chain x lo hi l c) w
        (remove-All (Apart y) x lo hi l c m f) in
    (
      added.0,
      λ a.
          let i = added.1 a in
          let j = remove-Covered x a lo hi l c m in
          let k = e a in (ground (arith, i, j, k), ground (arith, i, j, k)),
    )

-- What `Beside` comes to, by the neighbours that are mergeable.
module _ (prev next : Option Range) (new r : Range) (beside : Beside prev next new r) where
  beside_none : ends_at prev new.begin ≡ false → begins_at next new.end ≡ false → Apart new r
  beside_none f g = ground arith

  beside_left : (b : Range) → prev ≡ some b → begins_at next new.end ≡ false → (r ≡ b) ⊎ Apart new r
  beside_left b e g = ground arith

  beside_right :
      (n : Range) → next ≡ some n → ends_at prev new.begin ≡ false → (r ≡ n) ⊎ Apart new r
  beside_right n e g = ground arith

  beside_both : (b n : Range) → prev ≡ some b → next ≡ some n → (r ≡ b) ⊎ (r ≡ n) ⊎ Apart new r
  beside_both b n e g = ground arith

-- Two ranges that touch, as one.
abbrev span : Range → Range → Range
span b n = record { begin = b.begin; end = n.end }

-- An element of a chain, beside the element `x`.
abbrev Other : ℕ → ℕ → Range → Range → Type 0
Other lo hi x r = Within lo hi r × ((r ≡ x) ⊎ Apart x r)

others : (lo hi : ℕ) (l : List Range) (x : Range) → Chain lo hi l → Elem x l → All (Other lo hi x) l
others lo hi l x c m = All-map₂ l (λ r p q. (p, q)) (Chain-All lo hi l c) (Elem-Apart x lo hi l c m)

module _ (lo hi : ℕ) (l : List Range) (new : Range) (c : Chain lo hi l) (w : Within lo hi new) where
  -- The ranges that are apart from `x` and from `new`, which touch, are apart from both as one.
  Apart-left :
      (x : Range)
      → Elem x l
      → x.end ≡ new.begin
      → All (λ r. (r ≡ x) ⊎ Apart new r) l
      → All (λ r. (r ≡ x) ⊎ Apart (span x new) r) l
  Apart-left x m e f = All-map₂ l (λ r p q. ground (arith, p, q)) (others lo hi l x c m) f

  Apart-right :
      (x : Range)
      → Elem x l
      → new.end ≡ x.begin
      → All (λ r. (r ≡ x) ⊎ Apart new r) l
      → All (λ r. (r ≡ x) ⊎ Apart (span new x) r) l
  Apart-right x m e f = All-map₂ l (λ r p q. ground (arith, p, q)) (others lo hi l x c m) f

  merge_left :
      (x : Range)
      → Elem x l
      → x.end ≡ new.begin
      → All (λ r. (r ≡ x) ⊎ Apart new r) l
      → Adds lo hi l new (emplace (span x new) (remove x l))
  merge_left x m e f =
      let u = All-Elem (Within lo hi) x l m (Chain-All lo hi l c) in
      merge_one lo hi l x (span x new) new c m (omega (arith, u)) (Apart-left x m e f)
        (λ a. (ground (arith, u), ground (arith, u)))

  merge_right :
      (x : Range)
      → Elem x l
      → new.end ≡ x.begin
      → All (λ r. (r ≡ x) ⊎ Apart new r) l
      → Adds lo hi l new (emplace (span new x) (remove x l))
  merge_right x m e f =
      let u = All-Elem (Within lo hi) x l m (Chain-All lo hi l c) in
      merge_one lo hi l x (span new x) new c m (omega (arith, u)) (Apart-right x m e f)
        (λ a. (ground (arith, u), ground (arith, u)))

  Apart-both :
      (b n : Range)
      → Elem b l
      → Elem n l
      → b.end ≡ new.begin
      → new.end ≡ n.begin
      → All (λ r. (r ≡ b) ⊎ (r ≡ n) ⊎ Apart new r) l
      → All (λ r. (r ≡ b) ⊎ ((r ≡ n) ⊎ Apart (span b n) r)) l
  Apart-both b n m k e f h =
      All-map₂ {P = λ r. Other lo hi b r × Other lo hi n r} l (λ r p q. ground (arith, p, q))
        (All-map₂ l (λ r p q. (p, q)) (others lo hi l b c m) (others lo hi l n c k)) h

  merge_both :
      (b n : Range)
      → Elem b l
      → Elem n l
      → b.end ≡ new.begin
      → new.end ≡ n.begin
      → All (λ r. (r ≡ b) ⊎ (r ≡ n) ⊎ Apart new r) l
      → Adds lo hi l new (emplace (span b n) (remove n (remove b l)))
  merge_both b n m k e f h =
      let u = All-Elem (Within lo hi) b l m (Chain-All lo hi l c) in
      let v = All-Elem (Within lo hi) n l k (Chain-All lo hi l c) in
      let rest = remove b l in
      let k' = remove-Elem b n l k (ground (arith, u)) in
      let f' =
        remove-All (λ r. (r ≡ n) ⊎ Apart (span b n) r) b lo hi l c m (Apart-both b n m k e f h) in
      let added =
        merge_one lo hi rest n (span b n) (span b new) (remove-Chain b lo hi l c) k'
          (omega (arith, u, v)) f' (λ a. (ground (arith, u, v), ground (arith, u, v))) in
      (
        added.0,
        λ a.
            let i = added.1 a in
            let j = remove-Covered b a lo hi l c m in
            (ground (arith, i, j), ground (arith, i, j, u)),
      )

-- The four outcomes of the two tests.
abbrev Merges : ℕ → ℕ → List Range → Option Range → Option Range → Range → Type 0
Merges lo hi l prev next new =
    (l' : List Range) × (merge_and_emplace l prev next new ≡ ok l') × Adds lo hi l new l'

module _ (lo hi : ℕ) (l : List Range) (new : Range) where
  Merges-none :
      (prev next : Option Range)
      → CanMerge lo hi l prev next new
      → ends_at prev new.begin ≡ false
      → begins_at next new.end ≡ false
      → Merges lo hi l prev next new
  unfolding merge_and_emplace
  Merges-none prev next v far apart = (
    emplace new l,
    rw (far, apart),
    emplace-Adds lo hi l new v.chain v.within
        (All-map l (λ r h. beside_none prev next new r h far apart) v.beside),
  )

  Merges-left :
      (b : Range) (next : Option Range)
      → CanMerge lo hi l (some b) next new
      → b.end ≡ new.begin
      → begins_at next new.end ≡ false
      → Merges lo hi l (some b) next new
  unfolding merge_and_emplace
  Merges-left b next v e apart =
      let u = All-Elem (Within lo hi) b l v.prev_in (Chain-All lo hi l v.chain) in
      (
        emplace (span b new) (remove b l),
        ground (arith, u),
        merge_left lo hi l new v.chain v.within b v.prev_in e
            (All-map l (λ r h. beside_left (some b) next new r h b refl apart) v.beside),
      )

  Merges-right :
      (prev : Option Range) (n : Range)
      → CanMerge lo hi l prev (some n) new
      → ends_at prev new.begin ≡ false
      → new.end ≡ n.begin
      → Merges lo hi l prev (some n) new
  unfolding merge_and_emplace
  Merges-right prev n v far e =
      let u = All-Elem (Within lo hi) n l v.next_in (Chain-All lo hi l v.chain) in
      (
        emplace (span new n) (remove n l),
        ground (arith, u),
        merge_right lo hi l new v.chain v.within n v.next_in e
            (All-map l (λ r h. beside_right prev (some n) new r h n refl far) v.beside),
      )

  Merges-both :
      (b n : Range)
      → CanMerge lo hi l (some b) (some n) new
      → b.end ≡ new.begin
      → new.end ≡ n.begin
      → Merges lo hi l (some b) (some n) new
  unfolding merge_and_emplace
  Merges-both b n v e f =
      let u = All-Elem (Within lo hi) b l v.prev_in (Chain-All lo hi l v.chain) in
      let w = All-Elem (Within lo hi) n l v.next_in (Chain-All lo hi l v.chain) in
      (
        emplace (span b n) (remove n (remove b l)),
        ground (arith, u, w),
        merge_both lo hi l new v.chain v.within b n v.prev_in v.next_in e f
            (All-map l (λ r h. beside_both (some b) (some n) new r h b n refl refl) v.beside),
      )

-- `merge_and_emplace` does not assert, and its result holds the old addresses and those of the new
-- range, in ranges that are in order and do not touch one another.
pub merge_and_emplace_lem :
    (lo hi : ℕ) (l : List Range) (prev next : Option Range) (new : Range)
    → CanMerge lo hi l prev next new
    → (l' : List Range) × (merge_and_emplace l prev next new ≡ ok l') × Adds lo hi l new l'
merge_and_emplace_lem lo hi l none none new v = Merges-none lo hi l new none none v refl refl
merge_and_emplace_lem lo hi l (some b) none new v = elim (ℕ_discrete b.end new.begin) [
  | yes e ↦ Merges-left lo hi l new b none v e refl
  | no ne ↦ Merges-none lo hi l new (some b) none v (ground arith) refl
]
merge_and_emplace_lem lo hi l none (some n) new v = elim (ℕ_discrete new.end n.begin) [
  | yes e ↦ Merges-right lo hi l new none n v refl e
  | no ne ↦ Merges-none lo hi l new none (some n) v refl (ground arith)
]
merge_and_emplace_lem lo hi l (some b) (some n) new v = elim (ℕ_discrete b.end new.begin) [
  | yes e ↦ elim (ℕ_discrete new.end n.begin) [
    | yes f ↦ Merges-both lo hi l new b n v e f
    | no nf ↦ Merges-left lo hi l new b (some n) v e (ground arith)
  ]
  | no ne ↦ elim (ℕ_discrete new.end n.begin) [
    | yes f ↦ Merges-right lo hi l new (some b) n v (ground arith) f
    | no nf ↦ Merges-none lo hi l new (some b) (some n) v (ground arith) (ground arith)
  ]
]
