-- ===== src/FileSystem/DiskCache/Lookup.antt =====
-- Lookups among the cached blocks, with one of them taken off and put to the front.
use ultra_os.Common.{
  ℕ, suc, ◌≡◌, ◌≢◌, refl, sym, ap, subst, ◌∙◌, arith, ◌==◌, Bool-cases, none, some, List, [], ◌∷◌,
  length, All, All-map, inl, inr,
}
use ultra_os.FileSystem.DiskCache.{CachedBlock, find_block, pop_off}
use ultra_os.FileSystem.DiskCache.View.{Distinct}
use ultra_os.FileSystem.DiskCache.Cached.{find_block-some}

pub find_block-All :
    (P : CachedBlock → Type 0) (index : ℕ) (blocks : List CachedBlock) (b : CachedBlock)
    → find_block index blocks ≡ some b
    → All P blocks
    → P b × All P (pop_off index blocks)
unfolding find_block pop_off
find_block-All P index [] b found all = absurd (ground (arith, found))
find_block-All P index (c ∷ blocks) b found all = elim (Bool-cases (c.first_block == index)) [
  | inl same ↦
      (let here : c ≡ b = ground (arith, found, same) in (subst P here all.0, rw same all.1))
  | inr other ↦
      (let later : find_block index blocks ≡ some b = ground (arith, found, other) in
        let (at, rest) = find_block-All P index blocks b later all.1 in
        (at, rw other (all.0, rest)))
]

pub pop_off-Distinct :
    (index : ℕ) (blocks : List CachedBlock) (b : CachedBlock)
    → find_block index blocks ≡ some b
    → Distinct blocks
    → All (λ c. c.first_block ≢ index) (pop_off index blocks) × Distinct (pop_off index blocks)
unfolding find_block pop_off
pop_off-Distinct index [] b found d = absurd (ground (arith, found))
pop_off-Distinct index (c ∷ blocks) b found d = elim (Bool-cases (c.first_block == index)) [
  | inl same ↦
      (let first : c.first_block ≡ index = ground (arith, same) in
        rw same (All-map blocks (λ x ne q. ne (q ∙ sym first)) d.0, d.1))
  | inr other ↦
      (let later : find_block index blocks ≡ some b = ground (arith, found, other) in
        let (apart, rest) = pop_off-Distinct index blocks b later d.1 in
        rw other (
          ((λ q. absurd (ground (arith, other, q))), apart),
          ((find_block-All (λ x. x.first_block ≢ c.first_block) index blocks b later d.0).1, rest),
        ))
]

find_block-pop_off :
    (index other : ℕ) (blocks : List CachedBlock)
    → index ≢ other
    → find_block other (pop_off index blocks) ≡ find_block other blocks
unfolding find_block pop_off
find_block-pop_off index other [] ne = refl
find_block-pop_off index other (c ∷ blocks) ne =
    ground (arith, ne, find_block-pop_off index other blocks ne)

pub length-pop_off :
    (index : ℕ) (blocks : List CachedBlock) (b : CachedBlock)
    → find_block index blocks ≡ some b
    → suc (length (pop_off index blocks)) ≡ length blocks
unfolding find_block pop_off
length-pop_off index [] b found = absurd (ground (arith, found))
length-pop_off index (c ∷ blocks) b found = ground (arith, found, length-pop_off index blocks b)

pub find_block-none :
    (index : ℕ) (blocks : List CachedBlock)
    → find_block index blocks ≡ none
    → All (λ c. c.first_block ≢ index) blocks
unfolding find_block
find_block-none index [] missing = tt
find_block-none index (c ∷ blocks) missing = (
  (λ q. absurd (ground (arith, missing, q))),
  find_block-none index blocks (ground (arith, missing)),
)

-- A lookup, once the block at its index is at the front.
pub find_block-front :
    (index other : ℕ) (blocks : List CachedBlock) (b : CachedBlock)
    → find_block index blocks ≡ some b
    → find_block other (b ∷ pop_off index blocks) ≡ find_block other blocks
unfolding find_block
find_block-front index other blocks b found =
    let first = find_block-some index blocks b found in
    elim (Bool-cases (b.first_block == other)) [
      | inl same ↦
          (let e : index ≡ other = ground (arith, same, first) in
            rw same (sym found ∙ ap (λ x. find_block x blocks) e))
      | inr differs ↦
          rw differs (
            find_block-pop_off index other blocks (λ e. absurd (ground (arith, differs, first, e))))
    ]
