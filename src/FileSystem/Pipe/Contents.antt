-- ===== src/FileSystem/Pipe/Contents.antt =====
-- The bytes that a pipe holds, oldest first, and what one copy does to them.
use ultra_os.Common.{
  ℕ, zero, suc, ◌+◌, ◌-◌, ◌≤◌, ◌<◌, ◌≡◌, ◌⊎◌, inl, refl, ap, ap₂, ◌∙◌, List, [], ◌∷◌, ◌++◌, arith,
  ltb, if◌then◌else◌, length, get_or, set, length-set, get_or-set_self, get_or-set_ne, tabulate,
  tabulate-append, tabulate_ext, tabulate-get_or, length-tabulate,
}
use ultra_os.FileSystem.Pipe.{State, copy_out, copy_in, wrap_offset}

-- An index that has gone round the end of the buffer at most once.
abbrev pub wrapped : ℕ → ℕ → ℕ
wrapped capacity x = if ltb x capacity then x else x - capacity

abbrev pub contents : State → List ℕ
contents s = tabulate s.size (λ i. get_or s.buffer (wrapped s.capacity (s.read_offset + i)) 0)

pub record IsValid (s : State) : Type 0 where
  pub region : length s.buffer ≡ s.capacity
  pub room : 0 < s.capacity
  pub read_in : s.read_offset < s.capacity
  pub fits : s.size ≤ s.capacity
  pub write_at : s.write_offset ≡ wrapped s.capacity (s.read_offset + s.size)

pub length-contents : (s : State) → length (contents s) ≡ s.size
length-contents s =
    length-tabulate s.size (λ i. get_or s.buffer (wrapped s.capacity (s.read_offset + i)) 0)

-- The state after a copy of `n` bytes out of the buffer.
abbrev pub advance_read : State → ℕ → State
advance_read s n = record s {
  read_offset = wrap_offset s.capacity (s.read_offset + n);
  size = s.size - n;
}

pub advance_read-IsValid :
    (s : State) (n : ℕ)
    → IsValid s
    → n ≤ s.size
    → n ≤ s.capacity - s.read_offset
    → IsValid (advance_read s n)
advance_read-IsValid s n v h k = ground arith

-- A copy up to the end of the buffer takes the oldest bytes.
pub contents-advance_read :
    (s : State) (n : ℕ)
    → IsValid s
    → n ≤ s.size
    → n ≤ s.capacity - s.read_offset
    → contents s ≡ copy_out s.buffer s.read_offset n ++ contents (advance_read s n)
contents-advance_read s n v h k =
    let f = λ (i : ℕ). get_or s.buffer (wrapped s.capacity (s.read_offset + i)) 0 in
    let e : s.size ≡ n + (s.size - n) = omega arith in
    ap (λ m. tabulate m f) e
    ∙ tabulate-append n (s.size - n) f
    ∙ ap₂ ◌++◌
        (tabulate_ext n f (λ i. get_or s.buffer (s.read_offset + i) 0)
          (λ i p. ap (λ j. get_or s.buffer j 0) (ground arith)))
        (tabulate_ext (s.size - n) (λ i. f (n + i))
          (λ i.
            get_or s.buffer (wrapped s.capacity (wrap_offset s.capacity (s.read_offset + n) + i)) 0)
          (λ i p. ap (λ j. get_or s.buffer j 0) (ground arith)))

pub length-copy_in :
    (buffer : List ℕ) (offset : ℕ) (xs : List ℕ) → length (copy_in buffer offset xs) ≡ length buffer
unfolding copy_in
length-copy_in buffer offset [] = refl
length-copy_in buffer offset (x ∷ xs) =
    length-copy_in (set buffer offset x) (offset + 1) xs ∙ length-set buffer offset x

get_or-copy_in_out :
    (buffer : List ℕ) (offset : ℕ) (xs : List ℕ) (j : ℕ)
    → (j < offset) ⊎ (offset + length xs ≤ j)
    → get_or (copy_in buffer offset xs) j 0 ≡ get_or buffer j 0
unfolding copy_in
get_or-copy_in_out buffer offset [] j h = refl
get_or-copy_in_out buffer offset (x ∷ xs) j h =
    get_or-copy_in_out (set buffer offset x) (offset + 1) xs j (omega arith)
    ∙ get_or-set_ne buffer offset j x 0 (omega arith)

get_or-copy_in :
    (buffer : List ℕ) (offset : ℕ) (xs : List ℕ) (i : ℕ)
    → offset + length xs ≤ length buffer
    → i < length xs
    → get_or (copy_in buffer offset xs) (offset + i) 0 ≡ get_or xs i 0
unfolding copy_in
get_or-copy_in buffer offset [] i h k = absurd (omega arith)
get_or-copy_in buffer offset (x ∷ xs) zero h k =
    let e : offset + zero ≡ offset = omega arith in
    rw e (
      get_or-copy_in_out (set buffer offset x) (offset + 1) xs offset (inl (omega arith))
      ∙ get_or-set_self buffer offset x 0 (omega arith))
get_or-copy_in buffer offset (x ∷ xs) (suc i) h k =
    let e : offset + suc i ≡ (offset + 1) + i = omega arith in
    rw e (
      get_or-copy_in (set buffer offset x) (offset + 1) xs i
        (omega (arith, length-set buffer offset x)) (omega arith))

-- The state after a copy of `xs` into the buffer.
abbrev pub advance_write : State → List ℕ → ℕ → State
advance_write s xs n = record s {
  buffer = copy_in s.buffer s.write_offset xs;
  write_offset = wrap_offset s.capacity (s.write_offset + n);
  size = s.size + n;
}

pub advance_write-IsValid :
    (s : State) (xs : List ℕ) (n : ℕ)
    → IsValid s
    → n ≤ s.capacity - s.size
    → n ≤ s.capacity - s.write_offset
    → IsValid (advance_write s xs n)
advance_write-IsValid s xs n v h k = ground (arith, length-copy_in s.buffer s.write_offset xs)

-- A copy up to the end of the buffer, or to the oldest byte, appends its bytes.
pub contents-advance_write :
    (s : State) (xs : List ℕ) (n : ℕ)
    → IsValid s
    → length xs ≡ n
    → n ≤ s.capacity - s.size
    → n ≤ s.capacity - s.write_offset
    → contents (advance_write s xs n) ≡ contents s ++ xs
contents-advance_write s xs n v e h k =
    let buffer = copy_in s.buffer s.write_offset xs in
    let f = λ (i : ℕ). get_or buffer (wrapped s.capacity (s.read_offset + i)) 0 in
    tabulate-append s.size n f
    ∙ ap₂ ◌++◌
        (tabulate_ext s.size f (λ i. get_or s.buffer (wrapped s.capacity (s.read_offset + i)) 0)
          (λ i p.
            get_or-copy_in_out s.buffer s.write_offset xs (wrapped s.capacity (s.read_offset + i))
              (ground arith)))
        (tabulate_ext n (λ i. f (s.size + i)) (λ i. get_or xs i 0)
            (λ i p.
              ap (λ j. get_or buffer j 0) (ground arith)
              ∙ get_or-copy_in s.buffer s.write_offset xs i (ground arith) (omega arith))
          ∙ tabulate-get_or xs n 0 e)
