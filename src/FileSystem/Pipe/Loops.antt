-- ===== src/FileSystem/Pipe/Loops.antt =====
-- What the copy loops of a pipe have done when they finish, whatever the user's buffer is like.
use ultra_os.Common.{
  ℕ, zero, suc, ◌+◌, ◌-◌, ◌≤◌, ◌≡◌, subst, Bool-cases, inl, inr, Bool, true, List, ◌++◌, arith,
  ◌==◌, length, take, drop, length-drop,
}
use ultra_os.Memory.Range.{min_of}
use ultra_os.FileSystem.Pipe.{State, read_loop, write_loop, finished, copy_out}
use ultra_os.FileSystem.Pipe.Contents.{
  IsValid, advance_read, advance_read-IsValid, advance_write, advance_write-IsValid,
}
use ultra_os.FileSystem.Pipe.Read.{Took, Took-none, Took-more}
use ultra_os.FileSystem.Pipe.Write.{Gave, Gave-none, Gave-more}

zero_of : (n : ℕ) → (n == 0) ≡ true → n ≡ 0
zero_of n e = ground arith

pub read_loop-Took :
    (reachable : ℕ → ℕ → Bool) (fuel bytes : ℕ) (out out' : List ℕ) (s s' : State)
    → IsValid s
    → bytes ≤ s.size
    → read_loop reachable fuel bytes out s ≡ finished out' s'
    → Took s bytes s'
unfolding read_loop
read_loop-Took reachable zero bytes out out' s s' v h e = elim (Bool-cases (bytes == 0)) [
  | inl done ↦
      let q : s ≡ s' = ground arith in
      subst (Took s bytes) q (rw (zero_of bytes done) (Took-none s v))
  | inr more ↦ absurd (ground arith)
]
read_loop-Took reachable (suc fuel) bytes out out' s s' v h e =
    let n = min_of bytes (s.capacity - s.read_offset) in
    elim (Bool-cases (bytes == 0)) [
      | inl done ↦
          let q : s ≡ s' = ground arith in
          subst (Took s bytes) q (rw (zero_of bytes done) (Took-none s v))
      | inr more ↦ Took-more s s' n bytes v (ground arith) h (ground arith) (
          read_loop-Took reachable fuel (bytes - n) (out ++ copy_out s.buffer s.read_offset n) out'
            (advance_read s n) s' (advance_read-IsValid s n v (ground arith) (ground arith))
            (ground arith) (ground arith))
    ]

pub write_loop-Gave :
    (reachable : ℕ → ℕ → Bool) (fuel position bytes : ℕ) (input out : List ℕ) (s s' : State)
    → IsValid s
    → bytes ≤ length input
    → bytes ≤ s.capacity - s.size
    → write_loop reachable fuel position bytes input s ≡ finished out s'
    → Gave s (take bytes input) bytes s'
unfolding write_loop
write_loop-Gave reachable zero position bytes input out s s' v l k e =
    elim (Bool-cases (bytes == 0)) [
      | inl done ↦
          let q : s ≡ s' = ground arith in
          subst (Gave s (take bytes input) bytes) q (rw (zero_of bytes done) (Gave-none s v))
      | inr more ↦ absurd (ground arith)
    ]
write_loop-Gave reachable (suc fuel) position bytes input out s s' v l k e =
    let n = min_of bytes (s.capacity - s.write_offset) in
    let chunk = take n input in
    elim (Bool-cases (bytes == 0)) [
      | inl done ↦
          let q : s ≡ s' = ground arith in
          subst (Gave s (take bytes input) bytes) q (rw (zero_of bytes done) (Gave-none s v))
      | inr more ↦ Gave-more s s' n bytes input v (ground arith) l k (ground arith) (
          write_loop-Gave reachable fuel (position + n) (bytes - n) (drop n input) out
            (advance_write s chunk n) s'
            (advance_write-IsValid s chunk n v (ground arith) (ground arith))
            (ground (arith, length-drop n input)) (ground (arith, v)) (ground arith))
    ]
