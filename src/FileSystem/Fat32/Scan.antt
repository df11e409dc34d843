-- ===== src/FileSystem/Fat32/Scan.antt =====
-- A round of `allocate_cluster_chain` takes the first free clusters of its stretch of the table.
use ultra_os.Common.{
  ℕ, zero, suc, ◌+◌, ◌≤◌, ◌<◌, ◌≡◌, ◌≢◌, ◌⊎◌, inl, inr, refl, sym, ap, ◌∙◌, arith, true, false, not,
  ◌==◌, if◌then◌else◌, Bool-cases, List, [], ◌∷◌, ◌++◌, append-nil, append_assoc, length,
  length-append, take,
}
use ultra_os.FileSystem.Fat32.{
  entry_type_of_fat_value, is_free, Entries, Chaining, set_entry, free_cluster, take_cluster, scan,
}
use ultra_os.FileSystem.Fat32.Table.{
  free_from, linked, last_of, is_free_lem, set_entry_free, free_from_ext,
}

ℕ-cases : (n : ℕ) → (n ≡ 0) ⊎ ((m : ℕ) × (n ≡ suc m))
ℕ-cases zero = inl refl
ℕ-cases (suc n) = inr (n, refl)

-- The state with a list of clusters taken.
abbrev pub taken : Chaining → List ℕ → Chaining
taken c cs = record {
  table = linked c.table c.prev cs;
  prev = last_of c.prev cs;
  chain = c.chain ++ cs;
}

abbrev pub IsOutside : Chaining → ℕ → ℕ → Type 0
IsOutside c n cluster =
    (x : ℕ) → cluster ≤ x → x < cluster + n → (x ≢ c.prev) ⊎ (c.table c.prev ≢ free_cluster)

taken_step :
    (c : Chaining) (cluster : ℕ) (cs : List ℕ)
    → taken (take_cluster cluster c) cs ≡ taken c (cluster ∷ cs)
unfolding linked last_of
taken_step c cluster cs =
    ap
      (λ chain. record {
        table = linked c.table c.prev (cluster ∷ cs);
        prev = last_of cluster cs;
        chain = chain;
      })
      (append_assoc c.chain (cluster ∷ []) cs)

pub taken-append : (c : Chaining) (xs ys : List ℕ) → taken (taken c xs) ys ≡ taken c (xs ++ ys)
unfolding linked last_of
taken-append c [] ys = ap (λ chain. taken (record c { chain = chain }) ys) (append-nil c.chain)
taken-append c (x ∷ xs) ys =
    ap (λ d. taken d ys) (sym (taken_step c x xs))
    ∙ taken-append (take_cluster x c) xs ys
    ∙ taken_step c x (xs ++ ys)

-- A round at a cluster in use, at the last that is wanted, and at another free one.
scan_used :
    (count n cluster k : ℕ) (c : Chaining)
    → count ≡ length c.chain + suc k
    → (c.table cluster == free_cluster) ≡ false
    → scan count (suc n) cluster c ≡ scan count n (cluster + 1) c
unfolding scan
scan_used count n cluster k c size used =
    let kind : is_free (entry_type_of_fat_value (c.table cluster)) ≡ false =
      is_free_lem (c.table cluster) ∙ used in
    let more : (length c.chain == count) ≡ false = ground (arith, size) in rw (kind, more) refl

scan_last :
    (count n cluster : ℕ) (c : Chaining)
    → count ≡ length c.chain + 1
    → (c.table cluster == free_cluster) ≡ true
    → scan count (suc n) cluster c ≡ take_cluster cluster c
unfolding scan
scan_last count n cluster c size unused =
    let kind : is_free (entry_type_of_fat_value (c.table cluster)) ≡ true =
      is_free_lem (c.table cluster) ∙ unused in
    let done : (length (c.chain ++ cluster ∷ []) == count) ≡ true =
      ground (arith, size, length-append c.chain (cluster ∷ [])) in
    rw (kind, done) refl

scan_unused :
    (count n cluster k : ℕ) (c : Chaining)
    → count ≡ length c.chain + suc (suc k)
    → (c.table cluster == free_cluster) ≡ true
    → scan count (suc n) cluster c ≡ scan count n (cluster + 1) (take_cluster cluster c)
unfolding scan
scan_unused count n cluster k c size unused =
    let kind : is_free (entry_type_of_fat_value (c.table cluster)) ≡ true =
      is_free_lem (c.table cluster) ∙ unused in
    let more : (length (c.chain ++ cluster ∷ []) == count) ≡ false =
      ground (arith, size, length-append c.chain (cluster ∷ [])) in
    rw (kind, more) refl

pub set_entry_zero :
    (entries : Entries) (prev c : ℕ)
    → (if not (prev == free_cluster) then set_entry prev c entries else entries) 0 ≡ entries 0
set_entry_zero entries prev c = ground arith

pub scan_lem :
    (count n cluster k : ℕ) (c : Chaining)
    → count ≡ length c.chain + suc k
    → c.table 0 ≢ free_cluster
    → IsOutside c n cluster
    → scan count n cluster c ≡ taken c (take (suc k) (free_from c.table n cluster))
unfolding scan free_from linked last_of
scan_lem count zero cluster k c size zeroth outside =
    ap (λ chain. record { table = c.table; prev = c.prev; chain = chain })
      (sym (append-nil c.chain))
scan_lem count (suc n) cluster k c size zeroth outside =
    elim (Bool-cases (c.table cluster == free_cluster)) [
      | inr used ↦
          scan_used count n cluster k c size used
          ∙ scan_lem count n (cluster + 1) k c size zeroth
              (λ x low high. outside x (omega (arith, low)) (omega (arith, high)))
          ∙ ap (λ cs. taken c (take (suc k) cs)) (rw used refl)
      | inl unused ↦
          (let nonzero : cluster ≢ free_cluster =
              λ e. zeroth (ap c.table (sym e) ∙ ground (arith, unused)) in
            let kept = set_entry_free c.table c.prev cluster in
            elim (ℕ-cases k) [
              | inl e ↦
                  scan_last count n cluster c (omega (arith, size, e)) unused ∙ rw (e, unused) refl
              | inr (k', e) ↦
                  (let c' = take_cluster cluster c in
                    scan_unused count n cluster k' c (omega (arith, size, e)) unused
                    ∙ scan_lem count n (cluster + 1) k' c'
                        (omega (arith, size, e, length-append c.chain (cluster ∷ [])))
                        (λ q. zeroth (sym (set_entry_zero c.table c.prev cluster) ∙ q))
                        (λ x low high. inl (omega (arith, low)))
                    ∙ ap (λ cs. taken c' (take (suc k') cs))
                        (free_from_ext c'.table c.table n (cluster + 1) (λ x low high.
                          kept x nonzero (outside x (omega (arith, low)) (omega (arith, high)))))
                    ∙ taken_step c cluster (take (suc k') (free_from c.table n (cluster + 1)))
                    ∙ rw (e, unused) refl)
            ])
    ]
