-- ===== src/Memory/MemoryMap/Align.antt =====
-- `MemoryMap::copy_aligned_from`: the free memory of the map is the whole pages of the free memory
-- that the BIOS reports.
use ultra_os.Common.{
  ℕ, ◌+◌, ◌-◌, ◌*◌, ◌%◌, ◌^◌, ◌≤◌, ◌<◌, ◌≡◌, ◌≢◌, ◌⊎◌, ◌↔◌, inl, inr, refl, sym, ap, Bool, true,
  false, Fault, Result, subst, List, [], ◌∷◌, ◌++◌, append-nil, All, Any, Any-append, All-append,
  ok, arith, ltb, leb, ◌==◌, ◌||◌, if◌then◌else◌,
}
use native.Mathlib.Decide.{ℕ_discrete, dec_lt}
use ultra_os.Memory.Page.{page_size, round_down}
use ultra_os.Memory.Range.{Range, make, aligned_to, length_of, set_length, is_empty}
use ultra_os.Memory.Range.Bounds.{IsValid}
use ultra_os.Memory.Range.Laws.{In, aligned_to_first}
use ultra_os.Memory.MemoryMap.{
  PhysicalRange, RawRange, MemoryMap, copy_entry, copy_aligned_from, align_physical,
}

-- The page `k` lies in a free range of the map, or in a free entry of the BIOS.
abbrev pub FreePage : ℕ → PhysicalRange → Type 0
FreePage k r = (r.type ≡ 1) × (r.range.begin ≤ k * 4096) × (k * 4096 + 4096 ≤ r.range.end)

abbrev pub RawFreePage : ℕ → RawRange → Type 0
RawFreePage k d =
    (d.type ≡ 1) × (d.base_address ≤ k * 4096) × (k * 4096 + 4096 ≤ d.base_address + d.length)

-- A well-formed range that is not empty and, if it is free, consists of whole pages.
pub record IsClean (r : PhysicalRange) : Type 0 where
  pub valid : IsValid r.range
  pub pages :
      r.type ≡ 1
      → (r.range.begin < r.range.end) × (r.range.begin % 4096 ≡ 0) × (r.range.end % 4096 ≡ 0)

-- An entry whose end is a 64-bit word.
pub record IsSane (d : RawRange) : Type 0 where
  pub no_wrap : d.base_address + d.length < 2 ^ 64

-- What an entry of the BIOS adds to the map.
record Added (d : RawRange) (new : List PhysicalRange) : Type 0 where
  clean : All IsClean new
  pages : (k : ℕ) → Any (FreePage k) new ↔ RawFreePage k d

Adds : RawRange → MemoryMap → Type 0
Adds d m = (new : List PhysicalRange) × (copy_entry d m ≡ ok (m ++ new)) × Added d new

reserved_entry : (d : RawRange) (m : MemoryMap) → IsSane d → d.type ≢ 1 → Adds d m
unfolding copy_entry make Adds
reserved_entry d m s t =
    let r : PhysicalRange = record {
      range = record { begin = d.base_address; end = d.base_address + d.length };
      type = d.type;
    } in
    (
      r ∷ [],
      ground (arith, s),
      record {
        clean = (record { valid = ground (arith, s); pages = λ e. absurd (t e) }, tt);
        pages = λ k. ground arith;
      },
    )

abbrev raw_range : RawRange → Range
raw_range d = record { begin = d.base_address; end = d.base_address + d.length }

-- What the entry adds to the map when aligning has given `c`.
abbrev kept : RawRange → Range → List PhysicalRange
kept d c =
    if is_empty c || ltb (length_of c) page_size
    then []
    else record { range = set_length (round_down (length_of c)) c; type = d.type } ∷ []

abbrev done : MemoryMap → Result Fault MemoryMap
done m = ok m

push_if :
    (b : Bool) (m xs : MemoryMap)
    → (if b then done m else done (m ++ xs)) ≡ done (m ++ (if b then [] else xs))
push_if true m xs = ap ok (sym (append-nil m))
push_if false m xs = refl

free_copy :
    (d : RawRange) (m : MemoryMap) (c : Range)
    → IsSane d
    → d.type ≡ 1
    → aligned_to (raw_range d) 4096 ≡ ok c
    → copy_entry d m ≡ ok (m ++ kept d c)
unfolding copy_entry make align_physical
free_copy d m c s t e =
    let word : (d.base_address + d.length) % 2 ^ 64 ≡ d.base_address + d.length =
      omega (arith, s.no_wrap) in
    let le : leb d.base_address (d.base_address + d.length) ≡ true = ground arith in
    let free : (d.type == 1) ≡ true = ground arith in
    rw (copy_entry, word, le, free, e)
      (push_if (is_empty c || ltb (length_of c) page_size) m
        (record { range = set_length (round_down (length_of c)) c; type = d.type } ∷ []))

kept_short : (d : RawRange) (c : Range) → IsValid c → c.end - c.begin < 4096 → kept d c ≡ []
kept_short d c v h = ground arith

kept_long :
    (d : RawRange) (c : Range)
    → IsValid c
    → ¬ (c.end - c.begin < 4096)
    → c.begin % 4096 ≡ 0
    → kept d c
      ≡ record { range = record { begin = c.begin; end = c.end - c.end % 4096 }; type = d.type }
        ∷ []
unfolding round_down
kept_long d c v h e = ground arith

kept_some :
    (d : RawRange) (c : Range)
    → IsSane d
    → IsValid c
    → d.type ≡ 1
    → c.end ≡ d.base_address + d.length
    → c.begin % 4096 ≡ 0
    → d.base_address ≤ c.begin
    → c.begin < d.base_address + 4096
    → Added d (kept d c)
unfolding round_down
kept_some d c s v t end aligned ge near = elim (dec_lt (c.end - c.begin) 4096) [
  | yes short ↦
      subst (Added d) (sym (kept_short d c v short))
        (record { clean = tt; pages = λ k. ground arith })
  | no long ↦ subst (Added d) (sym (kept_long d c v long aligned)) (record {
    clean = (record { valid = ground arith; pages = λ e. ground arith }, tt);
    pages = λ k. ground arith;
  })
]

nothing_kept : (d : RawRange) → d.type ≡ 1 → ((k : ℕ) → ¬ In (k * 4096) (raw_range d)) → Added d []
nothing_kept d t none_in = record {
  clean = tt;
  pages = λ k. (λ h. absurd h, λ h. absurd (none_in k (h.1, omega (arith, h))));
}

free_entry : (d : RawRange) (m : MemoryMap) → IsSane d → d.type ≡ 1 → Adds d m
unfolding Adds
free_entry d m s t =
    let (c, e, v, shape) =
      aligned_to_first (raw_range d) 4096 (record { ordered = omega arith; word = s.no_wrap })
        (omega arith) (omega arith) in
    (
      kept d c,
      free_copy d m c s t e,
      elim shape [
        | inl (end, lt, aligned, ge, near) ↦ kept_some d c s v t end aligned ge near
        | inr (nothing, none_in) ↦
            subst (Added d) (sym (ap (kept d) nothing)) (nothing_kept d t none_in)
      ],
    )

entry-Adds : (d : RawRange) (m : MemoryMap) → IsSane d → Adds d m
entry-Adds d m s = elim (ℕ_discrete d.type 1) [
  | yes t ↦ free_entry d m s t
  | no t ↦ reserved_entry d m s t
]

chain : {A B C D N R : Type 0} → A ↔ (B ⊎ C) → B ↔ (D ⊎ N) → N ↔ R → A ↔ (D ⊎ (R ⊎ C))
chain (f, f') (g, g') (h, h') = (
  λ a. elim (f a) [
    | inl b ↦ elim (g b) [ inl d ↦ inl d | inr n ↦ inr (inl (h n)) ]
    | inr c ↦ inr (inr c)
  ],
  λ x. elim x [
    | inl d ↦ f' (inl (g' (inl d)))
    | inr y ↦ elim y [ inl r ↦ f' (inl (g' (inr (h' r)))) | inr c ↦ f' (inr c) ]
  ],
)

copies :
    (e820 : List RawRange) (m : MemoryMap)
    → All IsSane e820
    → All IsClean m
    → (m' : MemoryMap) × (copy_aligned_from e820 m ≡ ok m')
      × All IsClean m'
      × ((k : ℕ) → Any (FreePage k) m' ↔ (Any (FreePage k) m ⊎ Any (RawFreePage k) e820))
unfolding copy_aligned_from Adds
copies [] m h c = (m, refl, c, λ k. (inl, λ x. elim x [ inl a ↦ a | inr b ↦ absurd b ]))
copies (d ∷ e820) m h c =
    let (new, e, added) = entry-Adds d m h.0 in
    let (m', e', clean, pages) =
      copies e820 (m ++ new) h.1 (All-append IsClean m new c added.clean) in
    (m', rw e e', clean, λ k. chain (pages k) (Any-append (FreePage k) m new) (added.pages k))

-- Where no entry of the BIOS wraps, copying them does not assert; the entries of the map are well
-- formed, the free ones are whole pages, and a page lies in a free entry of the map
-- exactly when it lies in a free entry of the BIOS.
pub copy_aligned_from_pages :
    (e820 : List RawRange)
    → All IsSane e820
    → (m : MemoryMap) × (copy_aligned_from e820 [] ≡ ok m)
      × All IsClean m
      × ((k : ℕ) → Any (FreePage k) m ↔ Any (RawFreePage k) e820)
copy_aligned_from_pages e820 h =
    let (m, e, clean, pages) = copies e820 [] h tt in
    (
      m,
      e,
      clean,
      λ k. (λ x. elim ((pages k).0 x) [ inl y ↦ absurd y | inr z ↦ z ], λ x. (pages k).1 (inr x)),
    )
