-- ===== src/Nvme/Prp/Covers.antt =====
-- The PRP entries of a command describe exactly its buffer.
use native.Mathlib.Decide.{dec_lt}
use s3blk.Base.{
  ℕ, zero, suc, ◌+◌, ◌-◌, ◌*◌, ◌%◌, ◌^◌, ◌<◌, ◌≤◌, ◌≡◌, arith, true, false, ltb, leb, ◌==◌,
  if◌then◌else◌, List, [], ◌∷◌, min, u64, refl,
}
use s3blk.Base.Int.{pos, einval}
use s3blk.Nvme.Types.{TgtData, Dptr, prps, sgl, page_size}
use s3blk.Nvme.Dma.{use_iommu}
use s3blk.Nvme.Prp.{max_prps, prp_entries, first_page_len, setup_prps}

-- How a controller reads a PRP list for `len` bytes: a page for each entry, the last one in part.
abbrev list_chunks : List ℕ → ℕ → List (ℕ × ℕ)
list_chunks [] len = []
list_chunks (p ∷ ps) len = (p, min page_size len) ∷ list_chunks ps (len - page_size)

-- How a controller reads the data pointer of a command for `len` bytes, when the entries of a PRP
-- list stand at `list_iova` in memory and none elsewhere: pairs of an address and a length.
abbrev pub chunks : Dptr → ℕ → List ℕ → ℕ → List (ℕ × ℕ)
chunks (prps prp1 prp2) list_iova entries len =
    let first = min len (page_size - prp1 % page_size) in
    let rest = len - first in
    let found = if prp2 == list_iova then entries else [] in
    (prp1, first)
    ∷ (if rest == 0
        then []
        else if leb rest page_size
        then ((prp2, rest) ∷ [])
        else list_chunks found rest)
chunks (sgl s) list_iova entries len = []

-- The chunks follow one another from `a` on, each inside a page, and make up `len` bytes.
abbrev pub Covers : ℕ → ℕ → List (ℕ × ℕ) → Type 0
Covers a len [] = len ≡ 0
Covers a len ((p, n) ∷ r) =
    (p ≡ a) × (p % page_size + n ≤ page_size) × (n ≤ len) × Covers (a + n) (len - n) r

prp_entries_done : (k a : ℕ) → prp_entries k a 0 ≡ ([], 0)
unfolding prp_entries
prp_entries_done zero a = refl
prp_entries_done (suc k) a = refl

prp_entries_full : (a left : ℕ) → prp_entries 0 a left ≡ ([], left)
unfolding prp_entries
prp_entries_full a left = refl

-- One round of the loop on `left` bytes that are not yet described.
prp_entries_more :
    (k a left : ℕ)
    → a + page_size < 2 ^ 64
    → 0 < left
    → let (entries, rest) = prp_entries k (a + page_size) (left - page_size) in
      prp_entries (suc k) a left ≡ (a ∷ entries, rest)
unfolding prp_entries
prp_entries_more k a left hs hl =
    let e : u64 (a + page_size) ≡ a + page_size = omega arith in
    let f : (if ltb page_size left then left - page_size else 0) ≡ left - page_size =
      ground arith in
    let g : (left == 0) ≡ false = ground arith in rw (e, f, g)

-- The list's loop fills in page after page, and stops with everything covered if `k` entries are
-- enough.
prp_entries-Covers :
    (k a left : ℕ)
    → a % page_size ≡ 0
    → a + left < 2 ^ 64 - page_size
    → left ≤ k * page_size
    → Covers a left (list_chunks (prp_entries k a left).0 left) × ((prp_entries k a left).1 ≡ 0)
prp_entries-Covers zero a left ha hs hk =
    let e : left ≡ 0 = omega arith in rw (e, prp_entries_done 0 a) (refl, refl)
prp_entries-Covers (suc k) a left ha hs hk = elim (dec_lt 0 left) [
  | no none_left ↦ let e : left ≡ 0 = omega arith in rw (e, prp_entries_done (suc k) a) (refl, refl)
  | yes some_left ↦
      rw (prp_entries_more k a left (omega arith) some_left) (elim (dec_lt left page_size) [
        | yes last ↦
            let e : left - page_size ≡ 0 = omega arith in
            let m : min page_size left ≡ left = omega arith in
            rw (e, prp_entries_done k (a + page_size), m)
              ((refl, omega arith, omega arith, omega arith), refl)
        | no whole ↦
            let m : min page_size left ≡ page_size = omega arith in
            let rest =
              prp_entries-Covers k (a + page_size) (left - page_size) (omega arith) (omega arith)
                (omega arith) in
            rw m ((refl, omega arith, omega arith, rest.0), rest.1)
      ])
]

-- Too long a buffer: the loop stops with bytes left.
prp_entries-overflow :
    (k a left : ℕ)
    → a + left < 2 ^ 64 - page_size
    → k * page_size < left
    → 0 < (prp_entries k a left).1
prp_entries-overflow zero a left hs hk = rw prp_entries_full (omega arith)
prp_entries-overflow (suc k) a left hs hk =
    rw (prp_entries_more k a left (omega arith) (omega arith))
      (prp_entries-overflow k (a + page_size) (left - page_size) (omega arith) (omega arith))

first_page_len-min :
    (iova len : ℕ) → first_page_len iova len ≡ min len (page_size - iova % page_size)
first_page_len-min iova len = ground arith

-- What the three branches of nvme_setup_prps give with an IOMMU, for a first page of `f` bytes.
module _ (d : TgtData) (list_iova io_buf iova len : ℕ) (iommu : use_iommu d ≡ true) where
  abbrev rest : ℕ
  rest = len - first_page_len iova len

  setup_prps_one :
      rest ≡ 0
      → setup_prps d list_iova io_buf iova len
        ≡ record { ret = pos 0; dptr = prps iova 0; entries = [] }
  unfolding setup_prps
  setup_prps_one e = ground arith

  setup_prps_two :
      0 < rest
      → rest ≤ page_size
      → setup_prps d list_iova io_buf iova len ≡ record {
        ret = pos 0;
        dptr = prps iova (u64 (iova + first_page_len iova len));
        entries = [];
      }
  unfolding setup_prps
  setup_prps_two lo hi = ground arith

  setup_prps_list :
      page_size < rest
      → let (entries, left) = prp_entries max_prps (u64 (iova + first_page_len iova len)) rest in
        setup_prps d list_iova io_buf iova len ≡ record {
          ret = if ltb 0 left then einval else pos 0;
          dptr = prps iova list_iova;
          entries = entries;
        }
  unfolding setup_prps
  setup_prps_list lo = ground arith

-- The controller's view of a PRP list behind a first page.
chunks-Covers_list :
    (list_iova iova len f : ℕ) (entries : List ℕ)
    → f ≡ min len (page_size - iova % page_size)
    → page_size < len - f
    → Covers (iova + f) (len - f) (list_chunks entries (len - f))
    → Covers iova len (chunks (prps iova list_iova) list_iova entries len)
chunks-Covers_list list_iova iova len f entries e lo c =
    let z : (len - f == 0) ≡ false = ground arith in
    let w : leb (len - f) page_size ≡ false = ground arith in
    let at : (list_iova == list_iova) ≡ true = ground arith in
    rw (← e, z, w, at) (refl, omega arith, omega arith, c)

-- With an IOMMU, a buffer of at least one byte and at most 2 MiB, at any address below 2^63,
-- always gets its PRP entries, and what the controller reads from them, with those of the list at
-- the iova of the list's page and nowhere else, is exactly the buffer, cut at pages.
pub setup_prps-Covers :
    (d : TgtData) (list_iova io_buf iova len : ℕ)
    → use_iommu d ≡ true
    → 0 < len
    → len ≤ 2 ^ 21
    → iova < 2 ^ 63
    → let r = setup_prps d list_iova io_buf iova len in
      (r.ret ≡ pos 0) × Covers iova len (chunks r.dptr list_iova r.entries len)
setup_prps-Covers d list_iova io_buf iova len hi h0 hl ha =
    elim (dec_lt page_size (rest d list_iova io_buf iova len hi)) [
      | yes long ↦
          let f = first_page_len-min iova len in
          let n_eq : u64 (iova + first_page_len iova len) ≡ iova + first_page_len iova len =
            omega (arith, f) in
          let filled =
            prp_entries-Covers max_prps (iova + first_page_len iova len)
              (len - first_page_len iova len) (omega (arith, f)) (omega (arith, f))
              (omega (arith, f)) in
          rw (setup_prps_list d list_iova io_buf iova len hi long, n_eq, filled.1)
            (
              refl,
              chunks-Covers_list list_iova iova len (first_page_len iova len) _ f long filled.0,
            )
      | no short ↦ elim (dec_lt 0 (rest d list_iova io_buf iova len hi)) [
        | yes some_left ↦
            rw (setup_prps_two d list_iova io_buf iova len hi some_left (omega arith))
              (ground (arith, first_page_len-min iova len))
        | no none_left ↦
            rw (setup_prps_one d list_iova io_buf iova len hi (omega arith))
              (ground (arith, first_page_len-min iova len))
      ]
    ]

-- With an IOMMU, a buffer of more than 2 MiB and a page, below 2^62 bytes and at an iova below
-- 2^63, is refused.
pub setup_prps-overflow :
    (d : TgtData) (list_iova io_buf iova len : ℕ)
    → use_iommu d ≡ true
    → 2 ^ 21 + page_size < len
    → len < 2 ^ 62
    → iova < 2 ^ 63
    → (setup_prps d list_iova io_buf iova len).ret ≡ einval
setup_prps-overflow d list_iova io_buf iova len hi lo hl ha =
    let f = first_page_len-min iova len in
    rw (setup_prps_list d list_iova io_buf iova len hi (omega (arith, f))) (
      ground (
        arith,
        prp_entries-overflow max_prps (u64 (iova + first_page_len iova len))
            (len - first_page_len iova len) (omega (arith, f)) (omega (arith, f)),
      ))
