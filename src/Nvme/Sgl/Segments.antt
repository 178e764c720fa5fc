-- ===== src/Nvme/Sgl/Segments.antt =====
-- The SGL segments make up the buffer, and none of them crosses a hugepage boundary.
use native.Mathlib.Nat.{mod-lt, div-add-mod'}
use s3blk.Base.{
  leb, ℕ, ◌+◌, ◌-◌, ◌*◌, ◌/◌, ◌%◌, ◌^◌, ◌<◌, ◌≤◌, ◌≡◌, ◌≢◌, ◌⊎◌, arith, true, false, List, [], ◌∷◌,
  Bool-cases, if◌then◌else◌, ◌==◌, inl, inr, u64, u32, refl, ap, ap₂, ◌∙◌,
}
use s3blk.Base.Int.{pos, efault}
use s3blk.Nvme.Types.{TgtData, SglDesc}
use s3blk.Nvme.Dma.{virt_to_phys, use_iommu, phys_error}
use s3blk.Nvme.Sgl.{SglResult, data_block, last_segment, need_two_segments, hp_boundary, setup_sgl}

-- The descriptors of 16 bytes that stand in `bytes` bytes.
abbrev descs : List SglDesc → ℕ → List SglDesc
descs [] bytes = []
descs (s ∷ r) bytes = if leb 16 bytes then s ∷ descs r (bytes - 16) else []

-- The data descriptors that a controller finds, when the list stands at `list_iova` in memory and
-- nothing elsewhere: the one in the command, or those of the segment that it describes.
abbrev pub segments : ℕ → SglResult → List SglDesc
segments list_iova r =
    let found = if r.desc.addr == list_iova then r.list else [] in
    if r.desc.kind == last_segment then descs found r.desc.len else r.desc ∷ []

-- `n` bytes at `a` lie in one page of `hps` bytes.
abbrev pub Within : ℕ → ℕ → ℕ → Type 0
Within hps a n = a % hps + n ≤ hps

-- The next hugepage boundary is less than a hugepage away.
boundary_ahead :
    (a h : ℕ)
    → 0 < h
    → (a < (a / h + 1) * h)
      × ((a / h + 1) * h ≤ a + h)
      × (((a / h + 1) * h) % h ≡ 0)
      × (a % h + ((a / h + 1) * h - a) ≡ h)
boundary_ahead a h p = grind (arith, div-add-mod' a h, mod-lt a {m = h} p)

same_page : (a n h : ℕ) → 0 < h → 0 < n → a / h ≡ (a + n - 1) / h → Within h a n
same_page a n h p q e =
    grind (arith, div-add-mod' a h, div-add-mod' (a + n - 1) h, mod-lt (a + n - 1) {m = h} p)

-- A data descriptor for `n` bytes at `a`.
abbrev pub block : ℕ → ℕ → SglDesc
block a n = record { addr = a; len = n; kind = data_block }

crosses : (a n h : ℕ) → 0 < h → 0 < n → a / h ≢ (a + n - 1) / h → (a / h + 1) * h < a + n
crosses a n h p q e = grind (
  arith,
  div-add-mod' a h,
  div-add-mod' (a + n - 1) h,
  mod-lt a {m = h} p,
  mod-lt (a + n - 1) {m = h} p,
)

-- nvme_setup_sgl either succeeds, or says -EFAULT and leaves the command and the list alone: then
-- the buffer needs two segments and the boundary has no physical address.
pub setup_sgl_result :
    (d : TgtData) (list_iova io_buf iova len : ℕ)
    → let r = setup_sgl d list_iova io_buf iova len in
      (r.ret ≡ pos 0)
      ⊎ ((r.ret ≡ efault)
          × (r.list ≡ [])
          × (need_two_segments d io_buf len ≡ true)
          × (virt_to_phys d.dma_pool (hp_boundary d io_buf) ≡ phys_error))
unfolding setup_sgl
setup_sgl_result d list_iova io_buf iova len = elim (Bool-cases (need_two_segments d io_buf len)) [
  | inl two ↦ elim (Bool-cases (virt_to_phys d.dma_pool (hp_boundary d io_buf) == phys_error)) [
    | inl bad ↦ inr (rw (two, setup_sgl, bad) (refl, refl, refl, ground (arith, bad)))
    | inr good ↦ inl (rw (two, setup_sgl, good) refl)
  ]
  | inr one ↦ inl (rw (one, setup_sgl) refl)
]

module _ (d : TgtData) (list_iova io_buf iova len : ℕ) (filled : 0 < len)
    (fits : len ≤ d.hugepage_size) (small : len < 2 ^ 32) (huge_max : d.hugepage_size ≤ 2 ^ 40)
    (low : io_buf < 2 ^ 62) (noiommu : use_iommu d ≡ false) where
  open d use {hugepage_size}

  boundary_lem : hp_boundary d io_buf ≡ (io_buf / hugepage_size + 1) * hugepage_size
  boundary_lem = let b = boundary_ahead io_buf hugepage_size (omega arith) in omega (arith, b)

  single :
      need_two_segments d io_buf len ≡ false
      → io_buf / hugepage_size ≡ (io_buf + len - 1) / hugepage_size
  single e = let w : u64 (io_buf + len - 1) ≡ io_buf + len - 1 = omega arith in grind arith

  double :
      need_two_segments d io_buf len ≡ true
      → io_buf / hugepage_size ≢ (io_buf + len - 1) / hugepage_size
  double e = let w : u64 (io_buf + len - 1) ≡ io_buf + len - 1 = omega arith in grind arith

  single_segments :
      need_two_segments d io_buf len ≡ false
      → segments list_iova (setup_sgl d list_iova io_buf iova len) ≡ block iova (u32 len) ∷ []
  unfolding setup_sgl
  single_segments e = rw e

  double_segments :
      need_two_segments d io_buf len ≡ true
      → (setup_sgl d list_iova io_buf iova len).ret ≡ pos 0
      → let n = hp_boundary d io_buf - io_buf in
        segments list_iova (setup_sgl d list_iova io_buf iova len)
        ≡ block iova (u32 n)
          ∷ block (virt_to_phys d.dma_pool (hp_boundary d io_buf)) (u32 (len - n))
          ∷ []
  unfolding setup_sgl
  double_segments e ok =
      elim (Bool-cases (virt_to_phys d.dma_pool (hp_boundary d io_buf) == phys_error)) [
        | inl bad ↦ cc (rw (e, bad) at ok)
        | inr good ↦ let at : (list_iova == list_iova) ≡ true = ground arith in rw (e, good, at)
      ]

  -- Without an IOMMU, for a buffer of at least one byte, of less than 2^32 bytes, no longer than a
  -- hugepage (of at most 2^40 bytes) and at an address below 2^62: a successful nvme_setup_sgl,
  -- with its list at the iova of the list's page and nothing elsewhere, gives the controller either one block at `iova`, for a buffer inside a hugepage, or two blocks that
  -- meet at the hugepage boundary, the second at the boundary's physical address, with all bytes
  -- of the buffer between them; no block crosses a hugepage boundary.
  pub setup_sgl-segments :
      (setup_sgl d list_iova io_buf iova len).ret ≡ pos 0
      → let r = setup_sgl d list_iova io_buf iova len in
        let b = hp_boundary d io_buf in
        ((segments list_iova r ≡ block iova len ∷ []) × Within d.hugepage_size io_buf len)
        ⊎ ((n : ℕ) × (m : ℕ) × (segments list_iova r
              ≡ block iova n ∷ block (virt_to_phys d.dma_pool b) m ∷ [])
            × (n + m ≡ len)
            × (io_buf + n ≡ b)
            × (b % d.hugepage_size ≡ 0)
            × Within d.hugepage_size io_buf n
            × Within d.hugepage_size b m)
  setup_sgl-segments ok = elim (Bool-cases (need_two_segments d io_buf len)) [
    | inl two ↦
        let a = boundary_ahead io_buf hugepage_size (omega arith) in
        let c = crosses io_buf len hugepage_size (omega arith) filled (double two) in
        let b = boundary_lem in
        let n = hp_boundary d io_buf - io_buf in
        inr (
          n,
          len - n,
          double_segments two ok
              ∙ ap₂
                  (λ k l.
                    block iova k ∷ block (virt_to_phys d.dma_pool (hp_boundary d io_buf)) l ∷ [])
                  (omega (arith, b, a, c)) (omega (arith, b, a, c)),
          omega (arith, b, a, c),
          omega (arith, b, a),
          rw b a.2,
          rw b (omega (arith, a)),
          rw b (omega (arith, a)),
        )
    | inr one ↦ inl (
      single_segments one ∙ ap (λ k. block iova k ∷ []) (omega arith),
      same_page io_buf len hugepage_size (omega arith) filled (single one),
    )
  ]
