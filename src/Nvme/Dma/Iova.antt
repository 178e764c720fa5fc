-- ===== src/Nvme/Dma/Iova.antt =====
-- The iovas that the target hands to the IOMMU never overlap, and what is unmapped is what was
-- mapped.
use s3blk.Base.{ℕ, ◌+◌, ◌%◌, ◌^◌, ◌<◌, ◌≤◌, ◌≡◌, ◌≢◌, ◌⊎◌, arith, Bool, true, List, [], ◌∷◌, u64}
use s3blk.Nvme.Types.{TgtData, DmaMapping, IoasCall, map_call, unmap_call, page_size}
use s3blk.Nvme.Pool.{page_align}
use s3blk.Nvme.Dma.{use_iommu, map_dma, unmap_dma, no_mapping}

-- Every mapped range of the log ends at or below `b`.
abbrev pub Below : ℕ → List IoasCall → Type 0
Below b [] = Unit {0}
Below b (map_call va iova len ∷ r) = (iova + len ≤ b) × Below b r
Below b (unmap_call iova len ∷ r) = Below b r

-- Every mapped range lies above all that were mapped before it.
abbrev pub Disjoint : List IoasCall → Type 0
Disjoint [] = Unit {0}
Disjoint (map_call va iova len ∷ r) = Below iova r × Disjoint r
Disjoint (unmap_call iova len ∷ r) = Disjoint r

-- What holds of the IO address space between two calls.
pub record IsIovaSafe (d : TgtData) : Type 0 where
  pub positive : 0 < d.next_iova
  pub below : Below d.next_iova d.ioas
  pub disjoint : Disjoint d.ioas

Below-mono : (b c : ℕ) (l : List IoasCall) → b ≤ c → Below b l → Below c l
Below-mono b c [] h k = tt
Below-mono b c (map_call va iova len ∷ r) h k = (omega arith, Below-mono b c r h k.1)
Below-mono b c (unmap_call iova len ∷ r) h k = Below-mono b c r h k

module _ (map_ok : List IoasCall → IoasCall → Bool) (d : TgtData) (vaddr size : ℕ)
    (m : DmaMapping) where
  -- With the IOMMU, nvme_map_dma asks for a range that no earlier request touches, and a
  -- mapping's iova is never 0, as long as the iova counter does not come near 2^64.
  pub map_dma-IsIovaSafe :
      size < 2 ^ 32
      → d.next_iova < 2 ^ 63
      → IsIovaSafe d
      → IsIovaSafe (map_dma map_ok d vaddr size m).2
  unfolding map_dma
  map_dma-IsIovaSafe hs hn v =
      ground (arith, Below-mono d.next_iova (u64 (d.next_iova + page_align size)) d.ioas)

  -- Either nvme_map_dma returns 0 and leaves the mapping alone, or it returns the iova that the
  -- mapping now holds, with the address and size that were asked for.
  pub map_dma_result :
      let (iova, m', d') = map_dma map_ok d vaddr size m in
      ((iova ≡ 0) × (m' ≡ m))
      ⊎ ((iova ≢ 0) × (m' ≡ record { vaddr = vaddr; iova = iova; size = size }))
  unfolding map_dma
  map_dma_result = grind arith

  -- Unmapping what was mapped asks the kernel for exactly the mapped range, for a size of whole
  -- pages, and clears the mapping.
  pub unmap_dma-map_dma :
      size % page_size ≡ 0
      → size < 2 ^ 32
      → use_iommu d ≡ true
      → (map_dma map_ok d vaddr size m).0 ≢ 0
      → let (iova, m', d') = map_dma map_ok d vaddr size m in
        let (m'', d'') = unmap_dma d' m' in
        (m'' ≡ no_mapping) × (d''.ioas ≡ unmap_call iova size ∷ map_call vaddr iova size ∷ d.ioas)
  unfolding map_dma unmap_dma
  unmap_dma-map_dma hp hs hi ne = ground arith
