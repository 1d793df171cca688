-- ===== src/Cllib/Info/Balance.antt =====
-- Every block that asking about a platform or a device takes is given back.
use u_clbench.Base.{◌+◌, ◌≡◌, refl, arith, some}
use u_clbench.Cllib.Info.{
  Queries, get_device_info, free_device_info, get_platform_info, free_platform_info,
}
use u_clbench.Cllib.Info.Blocks.{Heap}

module _ {P D : Type 0} (q : Queries P D) where
  -- Behind `get_device_info`, `free_device_info` frees each of the eight blocks once and nothing
  -- else: the live blocks are those before.
  pub free_device_info-get_device_info :
      (d : D) (h : Heap)
      → free_device_info (get_device_info q d h).0 (get_device_info q d h).1
        ≡ some (record h { next = h.next + 8 })
  unfolding get_device_info free_device_info
  free_device_info-get_device_info d h = ground arith

  -- Behind `get_platform_info`, `free_platform_info` frees each of the six blocks once and nothing
  -- else: the live blocks are those before.
  pub free_platform_info-get_platform_info :
      (p : P) (h : Heap)
      → free_platform_info (get_platform_info q p h).0 (get_platform_info q p h).1
        ≡ some (record h { next = h.next + 6 })
  unfolding get_platform_info free_platform_info
  free_platform_info-get_platform_info p h = ground arith

  -- The record of a device holds the text of its OpenCL version as the version of the driver too,
  -- and the size of the cache as the size of a cache line, whatever OpenCL answers.
  pub get_device_info_repeats :
      (d : D) (h : Heap)
      → ((get_device_info q d h).0.content.driver_version.content
          ≡ (get_device_info q d h).0.content.version.content)
        × ((get_device_info q d h).0.content.global_mem_cacheline_size
            ≡ (get_device_info q d h).0.content.global_mem_cache_size)
  unfolding get_device_info
  get_device_info_repeats d h = (refl, refl)
