-- ===== src/Cllib/Info/Report/Columns.antt =====
-- The table of devices, and the memory that printing takes.
use u_clbench.Base.{
  ℕ, suc, ◌+◌, ◌*◌, ◌≡◌, refl, arith, Option, none, some, List, [], ◌∷◌, ◌++◌, length, get_or, ap,
  ◌∙◌,
}
use u_clbench.Base.Text.{Bytes, codes, decimal}
use u_clbench.Cllib.Info.{Queries, DeviceInfo, get_device_info}
use u_clbench.Cllib.Info.Balance.{free_device_info-get_device_info}
use u_clbench.Cllib.Info.Blocks.{Heap}
use u_clbench.Cllib.Info.Report.{
  get_device_type_string, print_device_info, device_lines, print_device_list, go_on, device_entry,
}

-- texts with a separator between them
abbrev pub join : Bytes → List Bytes → Bytes
join sep [] = []
join sep (t ∷ []) = t
join sep (t ∷ u ∷ ts) = t ++ sep ++ join sep (u ∷ ts)

-- the same, written behind a text
joined : Bytes → Bytes → List Bytes → Bytes
joined sep front [] = front
joined sep front (t ∷ []) = front ++ t
joined sep front (t ∷ u ∷ ts) = joined sep (front ++ t ++ sep) (u ∷ ts)

-- the names of the columns
abbrev pub names : List Bytes
names =
    codes "name:string"
    ∷ codes "vendor:string"
    ∷ codes "type:string"
    ∷ codes "profile:string"
    ∷ codes "version:string"
    ∷ codes "max_compute_units:unsigned"
    ∷ codes "max_work_group_size:unsigned"
    ∷ codes "max_work_item_dimensions:unsigned"
    ∷ codes "max_work_item_size:unsigned"
    ∷ codes "max_clock_frequency:unsigned"
    ∷ codes "global_mem_size:unsigned"
    ∷ codes "global_mem_cache_size:unsigned"
    ∷ codes "global_mem_cacheline_size:unsigned"
    ∷ codes "local_mem_size:unsigned"
    ∷ codes "local_mem_type:unsigned"
    ∷ codes "max_constant_buffer_size:unsigned"
    ∷ codes "max_constant_args:unsigned"
    ∷ []

module _ (macro : Bytes → ℕ) where
  -- what stands under each name
  abbrev pub columns : {D : Type 0} → DeviceInfo D → List Bytes
  columns i =
      i.name.content
      ∷ i.vendor.content
      ∷ get_device_type_string macro i.type
      ∷ i.profile.content
      ∷ i.version.content
      ∷ decimal i.max_compute_units
      ∷ decimal i.max_work_group_size
      ∷ decimal i.max_work_item_dimensions
      ∷ decimal (get_or i.max_work_item_sizes.content 0 0)
      ∷ decimal i.max_clock_frequency
      ∷ decimal i.global_mem_size
      ∷ decimal i.global_mem_cache_size
      ∷ decimal i.global_mem_cacheline_size
      ∷ decimal i.local_mem_size
      ∷ decimal i.local_mem_type
      ∷ decimal i.max_constant_buffer_size
      ∷ decimal i.max_constant_args
      ∷ []

  -- Printing without a prefix and without a suffix leaves two blocks live that were not live
  -- before; with both given it takes no memory, and the text is the same for the same texts.
  pub print_device_info_leaks :
      {D : Type 0} (info : DeviceInfo D) (h : Heap)
      → (print_device_info macro info none none h ≡ (
        device_lines macro info [] (codes "\n"),
        record h { next = suc (suc h.next); live = suc h.next ∷ h.next ∷ h.live },
      ))
        × (print_device_info macro info (some []) (some (codes "\n")) h
            ≡ (device_lines macro info [] (codes "\n"), h))
  unfolding print_device_info
  print_device_info_leaks info h = (refl, refl)

  -- Printing the list of devices gives back all the memory that it takes.
  pub print_device_list_balanced :
      {P D : Type 0} (q : Queries P D) (ds : List D) (i : ℕ) (h : Heap)
      → (print_device_list macro q ds i h).1 ≡ some (record h { next = h.next + 8 * length ds })
  unfolding print_device_list
  print_device_list_balanced q [] i h =
      let e : h.next ≡ h.next + 8 * 0 = omega arith in
      ap (λ (n : ℕ). some (record h { next = n })) e
  print_device_list_balanced q (d ∷ ds) i h =
      ap
        (λ (o : Option Heap).
          (go_on macro q (device_entry macro q i (get_device_info q d h).0.content)
            (print_device_list macro q ds (i + 1)) o).1)
        (free_device_info-get_device_info q d h)
      ∙ print_device_list_balanced q ds (i + 1) (record h { next = h.next + 8 })
      ∙ (let e : h.next + 8 + 8 * length ds ≡ h.next + 8 * suc (length ds) = omega arith in
          ap (λ (n : ℕ). some (record h { next = n })) e)
