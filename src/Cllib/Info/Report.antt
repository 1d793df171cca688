-- ===== src/Cllib/Info/Report.antt =====
-- What cllib/clinfo.cpp prints about platforms and devices: the text written to stdout, and the
-- memory behind it. The values of the CL_ macros are a parameter, by the macro's name.
pub mod Columns
use Prim.Native.Nat.{bit_and}
use u_clbench.Base.{
  ℕ, zero, suc, ◌+◌, ◌-◌, ◌/◌, ◌%◌, ◌^◌, Bool, Option, none, some, List, [], ◌∷◌, ◌++◌, not, ltb,
  ◌==◌, if◌then◌else◌, get_or,
}
use u_clbench.Base.Int.{ℤ, pos, negsuc}
use u_clbench.Base.Text.{Bytes, codes, decimal, integer}
use u_clbench.Cllib.Info.{Queries, PlatformInfo, DeviceInfo, get_device_info, free_device_info}
use u_clbench.Cllib.Info.Blocks.{Heap, Block, malloc}

-- an unsigned number of `w` bits under a signed conversion
unfoldable pub signed : ℕ → ℕ → ℤ
signed w n = if ltb n (2 ^ (w - 1)) then pos n else negsuc (2 ^ w - 1 - n)

unfoldable pub yes_no : ℕ → Bytes
yes_no n = if n == 0 then codes "no" else codes "yes"

abbrev pub text_or : Option Bytes → Bytes → Bytes
text_or none other = other
text_or (some t) other = t

unfoldable pub print_platform_info :
    {P : Type 0} → PlatformInfo P → Option Bytes → Option Bytes → Bytes
print_platform_info info prefix suffix =
    let pre = text_or prefix [] in
    let suf = text_or suffix (codes "\n") in
    (pre ++ codes "profile:    " ++ info.profile.content ++ suf)
    ++ (pre ++ codes "version:    " ++ info.version.content ++ suf)
    ++ (pre ++ codes "name:       " ++ info.name.content ++ suf)
    ++ (pre ++ codes "vendor:     " ++ info.vendor.content ++ suf)
    ++ (pre ++ codes "extensions: " ++ info.extensions.content ++ suf)

-- the loop over the work-item sizes, with the rounds left
unfoldable pub print_sizes : List ℕ → ℕ → ℕ → ℕ → Bytes
print_sizes sizes dims zero i = []
print_sizes sizes dims (suc n) i =
    decimal (get_or sizes i 0)
    ++ (if ltb i (dims - 1) then codes "," else [])
    ++ print_sizes sizes dims n (i + 1)

module _ (macro : Bytes → ℕ) where
  unfoldable pub get_device_type_string : ℕ → Bytes
  get_device_type_string type =
      if type == macro (codes "CL_DEVICE_TYPE_CPU")
      then codes "cpu"
      else if type == macro (codes "CL_DEVICE_TYPE_GPU")
      then codes "gpu"
      else if type == macro (codes "CL_DEVICE_TYPE_ACCELERATOR")
      then codes "accelerator"
      else codes "default"

  -- `if(value & MACRO) printf(text)`
  unfoldable pub print_flag : ℕ → Bytes → Bytes → Bytes
  print_flag value name text = if bit_and value (macro name) == 0 then [] else text

  unfoldable pub print_cache : {D : Type 0} → DeviceInfo D → Bytes → Bytes → Bytes
  unfolding decimal
  print_cache info pre suf =
      if info.mem_cache_type == macro (codes "CL_NONE")
      then pre ++ codes "global mem cache:\t     none" ++ suf
      else (pre
          ++ codes "global mem cache:\t     "
          ++ (if info.mem_cache_type == macro (codes "CL_READ_ONLY_CACHE")
              then codes "read only"
              else codes "write_only")
          ++ suf)
        ++ (pre ++ codes "global mem cline size: " ++ decimal info.global_mem_cacheline_size ++ suf)
        ++ (pre ++ codes "global mem cache size: " ++ decimal info.global_mem_cache_size ++ suf)

  -- the lines, with `prefix` and `suffix` in their places
  unfoldable pub device_lines : {D : Type 0} → DeviceInfo D → Bytes → Bytes → Bytes
  unfolding decimal integer signed yes_no print_sizes print_cache print_flag get_device_type_string
  device_lines info pre suf =
      (pre ++ codes "name:                  " ++ info.name.content ++ suf)
      ++ (pre ++ codes "vendor:                " ++ info.vendor.content ++ suf)
      ++ (pre ++ codes "driver-version:        " ++ info.driver_version.content ++ suf)
      ++ (pre ++ codes "profile:               " ++ info.profile.content ++ suf)
      ++ (pre ++ codes "version:               " ++ info.version.content ++ suf)
      ++ (pre ++ codes "extensions:            " ++ info.extensions.content ++ suf)
      ++ (pre ++ codes "type:                  " ++ get_device_type_string info.type ++ suf)
      ++ (pre
          ++ codes "max compute-units:     "
          ++ integer (signed 32 info.max_compute_units)
          ++ suf)
      ++ (pre
          ++ codes "max work-item dims:    "
          ++ integer (signed 32 info.max_work_item_dimensions)
          ++ suf)
      ++ (pre ++ codes "max work-item sizes:   [")
      ++ print_sizes info.max_work_item_sizes.content info.max_work_item_dimensions
          info.max_work_item_dimensions 0
      ++ (codes "]" ++ suf)
      ++ (pre ++ codes "max work-group size:   " ++ decimal info.max_work_group_size ++ suf)
      ++ (pre
          ++ codes "max clock frequency:   "
          ++ integer (signed 32 info.max_clock_frequency)
          ++ suf)
      ++ (pre ++ codes "address bits:          " ++ integer (signed 32 info.address_bits) ++ suf)
      ++ (pre
          ++ codes "max mem alloc size:    "
          ++ integer (signed 64 info.max_mem_alloc_size)
          ++ suf)
      ++ (pre ++ codes "image support:\t     " ++ yes_no info.image_support ++ suf)
      ++ (pre ++ codes "max samplers:          " ++ integer (signed 32 info.max_samplers) ++ suf)
      ++ (pre
          ++ codes "max parameter size:    "
          ++ decimal (info.max_parameter_size % 2 ^ 32)
          ++ suf)
      ++ (pre ++ codes "single fp config:     ")
      ++ print_flag info.single_fp_config (codes "CL_FP_DENORM") (codes " denorm")
      ++ print_flag info.single_fp_config (codes "CL_FP_INF_NAN") (codes " inf_nan")
      ++ print_flag info.single_fp_config (codes "CL_FP_ROUND_TO_NEAREST")
          (codes " round_to_nearest")
      ++ print_flag info.single_fp_config (codes "CL_FP_ROUND_TO_ZERO") (codes " round_to_zero")
      ++ print_flag info.single_fp_config (codes "CL_FP_ROUND_TO_INF") (codes " round_to_inf")
      ++ print_flag info.single_fp_config (codes "CL_FP_FMA") (codes " fma")
      ++ suf
      ++ print_cache info pre suf
      ++ (pre ++ codes "global mem size:       " ++ decimal info.global_mem_size ++ suf)
      ++ (pre ++ codes "max const buffer size: " ++ decimal info.max_constant_buffer_size ++ suf)
      ++ (pre ++ codes "max const args:        " ++ decimal info.max_constant_args ++ suf)
      ++ (pre
          ++ codes "dedicated local mem:   "
          ++ (if info.local_mem_type == macro (codes "CL_LOCAL") then codes "yes" else codes "no")
          ++ suf)
      ++ (pre ++ codes "local mem size:        " ++ decimal info.local_mem_size ++ suf)
      ++ (pre ++ codes "error correction:\t     " ++ yes_no info.error_correction ++ suf)
      ++ (pre ++ codes "profiling timer res:   " ++ decimal info.profiling_timer_resolution ++ suf)
      ++ (pre ++ codes "endian little:         " ++ yes_no info.endian_little ++ suf)
      ++ (pre ++ codes "available:             " ++ yes_no info.available ++ suf)
      ++ (pre ++ codes "compiler available:    " ++ yes_no info.compiler_available ++ suf)
      ++ (pre ++ codes "execution capabilities:")
      ++ print_flag info.exec_capabilities (codes "CL_EXEC_KERNEL") (codes "exec_kernel ")
      ++ print_flag info.exec_capabilities (codes "CL_EXEC_NATIVE_KERNEL")
          (codes "exec_native_kernel ")
      ++ suf
      ++ (pre ++ codes "queue properties:     ")
      ++ print_flag info.queue_properties (codes "CL_QUEUE_OUT_OF_ORDER_EXEC_MODE_ENABLE")
          (codes " out_of_order_exec_mode")
      ++ print_flag info.queue_properties (codes "CL_QUEUE_PROFILING_ENABLE") (codes " profiling")
      ++ suf

  -- a text that is given, or else `strdup` of another
  unfoldable pub given_or : Option Bytes → Bytes → Heap → Bytes × Heap
  given_or (some t) other h = (t, h)
  given_or none other h = ((malloc other h).0.content, (malloc other h).1)

  unfoldable pub print_device_info :
      {D : Type 0} → DeviceInfo D → Option Bytes → Option Bytes → Heap → Bytes × Heap
  unfolding device_lines given_or malloc
  print_device_info info prefix suffix h =
      let (pre, h1) = given_or prefix [] h in
      let (suf, h2) = given_or suffix (codes "\n") h1 in (device_lines info pre suf, h2)

  module _ {P D : Type 0} (q : Queries P D) where
    unfoldable pub print_short_device_info : D → ℕ → Heap → Bytes × Option Heap
    unfolding get_device_info free_device_info get_device_type_string signed integer decimal
    print_short_device_info d index h =
        let (info, h1) = get_device_info q d h in
        let i = info.content in
        (
          codes "# device "
              ++ integer (signed 32 index)
              ++ codes ": "
              ++ i.name.content
              ++ codes " // type "
              ++ get_device_type_string i.type
              ++ codes " ("
              ++ decimal (i.global_mem_size / 1024 / 1024)
              ++ codes " MB global memory, "
              ++ decimal (i.max_constant_buffer_size / 1024)
              ++ codes " KB constant memory, "
              ++ decimal (i.local_mem_size / 1024)
              ++ codes " KB local memory)\n",
          free_device_info info h1,
        )

    -- the row of one device
    unfoldable pub csv_row : DeviceInfo D → Bytes
    csv_row i =
        codes "#dev: "
        ++ i.name.content
        ++ codes ",|, "
        ++ i.vendor.content
        ++ codes ",|, "
        ++ get_device_type_string i.type
        ++ codes ",|, "
        ++ i.profile.content
        ++ codes ",|, "
        ++ i.version.content
        ++ codes ",|, "
        ++ decimal i.max_compute_units
        ++ codes ",|, "
        ++ decimal i.max_work_group_size
        ++ codes ",|, "
        ++ decimal i.max_work_item_dimensions
        ++ codes ",|, "
        ++ decimal (get_or i.max_work_item_sizes.content 0 0)
        ++ codes ",|, "
        ++ decimal i.max_clock_frequency
        ++ codes ",|, "
        ++ decimal i.global_mem_size
        ++ codes ",|, "
        ++ decimal i.global_mem_cache_size
        ++ codes ",|, "
        ++ decimal i.global_mem_cacheline_size
        ++ codes ",|, "
        ++ decimal i.local_mem_size
        ++ codes ",|, "
        ++ decimal i.local_mem_type
        ++ codes ",|, "
        ++ decimal i.max_constant_buffer_size
        ++ codes ",|, "
        ++ decimal i.max_constant_args
        ++ codes "\n"

    unfoldable pub print_csv_device_info : D → Heap → Bytes × Option Heap
    unfolding get_device_info free_device_info csv_row
    print_csv_device_info d h =
        let (info, h1) = get_device_info q d h in
        (
          codes
                "#devspec: name:string, vendor:string, type:string, profile:string, version:string, max_compute_units:unsigned, max_work_group_size:unsigned, max_work_item_dimensions:unsigned, max_work_item_size:unsigned, max_clock_frequency:unsigned, global_mem_size:unsigned, global_mem_cache_size:unsigned, global_mem_cacheline_size:unsigned, local_mem_size:unsigned, local_mem_type:unsigned, max_constant_buffer_size:unsigned, max_constant_args:unsigned\n"
              ++ csv_row info.content,
          free_device_info info h1,
        )

    -- behind the lines of one device
    abbrev pub go_on : Bytes → (Heap → Bytes × Option Heap) → Option Heap → Bytes × Option Heap
    go_on lines more none = (lines, none)
    go_on lines more (some h) = (lines ++ (more h).0, (more h).1)

    -- the lines of one device in the list
    abbrev pub device_entry : ℕ → DeviceInfo D → Bytes
    device_entry i c =
        codes "Device "
        ++ decimal i
        ++ codes ": "
        ++ c.name.content
        ++ codes " ("
        ++ decimal (c.global_mem_size / 1024 / 1024)
        ++ codes " MB global memory)\n  max size: "
        ++ decimal (c.max_mem_alloc_size % 2 ^ 32 / 1024 / 1024 / 2)
        ++ codes " MB\n"

    -- the loop over the devices from number `i` on
    unfoldable pub print_device_list : List D → ℕ → Heap → Bytes × Option Heap
    unfolding get_device_info free_device_info decimal
    print_device_list [] i h = ([], some h)
    print_device_list (d ∷ ds) i h =
        let (info, h1) = get_device_info q d h in
        let c = info.content in
        go_on (device_entry i c) (print_device_list ds (i + 1)) (free_device_info info h1)
