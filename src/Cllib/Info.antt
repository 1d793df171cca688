-- ===== src/Cllib/Info.antt =====
-- What is asked about platforms and devices, the getters and the records of cllib/clinfo.cpp and
-- cllib/clinfo.h. Memory is a set of live blocks; malloc finds room, as the code relies on.
pub mod Blocks
pub mod Balance
pub mod Report
use u_clbench.Base.{ℕ, List, [], ◌∷◌, Option}
use u_clbench.Base.Text.{Bytes, codes}
use u_clbench.Cllib.Info.Blocks.{Heap, Block, malloc, free_all}

-- What stands in memory behind `clGetDeviceInfo` and `clGetPlatformInfo`, by the name of what is
-- asked: a number, an array with so many cells, the size of a text, a text in so many bytes.
pub record Queries (P D : Type 0) : Type 0 where
  pub number : D → Bytes → ℕ
  pub numbers : D → Bytes → ℕ → List ℕ
  pub text_size : D → Bytes → ℕ
  pub text : D → Bytes → ℕ → Bytes
  pub platform_text_size : P → Bytes → ℕ
  pub platform_text : P → Bytes → ℕ → Bytes

pub record PlatformInfo (P : Type 0) : Type 0 where
  pub id : P
  pub profile : Block Bytes
  pub version : Block Bytes
  pub name : Block Bytes
  pub vendor : Block Bytes
  pub extensions : Block Bytes

pub record DeviceInfo (D : Type 0) : Type 0 where
  pub id : D
  pub type : ℕ
  pub max_compute_units : ℕ
  pub max_work_item_dimensions : ℕ
  pub max_work_item_sizes : Block (List ℕ)
  pub max_work_group_size : ℕ
  pub max_clock_frequency : ℕ
  pub address_bits : ℕ
  pub max_mem_alloc_size : ℕ
  pub image_support : ℕ
  pub max_samplers : ℕ
  pub max_parameter_size : ℕ
  pub single_fp_config : ℕ
  pub mem_cache_type : ℕ
  pub global_mem_cacheline_size : ℕ
  pub global_mem_cache_size : ℕ
  pub global_mem_size : ℕ
  pub max_constant_buffer_size : ℕ
  pub max_constant_args : ℕ
  pub local_mem_type : ℕ
  pub local_mem_size : ℕ
  pub error_correction : ℕ
  pub profiling_timer_resolution : ℕ
  pub endian_little : ℕ
  pub available : ℕ
  pub compiler_available : ℕ
  pub exec_capabilities : ℕ
  pub queue_properties : ℕ
  pub name : Block Bytes
  pub vendor : Block Bytes
  pub driver_version : Block Bytes
  pub profile : Block Bytes
  pub version : Block Bytes
  pub extensions : Block Bytes

module _ {P D : Type 0} (q : Queries P D) where
  get_plat_profile : P → Heap → Block Bytes × Heap
  get_plat_profile p = malloc (
      q.platform_text p (codes "CL_PLATFORM_PROFILE")
        (q.platform_text_size p (codes "CL_PLATFORM_PROFILE")))

  get_plat_version : P → Heap → Block Bytes × Heap
  get_plat_version p = malloc (
      q.platform_text p (codes "CL_PLATFORM_VERSION")
        (q.platform_text_size p (codes "CL_PLATFORM_VERSION")))

  get_plat_name : P → Heap → Block Bytes × Heap
  get_plat_name p = malloc (
      q.platform_text p (codes "CL_PLATFORM_NAME")
        (q.platform_text_size p (codes "CL_PLATFORM_NAME")))

  get_plat_vendor : P → Heap → Block Bytes × Heap
  get_plat_vendor p = malloc (
      q.platform_text p (codes "CL_PLATFORM_VENDOR")
        (q.platform_text_size p (codes "CL_PLATFORM_VENDOR")))

  get_plat_extensions : P → Heap → Block Bytes × Heap
  get_plat_extensions p = malloc (
      q.platform_text p (codes "CL_PLATFORM_EXTENSIONS")
        (q.platform_text_size p (codes "CL_PLATFORM_EXTENSIONS")))

  unfoldable pub get_type : D → ℕ
  get_type d = q.number d (codes "CL_DEVICE_TYPE")

  unfoldable pub get_max_compute_units : D → ℕ
  get_max_compute_units d = q.number d (codes "CL_DEVICE_MAX_COMPUTE_UNITS")

  unfoldable pub get_max_work_item_dimensions : D → ℕ
  get_max_work_item_dimensions d = q.number d (codes "CL_DEVICE_MAX_WORK_ITEM_DIMENSIONS")

  get_max_work_item_sizes : D → Heap → Block (List ℕ) × Heap
  unfolding get_max_work_item_dimensions
  get_max_work_item_sizes d =
      malloc (q.numbers d (codes "CL_DEVICE_MAX_WORK_ITEM_SIZES") (get_max_work_item_dimensions d))

  unfoldable pub get_max_work_group_size : D → ℕ
  get_max_work_group_size d = q.number d (codes "CL_DEVICE_MAX_WORK_GROUP_SIZE")

  unfoldable pub get_max_clock_frequency : D → ℕ
  get_max_clock_frequency d = q.number d (codes "CL_DEVICE_MAX_CLOCK_FREQUENCY")

  unfoldable pub get_address_bits : D → ℕ
  get_address_bits d = q.number d (codes "CL_DEVICE_ADDRESS_BITS")

  unfoldable pub get_max_mem_alloc_size : D → ℕ
  get_max_mem_alloc_size d = q.number d (codes "CL_DEVICE_MAX_MEM_ALLOC_SIZE")

  unfoldable pub has_image_support : D → ℕ
  has_image_support d = q.number d (codes "CL_DEVICE_IMAGE_SUPPORT")

  unfoldable pub get_max_samplers : D → ℕ
  get_max_samplers d = q.number d (codes "CL_DEVICE_MAX_SAMPLERS")

  unfoldable pub get_max_parameter_size : D → ℕ
  get_max_parameter_size d = q.number d (codes "CL_DEVICE_MAX_PARAMETER_SIZE")

  unfoldable pub get_single_fp_config : D → ℕ
  get_single_fp_config d = q.number d (codes "CL_DEVICE_SINGLE_FP_CONFIG")

  unfoldable pub get_global_mem_cache_type : D → ℕ
  get_global_mem_cache_type d = q.number d (codes "CL_DEVICE_GLOBAL_MEM_CACHE_TYPE")

  unfoldable pub get_global_mem_cacheline_size : D → ℕ
  get_global_mem_cacheline_size d = q.number d (codes "CL_DEVICE_GLOBAL_MEM_CACHELINE_SIZE")

  unfoldable pub get_global_mem_cache_size : D → ℕ
  get_global_mem_cache_size d = q.number d (codes "CL_DEVICE_GLOBAL_MEM_CACHE_SIZE")

  unfoldable pub get_global_mem_size : D → ℕ
  get_global_mem_size d = q.number d (codes "CL_DEVICE_GLOBAL_MEM_SIZE")

  unfoldable pub get_max_constant_buffer_size : D → ℕ
  get_max_constant_buffer_size d = q.number d (codes "CL_DEVICE_MAX_CONSTANT_BUFFER_SIZE")

  unfoldable pub get_max_constant_args : D → ℕ
  get_max_constant_args d = q.number d (codes "CL_DEVICE_MAX_CONSTANT_ARGS")

  unfoldable pub get_local_mem_type : D → ℕ
  get_local_mem_type d = q.number d (codes "CL_DEVICE_LOCAL_MEM_TYPE")

  unfoldable pub get_local_mem_size : D → ℕ
  get_local_mem_size d = q.number d (codes "CL_DEVICE_LOCAL_MEM_SIZE")

  unfoldable pub has_error_correction : D → ℕ
  has_error_correction d = q.number d (codes "CL_DEVICE_ERROR_CORRECTION_SUPPORT")

  unfoldable pub get_profiling_timer_resolution : D → ℕ
  get_profiling_timer_resolution d = q.number d (codes "CL_DEVICE_PROFILING_TIMER_RESOLUTION")

  unfoldable pub is_endian_little : D → ℕ
  is_endian_little d = q.number d (codes "CL_DEVICE_ENDIAN_LITTLE")

  unfoldable pub is_available : D → ℕ
  is_available d = q.number d (codes "CL_DEVICE_AVAILABLE")

  unfoldable pub has_compiler_available : D → ℕ
  has_compiler_available d = q.number d (codes "CL_DEVICE_COMPILER_AVAILABLE")

  unfoldable pub get_exec_capabilities : D → ℕ
  get_exec_capabilities d = q.number d (codes "CL_DEVICE_EXECUTION_CAPABILITIES")

  unfoldable pub get_queue_properties : D → ℕ
  get_queue_properties d = q.number d (codes "CL_DEVICE_QUEUE_PROPERTIES")

  get_name : D → Heap → Block Bytes × Heap
  get_name d = malloc (q.text d (codes "CL_DEVICE_NAME") (q.text_size d (codes "CL_DEVICE_NAME")))

  get_vendor : D → Heap → Block Bytes × Heap
  get_vendor d =
      malloc (q.text d (codes "CL_DEVICE_VENDOR") (q.text_size d (codes "CL_DEVICE_VENDOR")))

  get_driver_version : D → Heap → Block Bytes × Heap
  get_driver_version d =
      malloc (q.text d (codes "CL_DEVICE_VERSION") (q.text_size d (codes "CL_DEVICE_VERSION")))

  get_profile : D → Heap → Block Bytes × Heap
  get_profile d =
      malloc (q.text d (codes "CL_DEVICE_PROFILE") (q.text_size d (codes "CL_DEVICE_PROFILE")))

  get_version : D → Heap → Block Bytes × Heap
  get_version d =
      malloc (q.text d (codes "CL_DEVICE_VERSION") (q.text_size d (codes "CL_DEVICE_VERSION")))

  get_extensions : D → Heap → Block Bytes × Heap
  get_extensions d =
      malloc
        (q.text d (codes "CL_DEVICE_EXTENSIONS") (q.text_size d (codes "CL_DEVICE_EXTENSIONS")))

  unfoldable pub get_platform_info : P → Heap → Block (PlatformInfo P) × Heap
  unfolding get_plat_profile get_plat_version get_plat_name get_plat_vendor get_plat_extensions
      malloc
  get_platform_info p h =
      let (info, h0) = malloc p h in
      let (profile, h1) = get_plat_profile p h0 in
      let (version, h2) = get_plat_version p h1 in
      let (name, h3) = get_plat_name p h2 in
      let (vendor, h4) = get_plat_vendor p h3 in
      let (extensions, h5) = get_plat_extensions p h4 in
      (
        record {
          address = info.address;
          content = record {
            id = p;
            profile = profile;
            version = version;
            name = name;
            vendor = vendor;
            extensions = extensions;
          };
        },
        h5,
      )

  unfoldable pub get_device_info : D → Heap → Block (DeviceInfo D) × Heap
  unfolding malloc get_type get_max_compute_units get_max_work_item_dimensions
      get_max_work_item_sizes get_max_work_group_size get_max_clock_frequency get_address_bits
      get_max_mem_alloc_size has_image_support get_max_samplers get_max_parameter_size
      get_single_fp_config get_global_mem_cache_type get_global_mem_cache_size get_global_mem_size
      get_max_constant_buffer_size get_max_constant_args get_local_mem_type get_local_mem_size
      has_error_correction get_profiling_timer_resolution is_endian_little is_available
      has_compiler_available get_exec_capabilities get_queue_properties get_name get_vendor
      get_driver_version get_profile get_version get_extensions
  get_device_info d h =
      let (info, h0) = malloc d h in
      let (max_work_item_sizes, h1) = get_max_work_item_sizes d h0 in
      let (name, h2) = get_name d h1 in
      let (vendor, h3) = get_vendor d h2 in
      let (driver_version, h4) = get_driver_version d h3 in
      let (profile, h5) = get_profile d h4 in
      let (version, h6) = get_version d h5 in
      let (extensions, h7) = get_extensions d h6 in
      (
        record {
          address = info.address;
          content = record {
            id = d;
            type = get_type d;
            max_compute_units = get_max_compute_units d;
            max_work_item_dimensions = get_max_work_item_dimensions d;
            max_work_item_sizes = max_work_item_sizes;
            max_work_group_size = get_max_work_group_size d;
            max_clock_frequency = get_max_clock_frequency d;
            address_bits = get_address_bits d;
            max_mem_alloc_size = get_max_mem_alloc_size d;
            image_support = has_image_support d;
            max_samplers = get_max_samplers d;
            max_parameter_size = get_max_parameter_size d;
            single_fp_config = get_single_fp_config d;
            mem_cache_type = get_global_mem_cache_type d;
            global_mem_cacheline_size = get_global_mem_cache_size d;
            global_mem_cache_size = get_global_mem_cache_size d;
            global_mem_size = get_global_mem_size d;
            max_constant_buffer_size = get_max_constant_buffer_size d;
            max_constant_args = get_max_constant_args d;
            local_mem_type = get_local_mem_type d;
            local_mem_size = get_local_mem_size d;
            error_correction = has_error_correction d;
            profiling_timer_resolution = get_profiling_timer_resolution d;
            endian_little = is_endian_little d;
            available = is_available d;
            compiler_available = has_compiler_available d;
            exec_capabilities = get_exec_capabilities d;
            queue_properties = get_queue_properties d;
            name = name;
            vendor = vendor;
            driver_version = driver_version;
            profile = profile;
            version = version;
            extensions = extensions;
          };
        },
        h7,
      )

-- `none` is a block that is freed and not live
unfoldable pub free_platform_info : {P : Type 0} → Block (PlatformInfo P) → Heap → Option Heap
unfolding free_all
free_platform_info info =
    let i = info.content in
    free_all (
      i.profile.address ∷ i.version.address ∷ i.name.address ∷ i.vendor.address
      ∷ i.extensions.address ∷ info.address ∷ [])

unfoldable pub free_device_info : {D : Type 0} → Block (DeviceInfo D) → Heap → Option Heap
unfolding free_all
free_device_info info =
    let i = info.content in
    free_all (
      i.max_work_item_sizes.address ∷ i.name.address ∷ i.vendor.address ∷ i.driver_version.address
      ∷ i.profile.address ∷ i.version.address ∷ i.extensions.address ∷ info.address ∷ [])
