-- ===== src/Streaming.antt =====
-- The memory streaming benchmark, mem_streaming/mem_streaming.cpp: the work range, the lines put
-- before the kernel's source, and the sizes of what the kernel is given.
pub mod Settings
pub mod Balance
pub mod Bounds
pub mod Measure
use u_clbench.Base.{
  ℕ, zero, suc, ◌+◌, ◌-◌, ◌*◌, ◌/◌, ◌^◌, Bool, true, false, List, [], ◌∷◌, ◌++◌, ltb, ◌==◌,
  if◌then◌else◌,
}
use u_clbench.Base.Run.{Run, done, fault, no_fuel, ◌>>=◌}
use u_clbench.Base.Text.{Bytes, codes, decimal}

-- the cases of `switch(type)`
pub data Space : Type 0 where
  private_space global_space local_space : Space

abbrev pub space_of : ℕ → Space
space_of n = if n == 1 then private_space else if n == 2 then global_space else local_space

-- `while(local > elements) local /= 2;`
unfoldable pub fit_local : ℕ → ℕ → ℕ → Run ℕ
fit_local zero elements local = no_fuel
fit_local (suc fuel) elements local =
    let halved = fit_local fuel elements (local / 2) in
    if ltb elements local then halved else done local

-- `local` and `global` in the round with many work-items: `max_local` is the device's limit for the
-- first dimension, `units` its number of compute units
unfoldable pub many_items : ℕ → ℕ → ℕ → Run (ℕ × ℕ)
unfolding fit_local
many_items max_local units elements =
    fit_local (suc max_local) elements max_local >>= λ local. done (local, units * local)

-- `elementsToAlloc`; a division by 0 is a fault
unfoldable pub elements_to_alloc : Space → ℕ → ℕ → ℕ → Run ℕ
elements_to_alloc private_space elements local old =
    if local == 0 then fault else done ((elements + local - 1) / local)
elements_to_alloc global_space elements local old = done old
elements_to_alloc local_space elements local old = done old

-- what `sprintf` leaves in `buf`
unfoldable pub kernel_preamble : ℕ → ℕ → ℕ → Bool → Bytes
unfolding decimal
kernel_preamble f4 alloc local larg =
    (if f4 == 0
      then codes "#define dtype float\n"
      else codes "#define dtype float" ++ decimal (2 ^ f4) ++ codes "\n")
    ++ codes "#define VEC "
    ++ decimal f4
    ++ codes "\n#define ELEMENTS "
    ++ decimal alloc
    ++ codes "\n#define localRange "
    ++ decimal local
    ++ codes "\n"
    ++ (if larg then codes "#define LARG\n" else [])

-- `sizeof` of the vector type, in the switches for the buffers in global memory
unfoldable pub vector_bytes : ℕ → ℕ
vector_bytes f4 =
    if f4 == 1 then 8 else if f4 == 2 then 16 else if f4 == 3 then 32 else if f4 == 4 then 64 else 4

-- the same in the switch for the arguments in local memory
unfoldable pub local_bytes : ℕ → ℕ
local_bytes f4 =
    if f4 == 1 then 8 else if f4 == 2 then 16 else if f4 == 3 then 32 else if f4 == 4 then 32 else 4

-- `elements` and `sizeoft` of main
unfoldable pub main_elements : ℕ → ℕ
main_elements f4 =
    if f4 == 1
    then 1024 / 2
    else if f4 == 2
    then 1024 / 4
    else if f4 == 3
    then 1024 / 8
    else if f4 == 4
    then 1024 / 16
    else 1024

unfoldable pub main_sizeoft : ℕ → ℕ
main_sizeoft f4 =
    if f4 == 1 then 8 else if f4 == 2 then 16 else if f4 == 3 then 32 else if f4 == 4 then 64 else 4
