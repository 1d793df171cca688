-- ===== src/Cllib/Select.antt =====
-- Choosing a platform by its name, and its devices: `myGetPlatformID` and both forms of
-- `get_device_by_platform` of cllib/clcommon.cpp.
pub mod Found
use u_clbench.Base.{
  ℕ, Bool, true, false, Option, none, some, List, [], ◌∷◌, not, ◌&&◌, ◌==◌, if◌then◌else◌,
}
use u_clbench.Base.Int.{ℤ, pos, negsuc, ◌==ℤ◌}
use u_clbench.Base.Text.{Bytes, codes, strstr}

-- What OpenCL and malloc answer. `platforms` is the array behind the second call of
-- `clGetPlatformIDs`; `platform_name` gives the status of `clGetPlatformInfo` and the text in
-- `chBuffer`; `device_ids p t` are the status and the count of the first call of
-- `clGetDeviceIDs` and the status and the array of the second.
pub record Answers (P D T : Type 0) : Type 0 where
  pub success : ℤ
  pub device_not_found : ℤ
  pub count_status : ℤ
  pub num_platforms : ℕ
  pub allocates : Bool
  pub platforms : List P
  pub platform_name : P → ℤ × Bytes
  pub device_count : P → T → ℤ × ℕ
  pub device_list : P → T → ℕ → ℤ × List D

module _ {P D T : Type 0} (a : Answers P D T) where
  -- the loop over the platforms, which stops at the first name that fits
  pub find_platform : Bytes → List P → Option P
  find_platform name [] = none
  find_platform name (p ∷ ps) =
      let (status, text) = a.platform_name p in
      if (status ==ℤ a.success) && strstr text name then some p else find_platform name ps

  -- the result and `*clSelectedPlatformID`
  unfoldable pub my_get_platform_id : Bytes → ℤ × Option P
  unfolding find_platform
  my_get_platform_id name =
      if not (a.count_status ==ℤ a.success)
      then (negsuc 999, none)
      else if a.num_platforms == 0
      then (negsuc 1999, none)
      else if not a.allocates
      then (negsuc 2999, none)
      else elim (find_platform name a.platforms) [
        | none ↦ (a.device_not_found, none)
        | some p ↦ (a.success, some p)
      ]

  -- behind the choice of the platform: both calls of `clGetDeviceIDs`
  devices_of : Option P → ℕ → T → Option (List D) × ℕ
  devices_of none num_devices type = (none, num_devices)
  devices_of (some p) num_devices type =
      let (counted, num_devs) = a.device_count p type in
      let (listed, devs) = a.device_list p type num_devs in
      if not (counted ==ℤ a.success)
      then (none, num_devices)
      else if not (listed ==ℤ a.success)
      then (none, 0)
      else (some devs, num_devs)

  -- the array returned, `none` for NULL, and `*num_devices`, given its value at the call
  unfoldable pub get_device_by_platform : ℕ → Bytes → T → Option (List D) × ℕ
  unfolding my_get_platform_id devices_of
  get_device_by_platform num_devices name type =
      let (err, platform) = my_get_platform_id name in
      if not (err ==ℤ a.success) then (none, num_devices) else devices_of platform num_devices type

  -- the form with a number; `cpu` and `gpu` are the device types of OpenCL
  unfoldable pub get_device_by_call : T → T → ℕ → ℕ → Option (List D) × ℕ
  unfolding get_device_by_platform
  get_device_by_call cpu gpu num_devices call =
      if call == 1
      then get_device_by_platform num_devices (codes "ATI") cpu
      else if call == 2
      then get_device_by_platform num_devices (codes "ATI") gpu
      else get_device_by_platform num_devices (codes "NVIDIA") gpu
