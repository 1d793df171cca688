-- ===== src/Cllib/Platforms.antt =====
-- Platforms and devices: `get_all_platforms` and `get_all_devices` of cllib/clcommon.cpp. What
-- OpenCL answers is a parameter of each. A cell of an array is `none` until it is written.
pub mod Arrays
pub mod Concat
use u_clbench.Base.{
  ℕ, zero, suc, ◌+◌, ◌-◌, ◌%◌, ◌^◌, Bool, true, false, Option, none, some, List, [], ◌∷◌, not,
  ==_self, ◌==◌, if◌then◌else◌, length, replicate,
}
use u_clbench.Base.Int.{ℤ, pos, negsuc, ◌==ℤ◌}
use u_clbench.Cllib.Platforms.Arrays.{write_from}

-- What `get_all_platforms` leaves behind: its result, `*num_platforms` and `*err` where written.
pub record Platforms (P : Type 0) : Type 0 where
  pub ids : Option (List (Option P))
  pub num_platforms : Option ℕ
  pub err : Option ℤ

-- `count` is the answer of `clGetPlatformIDs(0, NULL, &num_pf)`, `allocates n` tells whether malloc
-- finds room for n identifiers, `written n` is what the second call writes, and `wants_err` is
-- `err != 0`.
pub get_all_platforms :
    {P : Type 0} (success : ℤ) (count : ℤ × ℕ) (allocates : ℕ → Bool) (written : ℕ → List P)
    → Bool
    → Platforms P
get_all_platforms {P} success (ci_err_num, num_pf) allocates written wants_err =
    if not (ci_err_num ==ℤ success)
    then failed (negsuc 999)
    else if num_pf == 0
    then failed (negsuc 1999)
    else if not (allocates num_pf)
    then failed (negsuc 2999)
    else record {
      ids = some (write_from (replicate num_pf none) 0 (written num_pf));
      num_platforms = some num_pf;
      err = none;
    }
  where
    failed : ℤ → Platforms P
    failed code = record {
      ids = none;
      num_platforms = none;
      err = if wants_err then some code else none;
    }

-- the cells behind the first
abbrev pub rest : List ℕ → List ℕ
rest [] = []
rest (x ∷ r) = r

module _ {P D : Type 0} (success : ℤ) (count_devices : P → Option ℕ)
    (list_devices : P → ℕ → ℤ × List D) where
  -- `count_devices p` is what `clGetDeviceIDs(p, CL_DEVICE_TYPE_ALL, 0, NULL, &num_devs[i])` writes,
  -- if it writes; `list_devices p n` is the result of the second call and the devices written.

  -- `num_devs[i]` behind the first call, over what malloc left there
  unfoldable pub counted : List ℕ → P → ℕ
  counted garbage p = elim (count_devices p) [
    | some n ↦ n
    | none ↦ elim garbage [ [] ↦ 0 | (x ∷ r) ↦ x ]
  ]

  -- the first loop: `num_devs` and `num_devices[0]`
  pub count_loop : List P → List ℕ → ℕ → List ℕ × ℕ
  count_loop [] garbage total = ([], total)
  count_loop (p ∷ ps) garbage total =
      let (ns, t) = count_loop ps (rest garbage) ((total + counted garbage p) % 2 ^ 32) in
      (counted garbage p ∷ ns, t)

  -- the second loop, from `offset` on: `devs` and `num_devices[0]`
  pub fill_loop : List P → List ℕ → ℕ → ℕ → List (Option D) → List (Option D) × ℕ
  fill_loop (p ∷ ps) (n ∷ ns) offset num devs =
      let (err, ds) = list_devices p n in
      let failed = not (err ==ℤ success) in
      fill_loop ps ns (if failed then offset else (offset + n) % 2 ^ 32)
        (if failed then (num + 2 ^ 32 - n) % 2 ^ 32 else num) (write_from devs offset ds)
  fill_loop ps ns offset num devs = (devs, num)

  -- the result and `*num_devices`
  unfoldable pub get_all_devices : List P → List ℕ → List (Option D) × ℕ
  unfolding counted count_loop fill_loop
  get_all_devices platforms garbage =
      let (num_devs, num_devices) = count_loop platforms garbage 0 in
      fill_loop platforms num_devs 0 num_devices (replicate num_devices none)
