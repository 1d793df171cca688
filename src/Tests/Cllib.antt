-- ===== src/Tests/Cllib.antt =====
-- The shared library at concrete inputs.
use u_clbench.Cllib.Kernels.{Loaded, c_string, load_kernel_mmap, load_kernel_stdio}
use u_clbench.Cllib.Kernels.Agree.{load_kernel_mmap-load_kernel_stdio}
use u_clbench.Cllib.Clock.{Timeval, current_msecs, elapsed_msecs}
use u_clbench.Base.Run.{done}
use u_clbench.Cllib.Dirname.{dirname}
use u_clbench.Base.Run.{fault}
use u_clbench.Base.{
  ltb, ap, if◌then◌else◌, All, false, ◌++◌, ◌≤◌, length-replicate, ℕ, suc, ◌+◌, ◌<◌, ◌≡◌, ◌≢◌, refl,
  true, Bool, Option, none, some, List, [], ◌∷◌, arith, length, take, map, zero, sym, ◌∙◌, ◌&&◌,
  dec_lt, replicate, ◌⊎◌, if◌then◌else◌,
}
use u_clbench.Base.Int.{ℤ, pos, negsuc, ◌==ℤ◌, ==ℤ_iff}
use u_clbench.Base.Text.{Bytes, codes, same, strstr}
use u_clbench.Cllib.Errors.{cases}
use u_clbench.Cllib.Errors.Texts.{Distinct, label, ocl_error_string_injective}
use u_clbench.Cllib.Platforms.{counted, get_all_devices}
use u_clbench.Cllib.Platforms.Arrays.{write_from}
use u_clbench.Cllib.Platforms.Concat.{devices_of, get_all_devices-concat}
use u_clbench.Cllib.Select.{Answers, my_get_platform_id, get_device_by_platform}
use u_clbench.Cllib.Select.Found.{
  IsFirst, Lists, my_get_platform_id-IsFirst, get_device_by_platform-Lists,
}

-- the place of a label in a list, one to one for the labels of the `switch`
abbrev place : List (Bytes × Bytes) → ℕ → Bytes → ℤ
place [] n b = negsuc 0
place ((l, t) ∷ cs) n b = if same b l then pos n else place cs (n + 1) b

abbrev value : Bytes → ℤ
value = place cases 0

-- the first `n` labels have their own places
abbrev at_places : ℕ → Bool
at_places zero = true
at_places (suc n) = (value (label cases n) ==ℤ pos n) && at_places n

all_at_places : at_places (length cases) ≡ true
unfolding cases same
all_at_places = refl

at_place : (n i : ℕ) → at_places n ≡ true → i < n → value (label cases i) ≡ pos i
at_place zero i h k = absurd (omega arith)
at_place (suc n) i h k = elim (dec_lt i n) [
  | yes l ↦ at_place n i (ground arith) l
  | no l ↦ let e : i ≡ n = omega arith in rw e ((==ℤ_iff _ _).0 (ground arith))
]

pos_injective : {m n : ℕ} → pos m ≡ pos n → m ≡ n
pos_injective h = cc

value-Distinct : Distinct value cases
value-Distinct i j h k e = pos_injective (
    sym (at_place (length cases) i all_at_places h) ∙ e ∙ at_place (length cases) j all_at_places k)

abbrev third : ℕ
third = 3

ocl_error_string_injective_example : third ≡ third
unfolding cases
ocl_error_string_injective_example =
    ocl_error_string_injective value third third value-Distinct (omega arith) (omega arith) refl

-- platform 0 has two devices, the call for platform 1 fails, platform 2 has one device
abbrev count_of : ℕ → Option ℕ
count_of zero = some 2
count_of (suc p) = some 1

abbrev list_of : ℕ → ℕ → ℤ × List ℕ
list_of zero n = (pos 0, replicate (if ltb n 2 then n else 2) 10)
list_of (suc zero) n = (negsuc 4, [])
list_of (suc (suc p)) n = (pos 0, replicate (if ltb n 1 then n else 1) 30)

get_all_devices_run :
    get_all_devices (pos 0) count_of list_of (0 ∷ 1 ∷ 2 ∷ []) []
    ≡ (some 10 ∷ some 10 ∷ some 30 ∷ none ∷ [], 3)
unfolding get_all_devices write_from
get_all_devices_run = refl

abbrev success : ℤ
success = pos 0

list_of-length : (p n : ℕ) → length (list_of p n).1 ≤ n
list_of-length zero n =
    let l = length-replicate {A = ℕ} (if ltb n 2 then n else 2) 10 in ground arith
list_of-length (suc zero) n = omega arith
list_of-length (suc (suc p)) n =
    let l = length-replicate {A = ℕ} (if ltb n 1 then n else 1) 30 in ground arith

some_of : {a b : ℕ} → some a ≡ some b → a ≡ b
some_of e = cc

list_of-fills :
    (p available n : ℕ)
    → count_of p ≡ some available
    → ((list_of p n).0 ==ℤ success) ≡ true
    → length (list_of p n).1 ≡ (if ltb n available then n else available)
list_of-fills zero available n e w =
    length-replicate {A = ℕ} (if ltb n 2 then n else 2) 10
    ∙ ap (λ a. if ltb n a then n else a) (some_of e)
list_of-fills (suc zero) available n e w = ground arith
list_of-fills (suc (suc p)) available n e w =
    length-replicate {A = ℕ} (if ltb n 1 then n else 1) 30
    ∙ ap (λ a. if ltb n a then n else a) (some_of e)

list_of_silent : (p n : ℕ) → count_of p ≡ none → ((list_of p n).0 ==ℤ success) ≡ false
list_of_silent zero n e = cc
list_of_silent (suc p) n e = cc

get_all_devices-concat_example :
    ((get_all_devices success count_of list_of (0 ∷ 1 ∷ 2 ∷ []) []).1
      ≡ length (devices_of success count_of list_of (0 ∷ 1 ∷ 2 ∷ []) (2 ∷ 1 ∷ 1 ∷ [])))
    × (take
          (get_all_devices success count_of list_of (0 ∷ 1 ∷ 2 ∷ []) []).1
          (get_all_devices success count_of list_of (0 ∷ 1 ∷ 2 ∷ []) []).0
        ≡ map (λ x. some x) (devices_of success count_of list_of (0 ∷ 1 ∷ 2 ∷ []) (2 ∷ 1 ∷ 1 ∷ [])))
unfolding counted
get_all_devices-concat_example =
    get_all_devices-concat success count_of list_of (0 ∷ 1 ∷ 2 ∷ []) []
      (record { filled = list_of-fills; inside = list_of-length; silent = list_of_silent })
      (omega arith)

-- platform 1 does not tell its name, platforms 0, 2 and 3 do
abbrev name_of : ℕ → ℤ × Bytes
name_of zero = (pos 0, codes "AMD ATI Stream")
name_of (suc zero) = (negsuc 29, [])
name_of (suc (suc p)) = (pos 0, codes "NVIDIA CUDA")

abbrev answers : Answers ℕ ℕ ℕ
answers = record {
  success = pos 0;
  device_not_found = negsuc 0;
  count_status = pos 0;
  num_platforms = 4;
  allocates = true;
  platforms = 0 ∷ 1 ∷ 2 ∷ 3 ∷ [];
  platform_name = name_of;
  device_count = λ p t. (pos 0, p);
  device_list = λ p t n. (pos 0, replicate n (100 + p));
}

my_get_platform_id_run : my_get_platform_id answers (codes "NVIDIA") ≡ (pos 0, some 2)
unfolding my_get_platform_id strstr
my_get_platform_id_run = refl

my_get_platform_id-IsFirst_example :
    IsFirst answers
      (codes "CUDA")
      (0 ∷ 1 ∷ 2 ∷ 3 ∷ [])
      (my_get_platform_id answers (codes "CUDA")).1
    × (((my_get_platform_id answers (codes "CUDA")).1 ≡ none)
          × ((my_get_platform_id answers (codes "CUDA")).0 ≡ negsuc 0)
        ⊎ ((my_get_platform_id answers (codes "CUDA")).1 ≢ none)
          × ((my_get_platform_id answers (codes "CUDA")).0 ≡ pos 0))
my_get_platform_id-IsFirst_example =
    my_get_platform_id-IsFirst answers (codes "CUDA") refl refl refl

get_device_by_platform-Lists_example :
    (p : ℕ) × IsFirst answers (codes "NVIDIA") (0 ∷ 1 ∷ 2 ∷ 3 ∷ []) (some p)
    × Lists answers p 4 (102 ∷ 102 ∷ []) (get_device_by_platform answers 9 (codes "NVIDIA") 4).1
unfolding get_device_by_platform strstr
get_device_by_platform-Lists_example =
    get_device_by_platform-Lists answers 9 (codes "NVIDIA") 4 (102 ∷ 102 ∷ []) refl

-- one file of three bytes and a NUL
abbrev files : Bytes → Option Bytes
files path = some (codes "src" ++ 0 ∷ codes "tail")

-- the program made of a text is the text
abbrev create : Bytes → Option Bytes × ℤ
create text = (some text, pos 0)

load_kernel_mmap-load_kernel_stdio_example :
    (l : Loaded Bytes) × (load_kernel_mmap
        (pos 0)
        files
        create
        4096
        (codes "k.cl")
        (codes "#define A\n")
      ≡ done l)
    × (l.program ≡ some (codes "#define A\n" ++ c_string (codes "src" ++ 0 ∷ codes "tail")))
    × (l.program
        ≡ (load_kernel_stdio
            (pos 0)
            files
            create
            4096
            (codes "k.cl")
            (codes "#define A\n")).program)
    × ((load_kernel_stdio (pos 0) files create 4096 (codes "k.cl") (codes "#define A\n")).left_open
        ≡ false)
    × (l.program ≡ none → l.left_open ≡ true)
load_kernel_mmap-load_kernel_stdio_example =
    load_kernel_mmap-load_kernel_stdio (pos 0) files create 4096 (codes "k.cl")
      (codes "#define A\n") (codes "src" ++ 0 ∷ codes "tail") (λ text p e. refl) refl (omega arith)
      no_nul
  where
    no_nul : All (λ (c : ℕ). c ≢ 0) (codes "#define A\n")
    no_nul = (
      omega arith,
      (
        omega arith,
        (
          omega arith,
          (
            omega arith,
            (
              omega arith,
              (omega arith, (omega arith, (omega arith, (omega arith, (omega arith, tt))))),
            ),
          ),
        ),
      ),
    )

abbrev first_time : Timeval
first_time = record { tv_sec = 9; tv_usec = 999999 }

abbrev second_time : Timeval
second_time = record { tv_sec = 12; tv_usec = 5 }

elapsed_run : elapsed_msecs second_time (current_msecs first_time) ≡ 2001
unfolding elapsed_msecs
elapsed_run = refl

-- slashes behind the last name are taken off in a round of their own
trailing_run : dirname 2 (codes "usr/lib//") ≡ done (codes "usr")
unfolding dirname
trailing_run = refl

-- slashes from the start of the path up to the last name: the loop reads in front of the path
leading_run : dirname 1 (codes "//lib") ≡ fault
unfolding dirname
leading_run = refl
