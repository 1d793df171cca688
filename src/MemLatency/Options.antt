-- ===== src/MemLatency/Options.antt =====
-- Parsing of `--type` and `--layout`, and what is run for them: mem_latency/mem_latency.cpp, main.
use u_clbench.Base.{
  All, ℕ, ◌*◌, ◌^◌, ◌≡◌, Bool, true, false, List, [], ◌∷◌, ◌++◌, map, if◌then◌else◌,
}
use u_clbench.Base.{◌-◌, refl, ◌≢◌, ap, ==_ne, inl, inr, Bool-cases}
use u_clbench.Base.Int.{ℤ, pos, negsuc, ◌==ℤ◌}
use u_clbench.Base.Text.{Bytes, codes, same}
use u_clbench.MemLatency.{
  MemType, global, constant, local, DataLayout, sequential, cache_step, mtype_to_string,
  data_layout_to_string,
}

-- the options of main that choose what is run; -1 is `none`
pub record Choice : Type 0 where
  pub mem_type : MemType
  pub type_set : Bool
  pub data_layout : DataLayout
  pub layout_set : Bool

abbrev pub initial : Choice
initial = record {
  mem_type = global;
  type_set = false;
  data_layout = cache_step;
  layout_set = false;
}

-- `case 'd'`: one round of the loop over the types
abbrev try_type : Bytes → Choice → MemType → Choice
try_type arg c t =
    if same (mtype_to_string t) arg then record c { mem_type = t; type_set = true } else c

unfoldable pub parse_type : Bytes → Choice → Choice
unfolding mtype_to_string same
parse_type arg c = try_type arg (try_type arg (try_type arg c global) constant) local

-- `case 'f'`: one round of the loop over the layouts
abbrev try_layout : Bytes → Choice → DataLayout → Choice
try_layout arg c t =
    if same (data_layout_to_string t) arg
    then record c { data_layout = t; layout_set = true }
    else c

unfoldable pub parse_layout : Bytes → Choice → Choice
unfolding data_layout_to_string same
parse_layout arg c = try_layout arg (try_layout arg c sequential) cache_step

-- an `int` or a `long` as an `unsigned long`
abbrev pub to_ulong : ℤ → ℕ
to_ulong (pos n) = n
to_ulong (negsuc n) = 2 ^ 64 - 1 - n

abbrev is_unset : ℤ → Bool
is_unset v = v ==ℤ negsuc 0

-- `DEFAULT_..._ITERATIONS` and `DEFAULT_..._BYTESIZE`
pub default_iterations : MemType → ℕ
default_iterations local = 1000
default_iterations constant = 1000
default_iterations global = 2

pub default_bytesize : MemType → ℕ
default_bytesize local = 32 * 1024 * 1024
default_bytesize constant = 32 * 1024 * 1024
default_bytesize global = 32 * 1024 * 1024

-- one call of `run_latency_benchmark`
pub record Job : Type 0 where
  pub layout : DataLayout
  pub mem_type : MemType
  pub iterations : ℕ
  pub bytesize : ℕ

-- the body of the loop over the memory types, for one of them
default_job : DataLayout → ℤ → ℤ → MemType → Job
unfolding default_iterations default_bytesize
default_job layout it bs t = record {
  layout = layout;
  mem_type = t;
  iterations = if is_unset it then default_iterations t else to_ulong it;
  bytesize = if is_unset bs then default_bytesize t else to_ulong bs;
}

-- the body when the type was given
given_job : DataLayout → ℤ → ℤ → MemType → Job
given_job layout it bs t = record {
  layout = layout;
  mem_type = t;
  iterations = to_ulong it;
  bytesize = to_ulong bs;
}

-- the loop over `mtcnt`
layout_jobs : Choice → ℤ → ℤ → DataLayout → List Job
layout_jobs c it bs layout =
    if c.type_set
    then given_job layout it bs c.mem_type ∷ []
    else map (default_job layout it bs) (global ∷ constant ∷ local ∷ [])

-- the loop over `layoutcnt`: the calls made for one device
unfoldable pub device_jobs : Choice → ℤ → ℤ → List Job
unfolding layout_jobs default_job given_job
device_jobs c it bs =
    if c.layout_set
    then layout_jobs c it bs c.data_layout
    else layout_jobs c it bs sequential ++ layout_jobs c it bs cache_step

-- Each name that `mtype_to_string` and `data_layout_to_string` print is read back as the type
-- and the layout that it names, whatever was chosen before, and leaves the other choice alone.
pub parse_names :
    (t : MemType) (l : DataLayout) (c : Choice)
    → (parse_type (mtype_to_string t) c ≡ record c { mem_type = t; type_set = true })
      × (parse_layout (data_layout_to_string l) c ≡ record c { data_layout = l; layout_set = true })
unfolding parse_type parse_layout
parse_names global sequential c = (refl, refl)
parse_names global cache_step c = (refl, refl)
parse_names constant sequential c = (refl, refl)
parse_names constant cache_step c = (refl, refl)
parse_names local sequential c = (refl, refl)
parse_names local cache_step c = (refl, refl)

-- The names that the usage text gives for the constant memory and for the cache-step layout are
-- not the names that are read: whatever was chosen before stays.
pub parse_documented_names :
    (c : Choice) → (parse_type (codes "constant") c ≡ c) × (parse_layout (codes "cachestep") c ≡ c)
unfolding parse_type parse_layout
parse_documented_names c = (refl, refl)

device_jobs_unset :
    (c : Choice) (it bs : ℤ)
    → c.type_set ≡ false
    → c.layout_set ≡ false
    → device_jobs c it bs
      ≡ map (default_job sequential it bs) (global ∷ constant ∷ local ∷ [])
        ++ map (default_job cache_step it bs) (global ∷ constant ∷ local ∷ [])
unfolding device_jobs
device_jobs_unset c it bs h k = rw (h, k)

-- When a memory type is given and no number of iterations and no size, every run is made with
-- both at 2 ^ 64 - 1, and not with the defaults of that type.
pub device_jobs-type_set :
    (c : Choice)
    → c.type_set ≡ true
    → All
        (λ j. (j.mem_type ≡ c.mem_type) × (j.iterations ≡ 2 ^ 64 - 1) × (j.bytesize ≡ 2 ^ 64 - 1))
        (device_jobs c (negsuc 0) (negsuc 0))
unfolding device_jobs
device_jobs-type_set c h = elim (Bool-cases c.layout_set) [
  | inl e ↦ rw (e, h) ((refl, refl, refl), tt)
  | inr e ↦ rw (e, h) ((refl, refl, refl), ((refl, refl, refl), tt))
]

-- the values of a job for which the command line gives `it` and `bs`
abbrev pub Meets : ℤ → ℤ → Job → Type 0
Meets it bs j =
    (it ≡ negsuc 0 → j.iterations ≡ default_iterations j.mem_type)
    × (bs ≡ negsuc 0 → j.bytesize ≡ 2 ^ 25)
    × (it ≢ negsuc 0 → j.iterations ≡ to_ulong it)
    × (bs ≢ negsuc 0 → j.bytesize ≡ to_ulong bs)

is_unset_no : (v : ℤ) → v ≢ negsuc 0 → is_unset v ≡ false
is_unset_no (pos n) h = refl
is_unset_no (negsuc n) h = ==_ne n 0 (λ e. h (ap (λ x. negsuc x) e))

default_job-Meets : (l : DataLayout) (it bs : ℤ) (t : MemType) → Meets it bs (default_job l it bs t)
unfolding default_job
default_job-Meets l it bs global =
    (λ e. rw e, λ e. rw e, λ e. rw (is_unset_no it e), λ e. rw (is_unset_no bs e))
default_job-Meets l it bs _ =
    (λ e. rw e, λ e. rw e, λ e. rw (is_unset_no it e), λ e. rw (is_unset_no bs e))

abbrev pub job_pair : Job → DataLayout × MemType
job_pair j = (j.layout, j.mem_type)

-- Without a type and a layout on the command line each pair of them is run once, layouts
-- outermost; an iteration count or a size of -1 stands for the default of the type, and any
-- other is passed on.
pub device_jobs-All :
    (c : Choice) (it bs : ℤ)
    → c.type_set ≡ false
    → c.layout_set ≡ false
    → (map job_pair (device_jobs c it bs)
        ≡ (sequential, global)
          ∷ (sequential, constant)
          ∷ (sequential, local)
          ∷ (cache_step, global)
          ∷ (cache_step, constant)
          ∷ (cache_step, local)
          ∷ [])
      × All (Meets it bs) (device_jobs c it bs)
unfolding default_job
device_jobs-All c it bs h k =
    let m = λ (l : DataLayout) (t : MemType). default_job-Meets l it bs t in
    rw (device_jobs_unset c it bs h k) (
      refl,
      (
        m sequential global,
        (
          m sequential constant,
          (
            m sequential local,
            (m cache_step global, (m cache_step constant, (m cache_step local, tt))),
          ),
        ),
      ),
    )
