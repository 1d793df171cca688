-- ===== src/Opencl.antt =====
-- The calls of OpenCL that the benchmarks make, as a log, and code that makes them, can return
-- early and can exit. What OpenCL answers is a parameter.
pub mod Answers
pub mod Held
pub mod Honest
pub mod Objects
pub mod Staged
pub mod Triples
use Prim.Native.Nat.{bit_or}
use u_clbench.Base.{
  ℕ, zero, suc, ◌+◌, ◌-◌, ◌%◌, ◌^◌, Option, none, some, ltb, Bool, true, false, List, [], ◌∷◌, not,
  if◌then◌else◌,
}
use u_clbench.Base.Int.{ℤ, pos, negsuc, ◌==ℤ◌}

-- The kinds of objects that are created and released; `region` is a buffer that is mapped.
pub data Kind : Type 0 where
  context queue program kernel buffer region event : Kind

-- A call, with the numbers of the objects that it is about. `store` is the host's `memcpy` into a
-- mapped buffer; sizes are in bytes. An argument of a kernel is set by its size, or by the object
-- or number that it is where that matters; `get_profiling` asks for the start or the end of a
-- run. `F` are the numbers that are transferred.
pub data Call (F : Type 0) : Type 0 where
  create : Kind → ℕ → ℕ → Call F
  release : Kind → ℕ → Call F
  write_buffer : ℕ → List F → Call F
  read_buffer : ℕ → ℕ → Call F
  copy_buffer : ℕ → ℕ → Call F
  store : ℕ → List F → Call F
  set_kernel_arg : ℕ → ℕ → ℕ → Call F
  build_program : ℕ → Call F
  enqueue_kernel : ℕ → ℕ → ℕ → Call F
  set_kernel_value : ℕ → ℕ → ℕ → Call F
  get_profiling : ℕ → Call F
  finish flush wait_for_events : Call F

-- the calls made with their error codes, the latest first
abbrev pub Log : Type 0 → Type 0
Log F = List (Call F × ℤ)

-- What OpenCL answers to a call behind a log: the error code, and what stands in a buffer that is
-- read or mapped.
pub record Env (F : Type 0) : Type 0 where
  pub success : ℤ
  pub status : Log F → Call F → ℤ
  pub seen : Log F → ℕ → List F

-- `next` is the number of the object that is created next.
pub record Session (F : Type 0) : Type 0 where
  pub log : Log F
  pub next : ℕ

-- `ok` goes on, `returned` is `return` from the function, `exited` is `exit`.
pub data Outcome (A : Type 0) : Type 0 where
  ok : A → Outcome A
  returned : ℤ → Outcome A
  exited : ℤ → Outcome A

abbrev pub Action : Type 0 → Type 0 → Type 0
Action F A = Session F → Outcome A × Session F

abbrev pub Done : Type 0
Done = Unit {0}

module _ {F A : Type 0} where
  abbrev pub pure : A → Action F A
  pure a s = (ok a, s)

  abbrev pub return_with : ℤ → Action F A
  return_with err s = (returned err, s)

  abbrev pub exit_with : ℤ → Action F A
  exit_with code s = (exited code, s)

-- the 32 bits of an `int`, and the `int` of 32 bits
abbrev pub word : ℤ → ℕ
word (pos n) = n % 2 ^ 32
word (negsuc n) = 2 ^ 32 - 1 - n % 2 ^ 32

abbrev pub int : ℕ → ℤ
int n = if ltb n (2 ^ 31) then pos n else negsuc (2 ^ 32 - 1 - n)

-- `|` of two error codes
unfoldable pub or_codes : ℤ → ℤ → ℤ
or_codes a b = int (bit_or (word a) (word b))

infixl 5 ◌>>=◌ ◌>>◌
abbrev pub ◌>>=◌ : {F A B : Type 0} → Action F A → (A → Action F B) → Action F B
◌>>=◌ m f s = elim (m s).0 [
  | ok a ↦ f a (m s).1
  | returned err ↦ (returned err, (m s).1)
  | exited code ↦ (exited code, (m s).1)
]

abbrev pub ◌>>◌ : {F A B : Type 0} → Action F A → Action F B → Action F B
m >> k = m >>= λ _. k

module _ {F : Type 0} (e : Env F) where
  -- a call whose error code is looked at
  unfoldable pub call : Call F → Action F ℤ
  call c s = (ok (e.status s.log c), record s { log = (c, e.status s.log c) ∷ s.log })

  -- a call whose error code is dropped
  unfoldable pub call_only : Call F → Action F Done
  unfolding call
  call_only c = call c >>= λ err. pure tt

  -- a call that hands out an event: its number and the code of the call. The event stands in the
  -- log as a creation with that code.
  unfoldable pub with_event : Call F → Action F (ℕ × ℤ)
  with_event c s =
      let err = e.status s.log c in
      (
        ok (s.next, err),
        record { log = (create event s.next 0, err) ∷ (c, err) ∷ s.log; next = suc s.next },
      )

  -- what stands in a buffer
  unfoldable pub contents_seen : ℕ → Action F (List F)
  contents_seen b s = (ok (e.seen s.log b), s)

  -- a new object: its number, and the error code
  unfoldable pub new_object : Kind → ℕ → Action F (ℕ × ℤ)
  new_object k bytes s =
      let c = create k s.next bytes in
      (
        ok (s.next, e.status s.log c),
        record { log = (c, e.status s.log c) ∷ s.log; next = suc s.next },
      )

  abbrev pub failed : ℤ → Bool
  failed err = not (err ==ℤ e.success)

  -- `if(err != CL_SUCCESS) return code;`
  unfoldable pub return_if_failed : ℤ → ℤ → Action F Done
  return_if_failed err code = if failed err then return_with code else pure tt

  -- a new object, and `return` with the error code when there is none
  unfoldable pub new_or_return : Kind → ℕ → Action F ℕ
  unfolding new_object return_if_failed
  new_or_return k bytes = new_object k bytes >>= λ (b, err). return_if_failed err err >> pure b

  -- `clEnqueueMapBuffer` for buffer `b`: the error code
  unfoldable pub map_buffer : ℕ → ℕ → Action F ℤ
  unfolding call
  map_buffer b bytes = call (create region b bytes)

  -- the same, and `return` with the error code when it fails
  unfoldable pub map_or_return : ℕ → ℕ → Action F Done
  unfolding map_buffer return_if_failed
  map_or_return b bytes = map_buffer b bytes >>= λ err. return_if_failed err err

  -- a new object, and `return code;` where there is none
  unfoldable pub new_or_fail : Kind → ℕ → ℤ → Action F ℕ
  unfolding new_object return_if_failed
  new_or_fail k bytes code = new_object k bytes >>= λ (b, err). return_if_failed err code >> pure b

  -- the same for a call that hands out an event
  unfoldable pub start_or_fail : Call F → ℤ → Action F ℕ
  unfolding with_event return_if_failed
  start_or_fail c code = with_event c >>= λ (v, err). return_if_failed err code >> pure v

  -- a new object whose error code is not asked for; `none` is NULL
  unfoldable pub new_or_null : Kind → ℕ → Action F (Option ℕ)
  unfolding new_object
  new_or_null k bytes =
      new_object k bytes >>= λ (b, err). pure (if err ==ℤ e.success then some b else none)

  -- The release of NULL fails and does nothing.
  unfoldable pub release_or_null : Kind → Option ℕ → Action F Done
  unfolding call_only
  release_or_null k none = pure tt
  release_or_null k (some o) = call_only (release k o)
