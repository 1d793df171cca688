-- ===== src/ArithSpeed/Lines.antt =====
-- The lines that main of arith_speed/arith_speed.cpp prints where its runs succeed.
use native.Mathlib.Nat.{mul-le-mul_left, mul-le-mul_right}
use u_clbench.Base.{
  ℕ, suc, ◌+◌, ◌*◌, ◌%◌, ◌^◌, ◌≤◌, ◌<◌, ◌≡◌, refl, ap, ◌∙◌, arith, Bool, true, false, Option, none,
  some, List, [], ◌∷◌, ◌++◌, map, All, leb, Bool-cases, inl, inr, if◌then◌else◌,
}
use u_clbench.Base.Int.{pos, ==ℤ_self}
use u_clbench.Base.Run.{done}
use u_clbench.Opencl.{
  context, queue, release, Call, Log, Env, Session, ok, Kind, call_only, new_or_fail,
  release_or_null, return_if_failed, new_object, create,
}
use u_clbench.Opencl.Staged.{
  Staged, Ends, Ends-behind, Timed, repeat_loop-Timed, mean, Timed-mean, concat_map, Ends-each,
}
use u_clbench.ArithSpeed.{Function}
use u_clbench.ArithSpeed.Settings.{Config}
use u_clbench.ArithSpeed.Jobs.{Range, work_range, vec_loop}
use u_clbench.ArithSpeed.Jobs.Halving.{demand, halved_times, halve_loop_enough}
use u_clbench.ArithSpeed.Driver.{
  is_lane, size_body, Device, Point, Line, width, largest, memory, widths, points, point_of,
  with_doubles, ws_loop, function_body, device_body, device_loop, arith_main,
}

-- Each point has two lines, one for each range, with times that are numbers.
abbrev pub twice : List Point → List Point
twice [] = []
twice (p ∷ ps) = p ∷ p ∷ twice ps

abbrev pub Printed : List Point → List Line → Type 0
Printed ps lines = (map (λ (l : Line). l.point) lines ≡ ps) × All (λ (l : Line). Timed l.time) lines

All-append : {A : Type 0} (P : A → Type 0) (xs ys : List A) → All P xs → All P ys → All P (xs ++ ys)
All-append P [] ys p q = q
All-append P (x ∷ xs) ys (p, ps) q = (p, All-append P xs ys ps q)

map-append : {A B : Type 0} (f : A → B) (xs ys : List A) → map f (xs ++ ys) ≡ map f xs ++ map f ys
map-append f [] ys = refl
map-append f (x ∷ xs) ys = ap (λ l. f x ∷ l) (map-append f xs ys)

Printed-append :
    (x y : List Point) (v w : List Line) → Printed x v → Printed y w → Printed (x ++ y) (v ++ w)
Printed-append x y v w (p, a) (q, b) = (
  map-append (λ (l : Line). l.point) v w
      ∙ ap (λ l. l ++ map (λ (l : Line). l.point) w) p
      ∙ ap (λ l. x ++ l) q,
  All-append _ v w a b,
)

-- what is asked for on a device: for each function each size, and for each of these the widths
abbrev pub function_points : Config → List ℕ → List ℕ → Option Function → List Point
function_points c ws sizes none = []
function_points c ws sizes (some f) =
    concat_map (λ size. concat_map (λ p. p ∷ p ∷ []) (points c ws f size)) sizes

abbrev pub device_points : Config → List ℕ → List (Option Function) → Device → List Point
device_points c ws functions d = concat_map (function_points c ws d.sizes) functions

-- The halving of the range ends on the device for each width up to `max_vec`.
abbrev pub Roomy : Config → ℕ → Device → Type 0
Roomy c fuel d =
    (2 * 8 * c.max_vec ≤ memory d)
    × (((largest c d).global_size + 2) * 8 * c.max_vec < 2 ^ 64)
    × ((largest c d).global_size < fuel)

abbrev pub IsNamed : Option Function → Type 0
IsNamed o = (f : Function) × (o ≡ some f)

-- a width that main comes to, and that has a vector type
abbrev pub Fine : Config → ℕ → Type 0
Fine c v = (v ≤ c.max_vec) × (is_lane v ≡ true)

abbrev Ended : Config → ℕ → ℕ → Type 0
Ended c f l = (ws : List ℕ) × (vec_loop f c.max_vec l ≡ done ws) × All (Fine c) ws

vec_loop_round :
    (c : Config) (f l : ℕ) → is_lane l ≡ true → l < 2 ^ 16 → Ended c f (l * 2) → Ended c (suc f) l
unfolding vec_loop
vec_loop_round c f l lane small (ws, e, a) =
    let m : l * 2 % 2 ^ 32 ≡ l * 2 = omega arith in
    elim (Bool-cases (leb l c.max_vec)) [
      | inl y ↦ (l ∷ ws, rw (vec_loop, y, m, e) refl, ((ground arith, lane), a))
      | inr n ↦ ([], rw (vec_loop, n) refl, tt)
    ]

above_max : (c : Config) → c.max_vec < 16 → leb 16 c.max_vec ≡ false
above_max c h = ground arith

-- Below 16 the loop over the widths ends, and each of them has a vector type.
pub widths_end :
    (c : Config) → c.max_vec < 16 → (ws : List ℕ) × (widths c ≡ done ws) × All (Fine c) ws
unfolding vec_loop
widths_end c h = vec_loop_round c 32 1 refl (omega arith) (
    vec_loop_round c 31 2 refl (omega arith) (
      vec_loop_round c 30 4 refl (omega arith)
        (vec_loop_round c 29 8 refl (omega arith) ([], rw (vec_loop, above_max c h) refl, tt))))

All-map :
    {A B : Type 0} (P : A → Type 0) (Q : B → Type 0) (f : A → B) (xs : List A)
    → ((x : A) → P x → Q (f x))
    → All P xs
    → All Q (map f xs)
All-map P Q f [] h p = tt
All-map P Q f (x ∷ xs) h (p, ps) = (h x p, All-map P Q f xs h ps)

points-Fine :
    (c : Config) (ws : List ℕ) (f : Function) (size : ℕ)
    → All (Fine c) ws
    → All (λ (p : Point). Fine c p.lanes) (points c ws f size)
unfolding points
points-Fine c ws f size fine =
    let fits = λ (p : Point). Fine c p.lanes in
    let row = λ (b : Bool). All-map (Fine c) fits (point_of f size b) ws (λ l h. h) fine in
    All-append fits (map (point_of f size false) ws) _ (row false)
      (elim (with_doubles c f)
        as (λ b. All fits (if b then map (point_of f size true) ws else [])) [
          | true ↦ row true
          | false ↦ tt
        ])

demand-bound :
    (b : Bool) (l m : ℕ) (r : Range)
    → l ≤ m
    → (demand (width b) l r ≤ (r.global_size + 2) * 8 * m) × (2 * width b * l ≤ 2 * 8 * m)
demand-bound true l m r h = (mul-le-mul_left ((r.global_size + 2) * 8) h, omega arith)
demand-bound false l m r h =
    let p : (r.global_size + 2) * 4 * l ≤ (r.global_size + 2) * 4 * m =
      mul-le-mul_left ((r.global_size + 2) * 4) h in
    let q : (r.global_size + 2) * 4 * m ≤ (r.global_size + 2) * 8 * m =
      mul-le-mul_right m (omega arith) in
    (omega arith, omega arith)

-- the range of the second round of the loop over `ws`
work_range_ends :
    (c : Config) (fuel : ℕ) (d : Device) (p : Point)
    → Roomy c fuel d
    → p.lanes ≤ c.max_vec
    → (r : Range) × (work_range fuel (width p.is_double) p.lanes (memory d) (largest c d) 1
        ≡ done r)
unfolding work_range
work_range_ends c fuel d p (room, wrap, enough) h =
    let (a, b) = demand-bound p.is_double p.lanes c.max_vec (largest c d) h in
    let (n, e, bound, least) =
      halve_loop_enough fuel (width p.is_double) p.lanes (memory d) (largest c d) (omega arith)
        (omega arith) enough in
    (halved_times n (largest c d), e)

module _ {F : Type 0} (e : Env F) (c : Config) (repeats fuel : ℕ) (run : Point → Range → Staged F ℕ)
    (answers : (log : Log F) (q : Call F) → e.status log q ≡ e.success)
    (runs : (p : Point) (r : Range) (s : Session F)
      → Fine c p.lanes
      → (t : ℕ) × (u : Session F) × (run p r s ≡ done (ok t, u)))
    (ws : List ℕ) (ended : widths c ≡ done ws) (fine : All (Fine c) ws)
    (some_repeats : 0 < repeats) where
  new_or_fail-Ends :
      (k : Kind) (s : Session F) → Ends (done (new_or_fail e k 0 (pos 1) s)) (λ o. Unit {0})
  unfolding new_or_fail new_object return_if_failed
  new_or_fail-Ends k s = (
    s.next,
    record {
      log = (create k s.next 0, e.status s.log (create k s.next 0)) ∷ s.log;
      next = suc s.next;
    },
    rw (answers s.log (create k s.next 0), ==ℤ_self e.success) refl,
    tt,
  )

  ws_loop-Printed :
      (d : Device) (p : Point) (s : Session F)
      → Roomy c fuel d
      → Fine c p.lanes
      → Ends (ws_loop e c repeats fuel run d p (0 ∷ 1 ∷ []) s) (Printed (p ∷ p ∷ []))
  unfolding ws_loop work_range
  ws_loop-Printed d p s room (h, lane) =
      let one : Range = record { local_size = 1; global_size = 1 } in
      let (r, q) = work_range_ends c fuel d p room h in
      let (a, s1, p1, (t1, w1)) =
        repeat_loop-Timed (λ (t : ℕ). t) (run p one) (λ s. runs p one s (h, lane)) repeats 0 s in
      let (b, s2, p2, (t2, w2)) =
        repeat_loop-Timed (λ (t : ℕ). t) (run p r) (λ s. runs p r s (h, lane)) repeats 0 s1 in
      (
        record { point = p; range = one; time = mean repeats (some t1) }
            ∷ record { point = p; range = r; time = mean repeats (some t2) }
            ∷ [],
        s2,
        rw (p1, w1) (rw (q, p2) (rw w2 refl)),
        (
          refl,
          (
            Timed-mean repeats (some t1) some_repeats (t1, refl),
            (Timed-mean repeats (some t2) some_repeats (t2, refl), tt),
          ),
        ),
      )

  sizes-Any : (sizes : List ℕ) → All (λ n. Unit {0}) sizes
  sizes-Any [] = tt
  sizes-Any (n ∷ sizes) = (tt, sizes-Any sizes)

  size_body-Printed :
      (d : Device) (f : Function) (size : ℕ) (s : Session F)
      → Roomy c fuel d
      → Ends
          (size_body e c repeats fuel run d f size s)
          (Printed (concat_map (λ p. p ∷ p ∷ []) (points c ws f size)))
  unfolding size_body
  size_body-Printed d f size s room =
      let (lines, t, p, q) =
        Ends-each Printed (λ p. ws_loop e c repeats fuel run d p (0 ∷ 1 ∷ [])) (λ p. p ∷ p ∷ [])
          (λ (p : Point). Fine c p.lanes) (refl, tt) Printed-append
          (λ p s h. ws_loop-Printed d p s room h) (points c ws f size) s
          (points-Fine c ws f size fine) in
      (lines, t, rw (size_body, ended) p, q)

  function_body-Printed :
      (d : Device) (o : Option Function) (s : Session F)
      → Roomy c fuel d
      → IsNamed o
      → Ends (function_body e c repeats fuel run d o s) (Printed (function_points c ws d.sizes o))
  unfolding function_body
  function_body-Printed d none s room (f, q) = cc
  function_body-Printed d (some f) s room q =
      Ends-each Printed (size_body e c repeats fuel run d f)
        (λ size. concat_map (λ p. p ∷ p ∷ []) (points c ws f size)) (λ size. Unit {0}) (refl, tt)
        Printed-append (λ size s u. size_body-Printed d f size s room) d.sizes s (sizes-Any d.sizes)

  device_body-Printed :
      (functions : List (Option Function)) (d : Device) (s : Session F)
      → Roomy c fuel d
      → All IsNamed functions
      → Ends
          (device_body e c repeats fuel run functions d s)
          (λ r. Printed (device_points c ws functions d) r.0)
  unfolding device_body call_only
  device_body-Printed functions d s room named =
      Ends-behind _ _ (new_or_fail-Ends context s) λ context' s1 u.
        Ends-behind _ _ (new_or_fail-Ends queue s1) λ commands s2 v.
          Ends-behind _ _
            (Ends-each Printed (function_body e c repeats fuel run d) (function_points c ws d.sizes)
              IsNamed (refl, tt) Printed-append (λ o s h. function_body-Printed d o s room h)
              functions s2 named)
            λ lines s3 w. ((lines, context'), (call_only e (release queue commands) s3).1, refl, w)

  device_loop-Printed :
      (functions : List (Option Function)) (devices : List Device) (last : Option ℕ) (s : Session F)
      → All (Roomy c fuel) devices
      → All IsNamed functions
      → Ends
          (device_loop e c repeats fuel run functions devices last s)
          (λ r. Printed (concat_map (device_points c ws functions) devices) r.0)
  unfolding device_loop
  device_loop-Printed functions [] last s rooms named = (([], last), s, refl, (refl, tt))
  device_loop-Printed functions (d ∷ devices) last s (room, rooms) named =
      Ends-behind _ _ (device_body-Printed functions d s room named) λ first s1 q.
        Ends-behind _ _ (device_loop-Printed functions devices (some first.1) s1 rooms named)
          λ rest s2 w. (
            (first.0 ++ rest.0, rest.1),
            s2,
            refl,
            Printed-append (device_points c ws functions d)
                (concat_map (device_points c ws functions) devices) first.0 rest.0 q w,
          )

last_release :
    {F : Type 0} (e : Env F) (o : Option ℕ) (s : Session F)
    → Ends (done (release_or_null e context o s)) (λ d. Unit {0})
unfolding release_or_null call_only
last_release e none s = (tt, s, refl, tt)
last_release e (some o) s = (tt, (call_only e (release context o) s).1, refl, tt)

-- Where OpenCL's calls and the runs succeed, the widths end and have vector types, each name of a function was known, and each device has
-- room for two numbers of 8 bytes for each of `max_vec` lanes, main prints two lines for each
-- device, function, size, type and width in turn, both with times that are numbers, and no other
-- line. Doubles are run for functions that do not count as transcendental, where they are asked
-- for.
pub arith_main-Printed :
    {F : Type 0} (e : Env F) (c : Config) (repeats fuel : ℕ) (run : Point → Range → Staged F ℕ)
    (functions : List (Option Function)) (devices : List Device) (s : Session F)
    → ((log : Log F) (q : Call F) → e.status log q ≡ e.success)
    → ((p : Point) (r : Range) (s : Session F)
        → Fine c p.lanes
        → (t : ℕ) × (u : Session F) × (run p r s ≡ done (ok t, u)))
    → (ws : List ℕ) → widths c ≡ done ws
    → All (Fine c) ws
    → 0 < repeats
    → All IsNamed functions
    → All (Roomy c fuel) devices
    → (lines : List Line) × (t : Session F) × (arith_main e c repeats fuel run functions devices s
        ≡ done (ok lines, t))
      × Printed (concat_map (device_points c ws functions) devices) lines
unfolding arith_main
arith_main-Printed e c repeats fuel run functions devices s answers runs ws ended fine some_repeats
      named rooms =
    Ends-behind _ _
      (device_loop-Printed e c repeats fuel run answers runs ws ended fine some_repeats functions
        devices none s rooms named)
      λ r s1 q. Ends-behind _ _ (last_release e r.1 s1) λ d s2 u. (r.0, s2, refl, q)
