-- ===== src/Cllib/Platforms/Concat.antt =====
-- `get_all_devices` returns the devices of every platform that answered, in their order.
use mathlib.Core.List.{append-nil, append_assoc, map-append}
use u_clbench.Base.{
  ltb, ℕ, suc, ◌+◌, ◌-◌, ◌%◌, ◌^◌, ◌≤◌, ◌<◌, ◌≡◌, refl, ap, sym, ◌∙◌, arith, Bool, Option, none,
  some, List, [], ◌∷◌, ◌++◌, map, true, false, if◌then◌else◌, Bool-cases, inl, inr, length, take,
  replicate, length-append, length-replicate,
}
use u_clbench.Base.Int.{ℤ, ◌==ℤ◌}
use u_clbench.Cllib.Platforms.{count_loop, counted, rest, fill_loop, get_all_devices}
use u_clbench.Cllib.Platforms.Arrays.{
  write_from, length-write_from, take-write_from, take-write_from_before,
}

module _ {P D : Type 0} (success : ℤ) (count_devices : P → Option ℕ)
    (list_devices : P → ℕ → ℤ × List D) where
  abbrev pub answers : P → ℕ → Bool
  answers p n = (list_devices p n).0 ==ℤ success

  -- the devices of the platforms that answer, given the counts
  abbrev pub devices_of : List P → List ℕ → List D
  devices_of (p ∷ ps) (n ∷ ns) =
      (if answers p n then (list_devices p n).1 else []) ++ devices_of ps ns
  devices_of _ _ = []

  abbrev pub total : List ℕ → ℕ
  total [] = 0
  total (n ∷ ns) = n + total ns

  -- What OpenCL documents of the two calls: when the second succeeds, it writes as many devices as
  -- there are, but no more than it has room for; when it fails, it writes no more than that either;
  -- and a platform that does not tell its number of devices has none to list.
  pub record Documented : Type 0 where
    pub filled :
        (p : P) (available n : ℕ)
        → count_devices p ≡ some available
        → answers p n ≡ true
        → length (list_devices p n).1 ≡ (if ltb n available then n else available)
    pub inside : (p : P) (n : ℕ) → length (list_devices p n).1 ≤ n
    pub silent : (p : P) (n : ℕ) → count_devices p ≡ none → answers p n ≡ false

  -- Each platform fills the room that it was given.
  abbrev Fills : List P → List ℕ → Type 0
  Fills [] ns = Unit
  Fills (p ∷ ps) [] = Unit
  Fills (p ∷ ps) (n ∷ ns) =
      (answers p n ≡ true → length (list_devices p n).1 ≡ n)
      × (length (list_devices p n).1 ≤ n)
      × Fills ps ns

  -- `done` devices stand in front of `offset`
  record Copied (devs : List (Option D)) (offset : ℕ) (copied : List D) : Type 0 where
    front : take offset devs ≡ map (λ x. some x) copied
    size : length copied ≡ offset

  Copied-answer :
      (p : P) (n offset : ℕ) (devs : List (Option D)) (copied : List D)
      → length (list_devices p n).1 ≡ n
      → answers p n ≡ true
      → Copied devs offset copied
      → offset + n ≤ length devs
      → Copied
          (write_from devs offset (list_devices p n).1)
          (offset + n)
          (copied ++ (list_devices p n).1)
  Copied-answer p n offset devs copied d w c h = record {
    front =
        take-write_from devs offset (offset + n) (list_devices p n).1 (ap (λ (x : ℕ). offset + x) d)
          h
        ∙ rw (c.front) (sym (map-append (λ x. some x) copied (list_devices p n).1));
    size = omega (arith, length-append copied (list_devices p n).1, c.size, d);
  }

  Copied-failure :
      (p : P) (n offset : ℕ) (devs : List (Option D)) (copied : List D)
      → Copied devs offset copied
      → Copied (write_from devs offset (list_devices p n).1) offset copied
  Copied-failure p n offset devs copied c = record {
    front = take-write_from_before devs offset (list_devices p n).1 ∙ c.front;
    size = c.size;
  }

  Copied-regroup :
      (p : P) (ps : List P) (n : ℕ) (ns : List ℕ) (k : ℕ) (devs : List (Option D)) (copied : List D)
      → answers p n ≡ true
      → Copied devs k ((copied ++ (list_devices p n).1) ++ devices_of ps ns)
      → Copied devs k (copied ++ devices_of (p ∷ ps) (n ∷ ns))
  Copied-regroup p ps n ns k devs copied w c =
      rw w (rw (append_assoc copied (list_devices p n).1 (devices_of ps ns)) at c)

  fill_loop_end :
      (offset num : ℕ) (devs : List (Option D))
      → num ≡ offset
      → fill_loop success count_devices list_devices [] [] offset num devs ≡ (devs, offset)
  unfolding fill_loop
  fill_loop_end offset num devs e = rw e

  record Filled (ps : List P) (ns : List ℕ) (offset num : ℕ) (devs : List (Option D))
      (copied : List D) : Type 0 where
    num' : ℕ
    devs' : List (Option D)
    ran : fill_loop success count_devices list_devices ps ns offset num devs ≡ (devs', num')
    whole : Copied devs' num' (copied ++ devices_of ps ns)

  -- one platform of the second loop
  fill_loop_answer :
      (p : P) (ps : List P) (n : ℕ) (ns : List ℕ) (offset num : ℕ) (devs : List (Option D))
      → answers p n ≡ true
      → offset + n < 2 ^ 32
      → fill_loop success count_devices list_devices (p ∷ ps) (n ∷ ns) offset num devs
        ≡ fill_loop success count_devices list_devices ps ns
            (offset + n)
            num
            (write_from devs offset (list_devices p n).1)
  unfolding fill_loop
  fill_loop_answer p ps n ns offset num devs w b =
      let e : (offset + n) % 2 ^ 32 ≡ offset + n = omega arith in rw (w, e)

  fill_loop_failure :
      (p : P) (ps : List P) (n : ℕ) (ns : List ℕ) (offset num : ℕ) (devs : List (Option D))
      → answers p n ≡ false
      → n ≤ num
      → num < 2 ^ 32
      → fill_loop success count_devices list_devices (p ∷ ps) (n ∷ ns) offset num devs
        ≡ fill_loop success count_devices list_devices ps ns offset
            (num - n)
            (write_from devs offset (list_devices p n).1)
  unfolding fill_loop
  fill_loop_failure p ps n ns offset num devs w h b =
      let e : (num + 2 ^ 32 - n) % 2 ^ 32 ≡ num - n = omega arith in rw (w, e)

  fill_loop-Filled :
      (ps : List P) (ns : List ℕ) (offset num : ℕ) (devs : List (Option D)) (copied : List D)
      → Fills ps ns
      → length ps ≡ length ns
      → Copied devs offset copied
      → num ≡ offset + total ns
      → num ≤ length devs
      → num < 2 ^ 32
      → Filled ps ns offset num devs copied
  fill_loop-Filled [] [] offset num devs copied d l c e h b = record {
    num' = offset;
    devs' = devs;
    ran = fill_loop_end offset num devs (omega arith);
    whole = rw append-nil c;
  }
  fill_loop-Filled [] (n ∷ ns) offset num devs copied d l c e h b = absurd (omega arith)
  fill_loop-Filled (p ∷ ps) [] offset num devs copied d l c e h b = absurd (omega arith)
  fill_loop-Filled (p ∷ ps) (n ∷ ns) offset num devs copied (fills, inside, d) l c e h b =
      elim (Bool-cases (answers p n)) [
        | inl w ↦
            let f =
              fill_loop-Filled ps ns (offset + n) num (write_from devs offset (list_devices p n).1)
                (copied ++ (list_devices p n).1) d (omega arith)
                (Copied-answer p n offset devs copied (fills w) w c (omega arith)) (omega arith)
                (omega (arith, length-write_from devs offset (list_devices p n).1)) b in
            record {
              num' = f.num';
              devs' = f.devs';
              ran = fill_loop_answer p ps n ns offset num devs w (omega arith) ∙ f.ran;
              whole = Copied-regroup p ps n ns f.num' f.devs' copied w f.whole;
            }
        | inr w ↦
            let f =
              fill_loop-Filled ps ns offset (num - n) (write_from devs offset (list_devices p n).1)
                copied d (omega arith) (Copied-failure p n offset devs copied c) (omega arith)
                (omega (arith, length-write_from devs offset (list_devices p n).1)) (omega arith) in
            record {
              num' = f.num';
              devs' = f.devs';
              ran = fill_loop_failure p ps n ns offset num devs w (omega arith) b ∙ f.ran;
              whole = rw w f.whole;
            }
      ]

  -- the number of devices of each platform, as the first calls tell it
  abbrev pub counts : List P → List ℕ → List ℕ
  counts [] garbage = []
  counts (p ∷ ps) garbage =
      counted success count_devices list_devices garbage p ∷ counts ps (rest garbage)

  length-counts : (ps : List P) (garbage : List ℕ) → length ps ≡ length (counts ps garbage)
  length-counts [] garbage = refl
  length-counts (p ∷ ps) garbage = ap suc (length-counts ps (rest garbage))

  count_loop-counts :
      (ps : List P) (garbage : List ℕ) (start end : ℕ)
      → start + total (counts ps garbage) ≡ end
      → end < 2 ^ 32
      → count_loop success count_devices list_devices ps garbage start ≡ (counts ps garbage, end)
  unfolding count_loop
  count_loop-counts [] garbage start end e b =
      ap (λ (x : ℕ). let r : List ℕ × ℕ = ([], x) in r) (omega arith)
  count_loop-counts (p ∷ ps) garbage start end e b =
      let n = counted success count_devices list_devices garbage p in
      let w : (start + n) % 2 ^ 32 ≡ start + n = omega arith in
      rw (w, count_loop-counts ps (rest garbage) (start + n) end (omega arith) b)

  counted-fills :
      (garbage : List ℕ) (p : P) (available : Option ℕ)
      → count_devices p ≡ available
      → Documented
      → answers p (counted success count_devices list_devices garbage p) ≡ true
      → length (list_devices p (counted success count_devices list_devices garbage p)).1
        ≡ counted success count_devices list_devices garbage p
  unfolding counted
  counted-fills garbage p none e d w =
      let quiet = d.silent p (counted success count_devices list_devices garbage p) e in cc
  counted-fills garbage p (some n) e d w =
      let same : counted success count_devices list_devices garbage p ≡ n = rw (counted, e) refl in
      let full = d.filled p n (counted success count_devices list_devices garbage p) e w in
      full ∙ ap (λ x. if ltb x n then x else n) same ∙ itself n ∙ sym same
    where
      itself : (n : ℕ) → (if ltb n n then n else n) ≡ n
      itself n = ground arith

  counts-Fills : (ps : List P) (garbage : List ℕ) → Documented → Fills ps (counts ps garbage)
  counts-Fills [] garbage d = tt
  counts-Fills (p ∷ ps) garbage d = (
    counted-fills garbage p (count_devices p) refl d,
    d.inside p (counted success count_devices list_devices garbage p),
    counts-Fills ps (rest garbage) d,
  )

  -- When OpenCL lists as many devices as it counts, as far as there is room for them, a platform that
  -- does not tell their number lists none, and the number of devices fits `unsigned int`, the call
  -- returns the devices of the platforms that answer, platform by platform in the order given,
  -- from the start of the array on, and exactly their number; a platform that fails leaves no trace.
  pub get_all_devices-concat :
      (ps : List P) (garbage : List ℕ)
      → Documented
      → total (counts ps garbage) < 2 ^ 32
      → ((get_all_devices success count_devices list_devices ps garbage).1
          ≡ length (devices_of ps (counts ps garbage)))
        × (take
              (get_all_devices success count_devices list_devices ps garbage).1
              (get_all_devices success count_devices list_devices ps garbage).0
            ≡ map (λ x. some x) (devices_of ps (counts ps garbage)))
  unfolding get_all_devices
  get_all_devices-concat ps garbage d b =
      let ns = counts ps garbage in
      let blank : Option D = none in
      let f =
        fill_loop-Filled ps ns 0 (total ns) (replicate (total ns) blank) []
          (counts-Fills ps garbage d) (length-counts ps garbage)
          (record { front = refl; size = refl }) (omega arith)
          (omega (arith, length-replicate (total ns) blank)) b in
      rw (count_loop-counts ps garbage 0 (total ns) (omega arith) b, f.ran)
        (sym f.whole.size, f.whole.front)
