-- ===== src/Cllib/Select/Found.antt =====
-- The platform chosen is the first one whose name holds the text asked for.
use u_clbench.Base.{
  ℕ, ◌≡◌, ◌≢◌, ◌⊎◌, refl, ap, arith, Bool, true, false, ◌&&◌, ◌==◌, Option, none, some, List, [],
  ◌∷◌, ◌++◌, Bool-cases, inl, inr, All,
}
use u_clbench.Base.Int.{ℤ, ◌==ℤ◌, ==ℤ_iff}
use u_clbench.Base.Text.{Bytes, strstr}
use u_clbench.Cllib.Select.{
  Answers, find_platform, my_get_platform_id, devices_of, get_device_by_platform,
}

none-ne-some {ℓ} : {A : Type ℓ} {x : A} → none ≡ some x → ⊥
none-ne-some h = cc

some_injective {ℓ} : {A : Type ℓ} {x y : A} → some x ≡ some y → x ≡ y
some_injective h = cc

module _ {P D T : Type 0} (a : Answers P D T) where
  -- the name of the platform is to be had, and holds the text
  abbrev pub fits : Bytes → P → Bool
  fits name p = ((a.platform_name p).0 ==ℤ a.success) && strstr (a.platform_name p).1 name

  abbrev pub IsFirst : Bytes → List P → Option P → Type 0
  IsFirst name ps none = All (λ p. fits name p ≡ false) ps
  IsFirst name ps (some p) =
      (before after : List P) × (ps ≡ before ++ p ∷ after)
      × All (λ q. fits name q ≡ false) before
      × (fits name p ≡ true)

  IsFirst-cons :
      (name : Bytes) (p : P) (ps : List P) (o : Option P)
      → fits name p ≡ false
      → IsFirst name ps o
      → IsFirst name (p ∷ ps) o
  IsFirst-cons name p ps none h f = (h, f)
  IsFirst-cons name p ps (some q) h (before, after, e, no_match, hit) =
      (p ∷ before, after, ap (◌∷◌ p) e, (h, no_match), hit)

  find_platform-IsFirst : (name : Bytes) (ps : List P) → IsFirst name ps (find_platform a name ps)
  unfolding find_platform
  find_platform-IsFirst name [] = tt
  find_platform-IsFirst name (p ∷ ps) = elim (Bool-cases (fits name p)) [
    | inl h ↦ rw h ([], ps, refl, tt, h)
    | inr h ↦ rw h (IsFirst-cons name p ps _ h (find_platform-IsFirst name ps))
  ]

  platform_result : Option P → ℤ × Option P
  platform_result none = (a.device_not_found, none)
  platform_result (some p) = (a.success, some p)

  my_get_platform_id_lem :
      (name : Bytes)
      → (a.count_status ==ℤ a.success) ≡ true
      → (a.num_platforms == 0) ≡ false
      → a.allocates ≡ true
      → my_get_platform_id a name ≡ platform_result (find_platform a name a.platforms)
  unfolding my_get_platform_id platform_result
  my_get_platform_id_lem name s n m = simp (s, n, m)

  -- When OpenCL tells of at least one platform and there is room for their list, the call selects
  -- the first platform whose name can be had and contains the text, with success; if there is none
  -- it selects nothing and reports that no device was found.
  pub my_get_platform_id-IsFirst :
      (name : Bytes)
      → (a.count_status ==ℤ a.success) ≡ true
      → (a.num_platforms == 0) ≡ false
      → a.allocates ≡ true
      → IsFirst name a.platforms (my_get_platform_id a name).1
        × (((my_get_platform_id a name).1 ≡ none)
              × ((my_get_platform_id a name).0 ≡ a.device_not_found)
            ⊎ ((my_get_platform_id a name).1 ≢ none) × ((my_get_platform_id a name).0 ≡ a.success))
  unfolding platform_result
  my_get_platform_id-IsFirst name s n m =
      rw (my_get_platform_id_lem name s n m)
        (result_cases (find_platform a name a.platforms) (find_platform-IsFirst name a.platforms))
    where
      result_cases :
          (o : Option P)
          → IsFirst name a.platforms o
          → IsFirst name a.platforms (platform_result o).1
            × (((platform_result o).1 ≡ none) × ((platform_result o).0 ≡ a.device_not_found)
                ⊎ ((platform_result o).1 ≢ none) × ((platform_result o).0 ≡ a.success))
      result_cases none f = (f, inl (refl, refl))
      result_cases (some p) f = (f, inr (λ e. cc, refl))

  -- `devs` are what `clGetDeviceIDs` lists for platform `p`, and `n` what it counts.
  pub record Lists (p : P) (type : T) (devs : List D) (n : ℕ) : Type 0 where
    pub counted : a.device_count p type ≡ (a.success, n)
    pub listed : a.device_list p type n ≡ (a.success, devs)

  devices_of-Lists :
      (o : Option P) (num : ℕ) (type : T) (devs : List D)
      → (devices_of a o num type).0 ≡ some devs
      → (p : P) × (o ≡ some p) × Lists p type devs (devices_of a o num type).1
  unfolding devices_of
  devices_of-Lists none num type devs h = cc
  devices_of-Lists (some p) num type devs h =
      let cnt = a.device_count p type in
      let lst = a.device_list p type cnt.1 in
      elim (Bool-cases (cnt.0 ==ℤ a.success)) [
        | inr c ↦ absurd (none-ne-some (rw c at h))
        | inl c ↦ elim (Bool-cases (lst.0 ==ℤ a.success)) [
          | inr l ↦ absurd (none-ne-some (rw (c, l) at h))
          | inl l ↦ (
            p,
            refl,
            rw (c, l)
                (record {
                  counted =
                      ap (λ (x : ℤ). let r : ℤ × ℕ = (x, cnt.1) in r)
                        ((==ℤ_iff cnt.0 a.success).0 c);
                  listed =
                      λ i. ((==ℤ_iff lst.0 a.success).0 l i, some_injective (rw (c, l) at h) i);
                }),
          )
        ]
      ]

  my_get_platform_id-some :
      (name : Bytes) (p : P)
      → (my_get_platform_id a name).1 ≡ some p
      → find_platform a name a.platforms ≡ some p
  unfolding my_get_platform_id
  my_get_platform_id-some name p h = ground arith

  -- When the call returns an array of devices, it is what OpenCL lists for the first platform
  -- whose name contains the text, and `*num_devices` is set to the number counted there.
  pub get_device_by_platform-Lists :
      (num : ℕ) (name : Bytes) (type : T) (devs : List D)
      → (get_device_by_platform a num name type).0 ≡ some devs
      → (p : P) × IsFirst name a.platforms (some p)
        × Lists p type devs (get_device_by_platform a num name type).1
  unfolding get_device_by_platform
  get_device_by_platform-Lists num name type devs h =
      elim (Bool-cases ((my_get_platform_id a name).0 ==ℤ a.success)) [
        | inr c ↦ absurd (none-ne-some (rw c at h))
        | inl c ↦
            let (p, e, l) =
              devices_of-Lists (my_get_platform_id a name).1 num type devs (rw c at h) in
            (
              p,
              rw (my_get_platform_id-some name p e) at (find_platform-IsFirst name a.platforms),
              rw c l,
            )
      ]
